-- ===== src/Transition/Tests.antt =====
-- Uses of the theorems on the gas of a message at concrete messages.
use cardinal_evm.Prelude.{◌+◌, ◌-◌, ◌≤◌, ◌≡◌, true, some, [], ◌∷◌, arith}
use cardinal_evm.State.Account.{Bytes}
use cardinal_evm.Transition.GasPool
use cardinal_evm.Transition.Intrinsic
use cardinal_evm.Transition.Intrinsic.{Kind, Tuples}
use cardinal_evm.Transition.Intrinsic.Exact
use cardinal_evm.Transition.Settlement

-- A contract creation with three bytes of init code, an access list and one authorization.
abbrev creation : Kind
creation = record {
  is_contract_creation = true;
  is_homestead = true;
  is_eip2028 = true;
  is_eip3860 = true;
}

abbrev init_code : Bytes
init_code = 96 ∷ 0 ∷ 1 ∷ []

abbrev tuples : Tuples
tuples = (7, 1 ∷ 2 ∷ []) ∷ []

intrinsic_gas_exact_example :
    Intrinsic.intrinsic_gas creation init_code (some tuples) (some 1) ≡ some 84238
unfolding Exact.price
intrinsic_gas_exact_example =
    Exact.intrinsic_gas_exact creation init_code (some tuples) (some 1) (omega arith) (omega arith)

settle_lem_example :
    (Settlement.settle true 100000 40000 20000 21000
        + Settlement.charged true (100000 - 40000) 20000 21000
      ≡ 100000)
    × (Settlement.charged true (100000 - 40000) 20000 21000 ≤ 100000)
settle_lem_example =
    Settlement.settle_lem true 100000 40000 20000 21000 (omega arith) (omega arith) (omega arith)
