-- ===== src/Vm/Contracts/Active.antt =====
-- ActivePrecompiles against EVM.precompile (vm/contracts.go, vm/evm.go).
use cardinal_evm.Prelude.{
  ◌==◌, Bool, true, false, ◌||◌, Option, none, some, List, [], ◌∷◌, ◌≡◌, refl, ap, ◌∙◌, arith,
}
use cardinal_evm.State.Account.{Address}
use cardinal_evm.Vm.JumpTable.Validate.{ChainRules}
use cardinal_evm.Vm.Contracts.{
  Precompiled, Contracts, lookup, contracts_of, precompile, addresses, active_precompiles,
}

abbrev pub is_found : Option Precompiled → Bool
is_found none = false
is_found (some p) = true

abbrev pub is_listed : Address → List Address → Bool
is_listed a [] = false
is_listed a (x ∷ xs) = x == a || is_listed a xs

listed-addresses :
    (cs : Contracts) (a : Address) → is_listed a (addresses cs) ≡ is_found (lookup cs a)
unfolding addresses lookup
listed-addresses [] a = refl
listed-addresses ((k, p) ∷ cs) a = let ih = listed-addresses cs a in ground arith

active-addresses : (r : ChainRules) → active_precompiles r ≡ addresses (contracts_of r)
unfolding active_precompiles contracts_of
active-addresses r = ground arith

-- For any rules, the addresses that ActivePrecompiles names, which a transaction warms, are exactly
-- those at which a call runs a precompiled contract.
pub active_precompiles-precompile :
    (r : ChainRules) (a : Address) → is_listed a (active_precompiles r) ≡ is_found (precompile r a)
unfolding precompile
active_precompiles-precompile r a =
    ap (is_listed a) (active-addresses r) ∙ listed-addresses (contracts_of r) a
