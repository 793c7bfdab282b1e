-- ===== src/Vm/Contracts/Tests.antt =====
-- The precompiled contracts on concrete inputs, and uses of their theorems.
use cardinal_evm.Prelude.{◌≤◌, ◌≡◌, refl, true, false, ◌∷◌, ◌++◌, replicate, some}
use cardinal_evm.State.Account.{Bytes}
use cardinal_evm.Vm.Contracts.{
  lookup, precompile, active_precompiles, p256_verify, napoli_contracts,
}
use cardinal_evm.Vm.Contracts.Active
use cardinal_evm.Vm.Contracts.Active.{is_listed, is_found}
use cardinal_evm.Vm.Contracts.Dearer
use cardinal_evm.Vm.Common.{get_data}
use cardinal_evm.Vm.Contracts.Gas.{modexp_required_gas}
use cardinal_evm.Vm.Interpreter.Tests.{cancun_rules}

-- 3 ^ 65537 by a modulus of 64 bytes.
abbrev input : Bytes
input =
    replicate 31 0
    ++ 1 ∷ replicate 31 0
    ++ 3 ∷ replicate 31 0
    ++ 64 ∷ 3 ∷ 1 ∷ 0 ∷ 1 ∷ replicate 64 255

price_in_berlin : modexp_required_gas true false input ≡ 341
unfolding modexp_required_gas get_data
price_in_berlin = refl

price_in_osaka : modexp_required_gas true true input ≡ 2048
unfolding modexp_required_gas get_data
price_in_osaka = refl

p256_on_napoli : lookup napoli_contracts 256 ≡ some (p256_verify 3450)
unfolding lookup napoli_contracts
p256_on_napoli = refl

active_precompiles-precompile_example :
    is_listed 10 (active_precompiles cancun_rules) ≡ is_found (precompile cancun_rules 10)
active_precompiles-precompile_example = Active.active_precompiles-precompile cancun_rules 10

modexp_required_gas_le_example :
    modexp_required_gas true false input ≤ modexp_required_gas true true input
modexp_required_gas_le_example = Dearer.modexp_required_gas_le input
