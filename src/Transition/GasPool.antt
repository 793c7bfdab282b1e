-- ===== src/Transition/GasPool.antt =====
-- api/gaspool.go: the gas that a block has left. `none` is AddGas's panic, and SubGas's error.
use cardinal_evm.Prelude.{ℕ, ◌-◌, ltb, if◌then◌else◌, Option, none, some}
use cardinal_evm.Prelude.{max_u64, add64}

unfoldable pub add_gas : ℕ → ℕ → Option ℕ
add_gas pool amount = if ltb (max_u64 - amount) pool then none else some (add64 pool amount)

unfoldable pub sub_gas : ℕ → ℕ → Option ℕ
sub_gas pool amount = if ltb pool amount then none else some (pool - amount)
