-- ===== src/Vm/MemoryTable.antt =====
-- vm/memory_table.go: how much memory an operation needs, with an overflow flag; `none` is the panic
-- of a stack that is too short. vm/stack_table.go: the bounds on the stack.
use cardinal_evm.Prelude.{ℕ, ltb, Bool, true, false, if◌then◌else◌, Option, some, ◌>>=◌}
use cardinal_evm.Vm.Uint256.{Uint256}
use cardinal_evm.Vm.Stack.{Stack, back}
use cardinal_evm.Vm.Common.{calc_mem_size64, calc_mem_size64_with_uint}

module _ (u : Uint256) where
  -- The range whose offset and length stand at two positions of the stack.
  unfoldable pub range_at : ℕ → ℕ → Stack → Option (ℕ × Bool)
  range_at i j st = do off ← back st i; l ← back st j; some (calc_mem_size64 u off l)

  word_at : ℕ → ℕ → Stack → Option (ℕ × Bool)
  word_at i length64 st = do off ← back st i; some (calc_mem_size64_with_uint u off length64)

  unfoldable pub memory_keccak256 : Stack → Option (ℕ × Bool)
  memory_keccak256 = range_at 0 1

  unfoldable pub memory_call_data_copy : Stack → Option (ℕ × Bool)
  memory_call_data_copy = range_at 0 2

  unfoldable pub memory_return_data_copy : Stack → Option (ℕ × Bool)
  memory_return_data_copy = range_at 0 2

  unfoldable pub memory_code_copy : Stack → Option (ℕ × Bool)
  memory_code_copy = range_at 0 2

  unfoldable pub memory_ext_code_copy : Stack → Option (ℕ × Bool)
  memory_ext_code_copy = range_at 1 3

  unfoldable pub memory_mload : Stack → Option (ℕ × Bool)
  unfolding word_at
  memory_mload = word_at 0 32

  unfoldable pub memory_mstore8 : Stack → Option (ℕ × Bool)
  unfolding word_at
  memory_mstore8 = word_at 0 1

  unfoldable pub memory_mstore : Stack → Option (ℕ × Bool)
  unfolding word_at
  memory_mstore = word_at 0 32

  unfoldable pub memory_mcopy : Stack → Option (ℕ × Bool)
  memory_mcopy st = do
    dest ← back st 0
    source ← back st 1
    l ← back st 2
    some (calc_mem_size64 u (if u.gt source dest then source else dest) l)

  unfoldable pub memory_create : Stack → Option (ℕ × Bool)
  memory_create = range_at 1 2

  unfoldable pub memory_create2 : Stack → Option (ℕ × Bool)
  memory_create2 = range_at 1 2

  -- The larger of two ranges, or the overflow of one of them.
  unfoldable pub larger : ℕ × Bool → ℕ × Bool → ℕ × Bool
  larger (x, true) y = (0, true)
  larger (x, false) (y, true) = (0, true)
  larger (x, false) (y, false) = if ltb y x then (x, false) else (y, false)

  larger_at : ℕ → ℕ → ℕ → ℕ → Stack → Option (ℕ × Bool)
  larger_at i j i' j' st = do x ← range_at i j st; y ← range_at i' j' st; some (larger x y)

  unfoldable pub memory_call : Stack → Option (ℕ × Bool)
  unfolding larger_at
  memory_call = larger_at 5 6 3 4

  unfoldable pub memory_delegate_call : Stack → Option (ℕ × Bool)
  unfolding larger_at
  memory_delegate_call = larger_at 4 5 2 3

  unfoldable pub memory_static_call : Stack → Option (ℕ × Bool)
  unfolding larger_at
  memory_static_call = larger_at 4 5 2 3

  unfoldable pub memory_return : Stack → Option (ℕ × Bool)
  memory_return = range_at 0 1

  unfoldable pub memory_revert : Stack → Option (ℕ × Bool)
  memory_revert = range_at 0 1

  unfoldable pub memory_log : Stack → Option (ℕ × Bool)
  memory_log = range_at 0 1
