-- ===== src/Vm/GasTable.antt =====
-- vm/gas_table.go and vm/gas.go: what the operations cost. A gas function takes the memory size that
-- the interpreter computed for the operation.
pub mod MemoryCost
pub mod Sstore
pub mod Calls
use cardinal_evm.Prelude.{ℕ, ◌+◌, ◌-◌, ◌*◌, ◌/◌, ◌%◌, ◌==◌, ltb, leb, Bool, true, false, not, ◌||◌}
use cardinal_evm.Prelude.{if◌then◌else◌, add64, sub64, mul64}
use cardinal_evm.Vm.Uint256.{Uint256}
use cardinal_evm.Vm.Math.{safe_add, safe_mul}
use cardinal_evm.Vm.Common.{to_word_size}
use cardinal_evm.Vm.Memory
use cardinal_evm.Vm.Memory.{Memory}
use cardinal_evm.Vm.Params
use cardinal_evm.Vm.Frame.{
  Frame, Outcome, ok, err, panic, gas_uint_overflow, M, ◌>>=◌, ◌>>◌, pure, fail,
}
use cardinal_evm.Vm.Frame.{gets, checked, back}

-- The fee for growing the memory to `size` bytes, and the memory with the new total recorded. The
-- last step is a function of the total fee.
unfoldable pub charge : Memory → ℕ → Outcome ℕ × Memory
charge mem total = (ok (sub64 total mem.last_gas_cost), record mem { last_gas_cost = total })

unfoldable pub memory_fee : Memory → ℕ → Outcome ℕ × Memory
unfolding charge
memory_fee mem size =
    if size == 0
    then (ok 0, mem)
    else if ltb 0x1f_ffff_ffe0 size
    then (err gas_uint_overflow, mem)
    else let words = to_word_size size in
      let square = mul64 words words in
      let lin_coef = mul64 words Params.memory_gas in
      let quad_coef = square / Params.quad_coeff_div in
      if ltb (Memory.len mem) (mul64 words 32)
      then charge mem (add64 lin_coef quad_coef)
      else (ok 0, mem)

unfoldable pub memory_gas_cost : ℕ → M ℕ
unfolding memory_fee
memory_gas_cost size f = let (r, mem) = memory_fee f.mem size in (r, record f { mem = mem })

module _ (u : Uint256) where
  -- Uint64WithOverflow(), where an overflow is ErrGasUintOverflow.
  abbrev pub as_uint64 : ℕ → M ℕ
  as_uint64 x = checked (u.uint64 x, not (u.is_uint64 x))

  unfoldable pub memory_copier_gas : ℕ → ℕ → M ℕ
  memory_copier_gas stackpos memory_size = do
    gas ← memory_gas_cost memory_size
    size ← back stackpos
    words ← as_uint64 size
    cost ← checked (safe_mul (to_word_size words) Params.copy_gas)
    checked (safe_add gas cost)

  unfoldable pub make_gas_log : ℕ → ℕ → M ℕ
  make_gas_log n memory_size = do
    size ← back 1
    requested_size ← as_uint64 size
    gas ← memory_gas_cost memory_size
    gas1 ← checked (safe_add gas Params.log_gas)
    gas2 ← checked (safe_add gas1 (mul64 n Params.log_topic_gas))
    memory_size_gas ← checked (safe_mul requested_size Params.log_data_gas)
    checked (safe_add gas2 memory_size_gas)

  -- The price of the words of the item at a stack position, on top of the memory's.
  per_word : ℕ → ℕ → M ℕ
  per_word stackpos memory_size = do
    gas ← memory_gas_cost memory_size
    size ← back stackpos
    word_gas ← as_uint64 size
    cost ← checked (safe_mul (to_word_size word_gas) Params.keccak256_word_gas)
    checked (safe_add gas cost)

  unfoldable pub gas_keccak256 : ℕ → M ℕ
  unfolding per_word
  gas_keccak256 memory_size = per_word 1 memory_size

  unfoldable pub gas_create2 : ℕ → M ℕ
  unfolding per_word
  gas_create2 memory_size = per_word 2 memory_size

  unfoldable pub pure_memory_gascost : ℕ → M ℕ
  pure_memory_gascost memory_size = memory_gas_cost memory_size

  -- gasExpFrontier and gasExpEIP158 read the item below the top, the exponent.
  gas_exp : ℕ → M ℕ
  gas_exp per_byte = do
    exponent ← back 1
    checked (safe_add (mul64 ((u.bit_len exponent + 7) / 8) per_byte) Params.exp_gas)

  unfoldable pub gas_exp_frontier : ℕ → M ℕ
  unfolding gas_exp
  gas_exp_frontier memory_size = gas_exp Params.exp_byte_frontier

  unfoldable pub gas_exp_eip158 : ℕ → M ℕ
  unfolding gas_exp
  gas_exp_eip158 memory_size = gas_exp Params.exp_byte_eip158

  -- gasCreateEip3860 and gasCreate2Eip3860, by the price of a word of init code.
  init_code : ℕ → ℕ → M ℕ
  init_code word_gas memory_size = do
    gas ← memory_gas_cost memory_size
    item ← back 2
    size ←
        checked
          (u.uint64 item, not (u.is_uint64 item) || ltb Params.max_init_code_size (u.uint64 item))
    checked (safe_add gas (mul64 word_gas (add64 size 31 / 32)))

  unfoldable pub gas_create_eip3860 : ℕ → M ℕ
  unfolding init_code
  gas_create_eip3860 = init_code Params.init_code_word_gas

  unfoldable pub gas_create2_eip3860 : ℕ → M ℕ
  unfolding init_code
  gas_create2_eip3860 = init_code (Params.init_code_word_gas + Params.keccak256_word_gas)
