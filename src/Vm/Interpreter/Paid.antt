-- ===== src/Vm/Interpreter/Paid.antt =====
-- The memory's record of what was paid never passes the cost of the memory, so that a fee for memory
-- is small.
use cardinal_evm.Prelude.{
  ℕ, ◌-◌, ◌/◌, ◌%◌, ◌^◌, ◌≡◌, ◌≤◌, arith, length, replicate, length-append, length-replicate,
}
use cardinal_evm.Vm.Memory
use cardinal_evm.Vm.Memory.{Memory}
use cardinal_evm.Vm.GasTable.{memory_fee, charge}
use cardinal_evm.Vm.GasTable.MemoryCost.{memory_cost, memory_cost_mono, word_size}
use cardinal_evm.Vm.Interpreter.CallCost.{IsSmallFee}
use cardinal_evm.Vm.Interpreter.Charged.{Within, total_lem}

abbrev pub IsCovered : Memory → Type 0
IsCovered mem = mem.last_gas_cost ≤ memory_cost (length mem.store / 32)

largest : memory_cost 0xffff_ffff ≤ 2 ^ 57
unfolding memory_cost
largest = omega arith

small_cost : (size : ℕ) → size ≤ 0x1f_ffff_ffe0 → memory_cost (size / 32) ≤ 2 ^ 57
small_cost size h = omega (arith, memory_cost_mono (size / 32) 0xffff_ffff (omega arith), largest)

pub memory_fee-IsSmallFee :
    (size : ℕ) (mem : Memory) → size % 32 ≡ 0 → IsCovered mem → IsSmallFee (memory_fee mem size)
unfolding memory_fee charge Memory.len
memory_fee-IsSmallFee size mem whole h = ground (
  arith,
  small_cost size,
  word_size size,
  total_lem size (memory_cost (size / 32)) (omega arith) whole mem.store,
  memory_cost_mono (length mem.store / 32) (size / 32),
)

length-resize :
    (mem : Memory) (size : ℕ)
    → (size ≤ length (Memory.resize mem size).store)
      × (length mem.store ≤ length (Memory.resize mem size).store)
unfolding Memory.resize
length-resize mem size = ground (
  arith,
  length-append mem.store (replicate (size - length mem.store) 0),
  length-replicate {A = ℕ} (size - length mem.store) 0,
)

-- The most that is recorded as paid when the memory has grown to a size.
abbrev pub grown_cost : Memory → ℕ → ℕ
grown_cost mem size = memory_cost (length (Memory.resize mem size).store / 32)

pub grown_cost_bounds :
    (mem : Memory) (size : ℕ)
    → IsCovered mem
    → (memory_cost (size / 32) ≤ grown_cost mem size) × (mem.last_gas_cost ≤ grown_cost mem size)
grown_cost_bounds mem size h =
    let (a, b) = length-resize mem size in
    (
      memory_cost_mono _ _ (omega (arith, a)),
      omega (
        arith,
        h,
        memory_cost_mono (length mem.store / 32) (length (Memory.resize mem size).store / 32)
            (omega (arith, b)),
      ),
    )

resize_last : (mem : Memory) (size : ℕ) → (Memory.resize mem size).last_gas_cost ≡ mem.last_gas_cost
unfolding Memory.resize
resize_last mem size = ground arith

resize_store :
    (out mem : Memory) (size : ℕ)
    → out.store ≡ mem.store
    → (Memory.resize out size).store ≡ (Memory.resize mem size).store
unfolding Memory.resize
resize_store out mem size e = ground arith

-- After the fee and the growth.
pub resize-IsCovered :
    (mem out : Memory) (size : ℕ)
    → Within (grown_cost mem size) mem.store out
    → IsCovered (Memory.resize out size)
resize-IsCovered mem out size (same, le) =
    rw (resize_last out size, resize_store out mem size same) le
