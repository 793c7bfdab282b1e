-- ===== src/Vm/Tests.antt =====
-- Tests of the vm package on 256-bit words, and uses of its theorems there.
use cardinal_evm.Prelude.{
  ℕ, zero, suc, ◌+◌, ◌-◌, ◌*◌, ◌/◌, ◌%◌, ◌^◌, ◌<◌, ◌≤◌, ◌≡◌, refl, arith, ◌==◌, ltb,
}
use cardinal_evm.Prelude.{true, false, if◌then◌else◌, some, List, [], ◌∷◌, replicate}
use cardinal_evm.State.Db.{new_state_db}
use cardinal_evm.State.Tests.{chain}
use cardinal_evm.Vm.Uint256.{Uint256}
use cardinal_evm.Vm.Common
use cardinal_evm.Vm.Memory
use cardinal_evm.Vm.Memory.{Memory}
use cardinal_evm.Vm.Memory.Overlap
use cardinal_evm.Vm.Stack
use cardinal_evm.Vm.Frame.{Frame, ok}
use cardinal_evm.Vm.GasTable.MemoryCost
use cardinal_evm.Vm.GasTable
use cardinal_evm.Vm.GasTable.Calls
use cardinal_evm.Vm.GasTable.Calls.AllBut
use cardinal_evm.Vm.GasTable.Calls.Cold
use cardinal_evm.Vm.GasTable.Calls.Keeps.{Call, calculator, IsSettled}
use cardinal_evm.Vm.GasTable.Calls.Settled
use cardinal_evm.State.Db.Ops
use cardinal_evm.State.Object.Load
use cardinal_evm.Vm.GasTable.Sstore
use cardinal_evm.Vm.GasTable.Sstore.{eip2929}
use cardinal_evm.Vm.GasTable.Sstore.Refund
use cardinal_evm.Vm.GasTable.Sstore.Refund.{original_at, current_at}
use cardinal_evm.Vm.GasTable.Sstore.Runs

abbrev pub bits : ℕ → ℕ → ℕ
bits zero x = 0
bits (suc n) x = if x == 0 then 0 else 1 + bits n (x / 2)

pub bits-le : (n x : ℕ) → bits n x ≤ n
bits-le zero x = omega arith
bits-le (suc n) x = ground (arith, bits-le n (x / 2))

pub small_bytes : (x : ℕ) → x < 2 ^ 256 → x % 2 ^ 256 ≡ x
small_bytes x h = ground arith

abbrev pub words : Uint256
words = record {
  is_uint64 = λ x. ltb x (2 ^ 64);
  uint64 = λ x. x % 2 ^ 64;
  gt = λ x y. ltb y x;
  is_zero = λ x. x == 0;
  bit_len = bits 256;
  bytes20 = λ x. x % 2 ^ 160;
  bytes32 = λ x. x % 2 ^ 256;
  is_uint64_lem = λ x. refl;
  uint64_lem = λ x. refl;
  gt_lem = λ x y. refl;
  is_zero_lem = λ x. refl;
  bit_len-le = λ x h. bits-le 256 x;
  bytes32_lem = small_bytes;
}

-- A call of account 1 with all gas and a value of 0, by a contract with 64000 gas.
abbrev caller : Frame
caller = record {
  rules = record {
    is_eip150 = true;
    is_eip158 = true;
    is_petersburg = true;
    is_constantinople = true;
  };
  address = 1;
  gas = 64000;
  stack = 100000 ∷ 1 ∷ 0 ∷ 0 ∷ 0 ∷ 0 ∷ 0 ∷ [];
  mem = record { store = []; last_gas_cost = 0 };
  call_gas_temp = 0;
  db = new_state_db;
}

call_variant_7702-IsSettled_example : IsSettled 64000 (
    Cold.make_call_variant_gas_call_eip7702 words chain (calculator words chain Call.call) 0 caller)
call_variant_7702-IsSettled_example =
    Settled.call_variant_7702-IsSettled words chain Call.call 0 caller (omega arith)

call_variant_2929-IsSettled_example : IsSettled 64000 (
    Cold.make_call_variant_gas_call_eip2929 words chain (calculator words chain Call.call) 0 caller)
call_variant_2929-IsSettled_example =
    Settled.call_variant_2929-IsSettled words chain Call.call 0 caller (omega arith)

add_call_gas_affordable_example :
    (Calls.add_call_gas words 2600 caller ≡ (
      ok (2600 + AllBut.callee_gas 64000 2600 100000),
      record caller { call_gas_temp = AllBut.callee_gas 64000 2600 100000 },
    ))
    × (2600 + AllBut.callee_gas 64000 2600 100000 ≤ 64000)
    × ((64000 - 2600) / 64 ≤ 64000 - (2600 + AllBut.callee_gas 64000 2600 100000))
add_call_gas_affordable_example =
    AllBut.add_call_gas_affordable words 2600 100000 (1 ∷ 0 ∷ 0 ∷ 0 ∷ 0 ∷ 0 ∷ []) caller refl refl
      (omega arith) (omega arith)

call_gas_lem_example : Calls.call_gas words true 64000 2600 100000 ≡ ok 60441
call_gas_lem_example = AllBut.call_gas_lem words 64000 2600 100000 (omega arith) (omega arith)

empty_memory-IsPaid : MemoryCost.IsPaid (record { store = []; last_gas_cost = 0 })
unfolding MemoryCost.memory_cost
empty_memory-IsPaid = record { whole = refl; limit = omega arith; paid = refl }

memory_fee-IsFee_example :
    MemoryCost.IsFee
      (record { store = []; last_gas_cost = 0 })
      (Common.to_word_size 100)
      (GasTable.memory_fee (record { store = []; last_gas_cost = 0 }) 100)
memory_fee-IsFee_example =
    MemoryCost.memory_fee-IsFee (record { store = []; last_gas_cost = 0 }) 100 empty_memory-IsPaid
      (omega arith)

abbrev two_words : Memory
two_words = record { store = replicate 64 0; last_gas_cost = 6 }

get_copy-set_example :
    (n : Memory) × (Memory.set two_words 30 3 (1 ∷ 2 ∷ 3 ∷ []) ≡ some n)
    × (Memory.len n ≡ Memory.len two_words)
    × (n.last_gas_cost ≡ 6)
    × (Memory.get_copy n 30 3 ≡ some (1 ∷ 2 ∷ 3 ∷ []))
    × ((i : ℕ) → Memory.elsewhere n 30 3 i ≡ Memory.elsewhere two_words 30 3 i)
get_copy-set_example =
    Memory.get_copy-set two_words 30 (1 ∷ 2 ∷ 3 ∷ []) (omega arith) (omega arith) (omega arith)

get_copy-copy_example :
    (n : Memory) × (Memory.copy two_words 8 0 16 ≡ some n)
    × (Memory.len n ≡ Memory.len two_words)
    × (Memory.get_copy n 8 16 ≡ Memory.get_copy two_words 0 16)
    × ((i : ℕ) → Memory.elsewhere n 8 16 i ≡ Memory.elsewhere two_words 8 16 i)
unfolding Memory.len
get_copy-copy_example =
    Overlap.get_copy-copy two_words 8 0 16 (omega arith) (omega arith) (omega arith) (omega arith)

calc_mem_size64_exact_example :
    Common.unless_overflow (Common.calc_mem_size64 words (2 ^ 64 - 1) 2)
    ≡ Common.end_of_range (2 ^ 64 - 1) 2
calc_mem_size64_exact_example = Common.calc_mem_size64_exact words (2 ^ 64 - 1) 2

to_word_size_least_example : (33 ≤ Common.to_word_size 33 * 32) × (Common.to_word_size 33 ≤ 2)
to_word_size_least_example = Common.to_word_size_least 33 2 (omega arith) (omega arith)

back-swap_example :
    (t : List ℕ) × (Stack.swap (1 ∷ 2 ∷ 3 ∷ []) 3 ≡ some t)
    × ((i : ℕ)
        → Stack.back t i ≡ (
            if i == 0
            then Stack.back (1 ∷ 2 ∷ 3 ∷ []) 2
            else if i == 2
            then Stack.back (1 ∷ 2 ∷ 3 ∷ []) 0
            else Stack.back (1 ∷ 2 ∷ 3 ∷ []) i))
back-swap_example = Stack.back-swap (1 ∷ 2 ∷ 3 ∷ []) 3 (omega arith) (omega arith)

pop-dup_example :
    (x : ℕ) × (t : List ℕ) × (Stack.back (1 ∷ 2 ∷ 3 ∷ []) 1 ≡ some x)
    × (Stack.dup (1 ∷ 2 ∷ 3 ∷ []) 2 ≡ some t)
    × (Stack.pop t ≡ some (x, 1 ∷ 2 ∷ 3 ∷ []))
pop-dup_example = Stack.pop-dup (1 ∷ 2 ∷ 3 ∷ []) 2 (omega arith) (omega arith)

-- Slot 3 of account 1 holds 7: clearing it refunds 4800.
abbrev clearing : List Runs.Write
clearing = record { address = 1; slot = 3; value = 0 } ∷ []

sub_refund_covered_example :
    4800 ≤ (Runs.sstores words chain (eip2929 4800) clearing new_state_db).refund
unfolding new_state_db Runs.sstores Refund.sstore Sstore.net_metered Sstore.net_cost Ops.get_state
    Ops.get_committed_state Ops.set_state Ops.add_refund Load.decode_slot
sub_refund_covered_example =
    Runs.sub_refund_covered words chain (eip2929 4800) clearing new_state_db 1 1003 (λ c k. refl)
      (omega arith) was now
  where
    was :
        (original_at words chain
            (Runs.sstores words chain (eip2929 4800) clearing new_state_db)
            1
            1003
          == 0)
        ≡ false
    was = refl

    now :
        current_at words chain
          (Runs.sstores words chain (eip2929 4800) clearing new_state_db)
          1
          1003
        ≡ 0
    now = refl
