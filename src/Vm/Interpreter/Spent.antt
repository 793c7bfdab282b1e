-- ===== src/Vm/Interpreter/Spent.antt =====
-- What the execution of an instruction leaves of the memory's size and of the gas.
use cardinal_evm.Prelude.{
  ℕ, zero, suc, ◌+◌, ◌≤◌, ◌≡◌, arith, length, length-set, List, Bool, true, false, if◌then◌else◌,
  Option, none, some, IsU64,
}
use cardinal_evm.Vm.Uint256.{Uint256}
use cardinal_evm.State.Account.{Address, Bytes}
use cardinal_evm.Vm.Stack
use cardinal_evm.Vm.Stack.{Stack}
use cardinal_evm.Vm.Memory
use cardinal_evm.Vm.Memory.{Memory, length-copy_at}
use cardinal_evm.Vm.JumpTable.Gas
use cardinal_evm.Vm.Scope
use cardinal_evm.Vm.Scope.{
  Exit, stop_token, execution_reverted, Scope, Host, Step, ok, exit, crash, X, ◌>>=◌, ◌>>◌,
}
use cardinal_evm.Vm.Instructions.Words
use cardinal_evm.Vm.Instructions.Context
use cardinal_evm.Vm.Instructions.Access
use cardinal_evm.Vm.Instructions.Control
use cardinal_evm.Vm.JumpTable.Operation.{
  Simple, op_mstore, op_mstore8, op_mcopy, op_call_data_copy, op_code_copy, op_ext_code_copy,
  op_return_data_copy, make_push, make_dup, make_swap, make_log,
}
use cardinal_evm.Vm.Interpreter.Dispatch.{execute_simple}
use cardinal_evm.Vm.JumpTable.Operation.{
  Calling, op_create, op_create2, op_call, op_call_code, op_delegate_call, op_static_call,
}
use cardinal_evm.Vm.Interpreter.Calls
use cardinal_evm.Vm.Interpreter.Calls.{Evm, execute_calling}
use cardinal_evm.Vm.Interpreter.Calls.{Answer, with_stipend, without}
use cardinal_evm.Vm.Interpreter.Sound.{halts}

-- The memory has its size and its record of what was paid.
abbrev pub IsAs : Memory → Memory → Type 0
IsAs m n = (length n.store ≡ length m.store) × (n.last_gas_cost ≡ m.last_gas_cost)

abbrev IsKept : Memory → Option Memory → Type 0
IsKept m none = Unit {0}
IsKept m (some n) = IsAs m n

set-IsKept :
    (m : Memory) (offset size : ℕ) (value : List ℕ) → IsKept m (Memory.set m offset size value)
unfolding Memory.set
set-IsKept m offset size value = grind (arith, length-copy_at)

set32-IsKept : (m : Memory) (offset : ℕ) (value : List ℕ) → IsKept m (Memory.set32 m offset value)
unfolding Memory.set32
set32-IsKept m offset value = grind (arith, length-copy_at)

copy-IsKept : (m : Memory) (dst src size : ℕ) → IsKept m (Memory.copy m dst src size)
unfolding Memory.copy
copy-IsKept m dst src size = grind (arith, length-copy_at)

-- An instruction that goes on does not end the run, and keeps the memory's size.
abbrev pub GoesOn : Simple → Scope → Step (Unit {0}) → Type 0
GoesOn x s (ok a s') = (halts x ≡ false) × IsAs s.mem s'.mem
GoesOn x s (exit e ret s') = Unit {0}
GoesOn x s crash = Unit {0}

drop_topics-keeps :
    (n : ℕ) (s s' : Scope) (a : Unit {0}) → Access.drop_topics n s ≡ ok a s' → s'.mem ≡ s.mem
unfolding Access.drop_topics Scope.pop
drop_topics-keeps zero s s' a e = cc
drop_topics-keeps (suc n) s s' a e = grind (arith, drop_topics-keeps n)

pub execute_simple-GoesOn :
    (h : Host) (gas : ℕ) (x : Simple) (s : Scope) → GoesOn x s (execute_simple h gas x s)
unfolding execute_simple Words.binary Words.unary Words.ternary Scope.pop Scope.push Scope.peek
    Scope.put_top Scope.on_stack Scope.on_memory Scope.from_memory Stack.pop Stack.push Stack.peek
    Access.copy_data Access.unless_read_only Control.jump_to Control.valid_jumpdest Control.output
    Words.op_add Words.op_sub Words.op_mul Words.op_div Words.op_sdiv Words.op_mod Words.op_smod
    Words.op_exp Words.op_sign_extend Words.op_not Words.op_lt Words.op_gt Words.op_slt Words.op_sgt
    Words.op_eq Words.op_iszero Words.op_and Words.op_or Words.op_xor Words.op_byte Words.op_addmod
    Words.op_mulmod Words.op_shl Words.op_shr Words.op_sar Words.op_clz Context.op_origin
    Context.op_gasprice Context.op_coinbase Context.op_timestamp Context.op_number
    Context.op_difficulty Context.op_random Context.op_gas_limit Context.op_base_fee
    Context.op_blob_base_fee Context.op_chain_id Context.op_push0 Context.op_address
    Context.op_caller Context.op_call_value Context.op_call_data_size Context.op_return_data_size
    Context.op_code_size Context.op_msize Context.op_pc Context.op_blockhash Context.op_blob_hash
    Context.op_call_data_load Access.op_pop Access.op_keccak256 Access.op_mload Access.op_mstore
    Access.op_mstore8 Access.op_mcopy Access.op_call_data_copy Access.op_code_copy
    Access.op_ext_code_copy Access.op_return_data_copy Access.op_balance Access.op_self_balance
    Access.op_ext_code_size Access.op_ext_code_hash Access.op_sload Access.op_sstore Access.op_tload
    Access.op_tstore Control.op_jump Control.op_jumpi Control.op_jumpdest Control.op_gas
    Control.op_push1 Control.op_return Control.op_revert Control.op_undefined Control.op_stop
    Control.op_selfdestruct Control.op_selfdestruct6780 Control.make_push Control.make_dup
    Control.make_swap Access.make_log Stack.dup Stack.swap
execute_simple-GoesOn h gas op_mstore s = grind (arith, set32-IsKept)
execute_simple-GoesOn h gas op_mstore8 s = grind (arith, length-set)
execute_simple-GoesOn h gas op_mcopy s = grind (arith, copy-IsKept)
execute_simple-GoesOn h gas op_call_data_copy s = grind (arith, set-IsKept)
execute_simple-GoesOn h gas op_code_copy s = grind (arith, set-IsKept)
execute_simple-GoesOn h gas op_ext_code_copy s = grind (arith, set-IsKept)
execute_simple-GoesOn h gas op_return_data_copy s = grind (arith, set-IsKept)
execute_simple-GoesOn h gas (make_push n) s = ground arith
execute_simple-GoesOn h gas (make_dup n) s = ground arith
execute_simple-GoesOn h gas (make_swap n) s = ground arith
execute_simple-GoesOn h gas (make_log n) s = grind (arith, drop_topics-keeps)
execute_simple-GoesOn h gas x s = ground arith

-- What the interpreter relies on: a call or a creation leaves over no more gas than it was given.
pub record IsFrugal (e : Evm) : Type 0 where
  pub call :
      (s : Scope) (input : Bytes) (a : Address) (gas value : ℕ) (r : Answer)
      → IsU64 gas
      → e.call s input a gas value ≡ some r
      → r.left ≤ gas
  pub call_code :
      (s : Scope) (input : Bytes) (a : Address) (gas value : ℕ) (r : Answer)
      → IsU64 gas
      → e.call_code s input a gas value ≡ some r
      → r.left ≤ gas
  pub delegate_call :
      (s : Scope) (input : Bytes) (a : Address) (gas : ℕ) (r : Answer)
      → IsU64 gas
      → e.delegate_call s input a gas ≡ some r
      → r.left ≤ gas
  pub static_call :
      (s : Scope) (input : Bytes) (a : Address) (gas : ℕ) (r : Answer)
      → IsU64 gas
      → e.static_call s input a gas ≡ some r
      → r.left ≤ gas
  pub create :
      (s : Scope) (input : Bytes) (gas value : ℕ) (r : Answer)
      → IsU64 gas
      → e.create s input gas value ≡ some r
      → r.left ≤ gas
  pub create2 :
      (s : Scope) (input : Bytes) (gas value salt : ℕ) (r : Answer)
      → IsU64 gas
      → e.create2 s input gas value salt ≡ some r
      → r.left ≤ gas

abbrev stipend_of : Uint256 → Option ℕ → ℕ
stipend_of u none = 0
stipend_of u (some value) = if u.is_zero value then 0 else Gas.call_stipend

-- The most that an instruction brings back to the contract's gas.
abbrev pub returned : Uint256 → Calling → ℕ → Stack → ℕ
returned u op_create temp st = 0
returned u op_create2 temp st = 0
returned u op_call temp st = temp + stipend_of u (Stack.back st 2)
returned u op_call_code temp st = temp + stipend_of u (Stack.back st 2)
returned u op_delegate_call temp st = temp
returned u op_static_call temp st = temp

-- The two ends of a run after which its caller keeps the gas that is left.
abbrev pub keeps_gas : Exit → Bool
keeps_gas stop_token = true
keeps_gas execution_reverted = true
keeps_gas x = false

abbrev pub Returns : ℕ → ℕ → Scope → Step ℕ → Type 0
Returns gas most s (ok left s') = (left ≤ gas + most) × IsAs s.mem s'.mem
Returns gas most s (exit e ret s') = keeps_gas e ≡ false
Returns gas most s crash = Unit {0}

pub execute_calling-Returns :
    (h : Host) (e : Evm) (gas temp : ℕ) (x : Calling) (s : Scope)
    → IsFrugal e
    → IsU64 (gas + returned h.words x temp s.stack)
    → Returns gas (returned h.words x temp s.stack) s (execute_calling h e gas temp x s)
unfolding execute_calling Scope.pop Scope.push Scope.on_memory Scope.from_memory Stack.pop
    Stack.push Calls.ask_evm Calls.after_call Calls.after_create Stack.back
execute_calling-Returns h e gas temp op_create s f u = grind (arith, f.create)
execute_calling-Returns h e gas temp op_create2 s f u = grind (arith, f.create2)
execute_calling-Returns h e gas temp op_call s f u = grind (arith, f.call, set-IsKept)
execute_calling-Returns h e gas temp op_call_code s f u = grind (arith, f.call_code, set-IsKept)
execute_calling-Returns h e gas temp op_delegate_call s f u =
    grind (arith, f.delegate_call, set-IsKept)
execute_calling-Returns h e gas temp op_static_call s f u = grind (arith, f.static_call, set-IsKept)
