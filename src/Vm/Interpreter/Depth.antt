-- ===== src/Vm/Interpreter/Depth.antt =====
-- The depth of the stack across the instructions.
use cardinal_evm.Prelude.{ℕ, zero, suc, ◌+◌, ◌≡◌, arith, length, length-set, Option, none, some}
use cardinal_evm.Vm.Stack
use cardinal_evm.Vm.Stack.{Stack}
use cardinal_evm.Vm.Scope
use cardinal_evm.Vm.Scope.{Scope, Host, Step, ok, exit, crash, X, ◌>>=◌, ◌>>◌}
use cardinal_evm.Vm.Instructions.Words
use cardinal_evm.Vm.Instructions.Context
use cardinal_evm.Vm.Instructions.Access
use cardinal_evm.Vm.Instructions.Control
use cardinal_evm.Vm.JumpTable.Operation.{Simple, make_push, make_dup, make_swap, make_log}
use cardinal_evm.Vm.Interpreter.Dispatch.{execute_simple}
use cardinal_evm.Vm.JumpTable.Operation.{Calling}
use cardinal_evm.Vm.Interpreter.Calls
use cardinal_evm.Vm.Interpreter.Calls.{Evm, execute_calling}
use cardinal_evm.Vm.Interpreter.Effect.{pops, pushes, calling_pops}

-- Where an instruction goes on, the sizes of the stack before and after fit what it takes and puts.
abbrev pub Shifts : ℕ → ℕ → ℕ → {A : Type 0} → Step A → Type 0
Shifts n i j (ok a s) = length s.stack + i ≡ n + j
Shifts n i j (exit e ret s) = Unit {0}
Shifts n i j crash = Unit {0}

abbrev IsLong : ℕ → Option Stack → Type 0
IsLong n none = Unit {0}
IsLong n (some st) = length st ≡ n

swap-IsLong : (st : Stack) (n : ℕ) → IsLong (length st) (Stack.swap st n)
unfolding Stack.swap
swap-IsLong st n = grind (arith, length-set)

restacked-Shifts :
    (n : ℕ) (s : Scope)
    → IsLong (length s.stack) (Stack.swap s.stack n)
    → Shifts (length s.stack) n n (Scope.on_stack (λ st. Stack.swap st n) s)
unfolding Scope.on_stack
restacked-Shifts n s h = ground arith

drop_topics-Shifts : (n : ℕ) (s : Scope) → Shifts (length s.stack) n 0 (Access.drop_topics n s)
unfolding Access.drop_topics Scope.pop Stack.pop
drop_topics-Shifts zero s = omega arith
drop_topics-Shifts (suc n) s = grind (arith, drop_topics-Shifts n)

pub execute_simple-Shifts :
    (h : Host) (gas : ℕ) (x : Simple) (s : Scope)
    → Shifts (length s.stack) (pops x) (pushes x) (execute_simple h gas x s)
unfolding execute_simple pops pushes Words.binary Words.unary Words.ternary Scope.pop Scope.push
    Scope.peek Scope.put_top Scope.on_stack Scope.on_memory Scope.from_memory Stack.pop Stack.push
    Stack.peek Access.copy_data Access.unless_read_only Control.jump_to Control.valid_jumpdest
    Control.output Words.op_add Words.op_sub Words.op_mul Words.op_div Words.op_sdiv Words.op_mod
    Words.op_smod Words.op_exp Words.op_sign_extend Words.op_not Words.op_lt Words.op_gt
    Words.op_slt Words.op_sgt Words.op_eq Words.op_iszero Words.op_and Words.op_or Words.op_xor
    Words.op_byte Words.op_addmod Words.op_mulmod Words.op_shl Words.op_shr Words.op_sar
    Words.op_clz Context.op_origin Context.op_gasprice Context.op_coinbase Context.op_timestamp
    Context.op_number Context.op_difficulty Context.op_random Context.op_gas_limit
    Context.op_base_fee Context.op_blob_base_fee Context.op_chain_id Context.op_push0
    Context.op_address Context.op_caller Context.op_call_value Context.op_call_data_size
    Context.op_return_data_size Context.op_code_size Context.op_msize Context.op_pc
    Context.op_blockhash Context.op_blob_hash Context.op_call_data_load Access.op_pop
    Access.op_keccak256 Access.op_mload Access.op_mstore Access.op_mstore8 Access.op_mcopy
    Access.op_call_data_copy Access.op_code_copy Access.op_ext_code_copy Access.op_return_data_copy
    Access.op_balance Access.op_self_balance Access.op_ext_code_size Access.op_ext_code_hash
    Access.op_sload Access.op_sstore Access.op_tload Access.op_tstore Control.op_jump
    Control.op_jumpi Control.op_jumpdest Control.op_gas Control.op_push1 Control.op_return
    Control.op_revert Control.op_undefined Control.op_stop Control.op_selfdestruct
    Control.op_selfdestruct6780 Control.make_push Control.make_dup Control.make_swap Access.make_log
    Stack.dup Stack.swap
execute_simple-Shifts h gas (make_push n) s = ground arith
execute_simple-Shifts h gas (make_dup n) s = ground arith
execute_simple-Shifts h gas (make_swap n) s =
    restacked-Shifts (n + 1) s (swap-IsLong s.stack (n + 1))
execute_simple-Shifts h gas (make_log n) s = grind (arith, drop_topics-Shifts)
execute_simple-Shifts h gas x s = ground arith

pub execute_calling-Shifts :
    (h : Host) (e : Evm) (gas call_gas_temp : ℕ) (x : Calling) (s : Scope)
    → Shifts (length s.stack) (calling_pops x) 1 (execute_calling h e gas call_gas_temp x s)
unfolding execute_calling Scope.pop Scope.push Scope.on_memory Scope.from_memory Stack.pop
    Stack.push Calls.ask_evm Calls.after_call Calls.after_create
execute_calling-Shifts h e gas call_gas_temp x s = ground arith
