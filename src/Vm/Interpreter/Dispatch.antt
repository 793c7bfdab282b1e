-- ===== src/Vm/Interpreter/Dispatch.antt =====
-- What the names in a jump table stand for: execution functions, gas functions, memory functions.
use cardinal_evm.Prelude.{ℕ, Bool, true, false, Option}
use cardinal_evm.State.Account.{Backend}
use cardinal_evm.Vm.Uint256.{Uint256}
use cardinal_evm.Vm.Stack.{Stack}
use cardinal_evm.Vm.Frame.{M}
use cardinal_evm.Vm.Scope.{Host, X}
use cardinal_evm.Vm.MemoryTable
use cardinal_evm.Vm.GasTable
use cardinal_evm.Vm.GasTable.Sstore
use cardinal_evm.Vm.GasTable.Calls
use cardinal_evm.Vm.GasTable.Calls.Cold
use cardinal_evm.Vm.Instructions.Words
use cardinal_evm.Vm.Instructions.Context
use cardinal_evm.Vm.Instructions.Access
use cardinal_evm.Vm.Instructions.Control
use cardinal_evm.Vm.JumpTable.Operation.{
  Simple, op_add, op_sub, op_mul, op_div, op_sdiv, op_mod, op_smod, op_exp, op_sign_extend, op_not,
  op_lt, op_gt, op_slt, op_sgt, op_eq, op_iszero, op_and, op_or, op_xor, op_byte, op_addmod,
  op_mulmod, op_shl, op_shr, op_sar, op_clz, op_origin, op_gasprice, op_coinbase, op_timestamp,
  op_number, op_difficulty, op_random, op_gas_limit, op_base_fee, op_blob_base_fee, op_chain_id,
  op_push0, op_address, op_caller, op_call_value, op_call_data_size, op_return_data_size,
  op_code_size, op_msize, op_pc, op_blockhash, op_blob_hash, op_call_data_load, op_pop,
  op_keccak256, op_mload, op_mstore, op_mstore8, op_mcopy, op_call_data_copy, op_code_copy,
  op_ext_code_copy, op_return_data_copy, op_balance, op_self_balance, op_ext_code_size,
  op_ext_code_hash, op_sload, op_sstore, op_tload, op_tstore, op_jump, op_jumpi, op_jumpdest,
  op_gas, op_push1, op_return, op_revert, op_undefined, op_stop, op_selfdestruct,
  op_selfdestruct6780, make_push, make_dup, make_swap, make_log, GasFunc, keccak256_gas,
  call_data_copy_gas, return_data_copy_gas, code_copy_gas, ext_code_copy_gas, mload_gas, mstore_gas,
  mstore8_gas, mcopy_gas, create_gas, create2_gas, return_gas, revert_gas, create_eip3860_gas,
  create2_eip3860_gas, exp_frontier_gas, exp_eip158_gas, sstore_gas, sstore_eip2200_gas,
  sstore_eip2929_gas, sstore_eip3529_gas, sload_eip2929_gas, ext_code_copy_eip2929_gas,
  account_check_eip2929_gas, call_gas, call_code_gas, delegate_call_gas, static_call_gas,
  call_eip2929_gas, call_code_eip2929_gas, delegate_call_eip2929_gas, static_call_eip2929_gas,
  call_eip7702_gas, call_code_eip7702_gas, delegate_call_eip7702_gas, static_call_eip7702_gas,
  selfdestruct_gas, selfdestruct_eip2929_gas, selfdestruct_eip3529_gas, log_gas, MemoryFunc,
  keccak256_memory, call_data_copy_memory, return_data_copy_memory, code_copy_memory,
  ext_code_copy_memory, mload_memory, mstore_memory, mstore8_memory, mcopy_memory, create_memory,
  create2_memory, call_memory, delegate_call_memory, static_call_memory, return_memory,
  revert_memory, log_memory,
}

-- `gas` is the gas that the contract has left.
unfoldable pub execute_simple : Host → ℕ → Simple → X (Unit {0})
execute_simple h gas op_add = Words.op_add h
execute_simple h gas op_sub = Words.op_sub h
execute_simple h gas op_mul = Words.op_mul h
execute_simple h gas op_div = Words.op_div h
execute_simple h gas op_sdiv = Words.op_sdiv h
execute_simple h gas op_mod = Words.op_mod h
execute_simple h gas op_smod = Words.op_smod h
execute_simple h gas op_exp = Words.op_exp h
execute_simple h gas op_sign_extend = Words.op_sign_extend h
execute_simple h gas op_not = Words.op_not h
execute_simple h gas op_lt = Words.op_lt h
execute_simple h gas op_gt = Words.op_gt h
execute_simple h gas op_slt = Words.op_slt h
execute_simple h gas op_sgt = Words.op_sgt h
execute_simple h gas op_eq = Words.op_eq h
execute_simple h gas op_iszero = Words.op_iszero h
execute_simple h gas op_and = Words.op_and h
execute_simple h gas op_or = Words.op_or h
execute_simple h gas op_xor = Words.op_xor h
execute_simple h gas op_byte = Words.op_byte h
execute_simple h gas op_addmod = Words.op_addmod h
execute_simple h gas op_mulmod = Words.op_mulmod h
execute_simple h gas op_shl = Words.op_shl h
execute_simple h gas op_shr = Words.op_shr h
execute_simple h gas op_sar = Words.op_sar h
execute_simple h gas op_clz = Words.op_clz h
execute_simple h gas op_origin = Context.op_origin h
execute_simple h gas op_gasprice = Context.op_gasprice h
execute_simple h gas op_coinbase = Context.op_coinbase h
execute_simple h gas op_timestamp = Context.op_timestamp h
execute_simple h gas op_number = Context.op_number h
execute_simple h gas op_difficulty = Context.op_difficulty h
execute_simple h gas op_random = Context.op_random h
execute_simple h gas op_gas_limit = Context.op_gas_limit h
execute_simple h gas op_base_fee = Context.op_base_fee h
execute_simple h gas op_blob_base_fee = Context.op_blob_base_fee h
execute_simple h gas op_chain_id = Context.op_chain_id h
execute_simple h gas op_push0 = Context.op_push0 h
execute_simple h gas op_address = Context.op_address h
execute_simple h gas op_caller = Context.op_caller h
execute_simple h gas op_call_value = Context.op_call_value h
execute_simple h gas op_call_data_size = Context.op_call_data_size h
execute_simple h gas op_return_data_size = Context.op_return_data_size h
execute_simple h gas op_code_size = Context.op_code_size h
execute_simple h gas op_msize = Context.op_msize h
execute_simple h gas op_pc = Context.op_pc h
execute_simple h gas op_blockhash = Context.op_blockhash h
execute_simple h gas op_blob_hash = Context.op_blob_hash h
execute_simple h gas op_call_data_load = Context.op_call_data_load h
execute_simple h gas op_pop = Access.op_pop h
execute_simple h gas op_keccak256 = Access.op_keccak256 h
execute_simple h gas op_mload = Access.op_mload h
execute_simple h gas op_mstore = Access.op_mstore h
execute_simple h gas op_mstore8 = Access.op_mstore8 h
execute_simple h gas op_mcopy = Access.op_mcopy h
execute_simple h gas op_call_data_copy = Access.op_call_data_copy h
execute_simple h gas op_code_copy = Access.op_code_copy h
execute_simple h gas op_ext_code_copy = Access.op_ext_code_copy h
execute_simple h gas op_return_data_copy = Access.op_return_data_copy h
execute_simple h gas op_balance = Access.op_balance h
execute_simple h gas op_self_balance = Access.op_self_balance h
execute_simple h gas op_ext_code_size = Access.op_ext_code_size h
execute_simple h gas op_ext_code_hash = Access.op_ext_code_hash h
execute_simple h gas op_sload = Access.op_sload h
execute_simple h gas op_sstore = Access.op_sstore h
execute_simple h gas op_tload = Access.op_tload h
execute_simple h gas op_tstore = Access.op_tstore h
execute_simple h gas op_jump = Control.op_jump h gas
execute_simple h gas op_jumpi = Control.op_jumpi h gas
execute_simple h gas op_jumpdest = Control.op_jumpdest h
execute_simple h gas op_gas = Control.op_gas h gas
execute_simple h gas op_push1 = Control.op_push1 h
execute_simple h gas op_return = Control.op_return h
execute_simple h gas op_revert = Control.op_revert h
execute_simple h gas op_undefined = Control.op_undefined h
execute_simple h gas op_stop = Control.op_stop h
execute_simple h gas op_selfdestruct = Control.op_selfdestruct h
execute_simple h gas op_selfdestruct6780 = Control.op_selfdestruct6780 h
execute_simple h gas (make_push n) = Control.make_push h n
execute_simple h gas (make_dup n) = Control.make_dup h n
execute_simple h gas (make_swap n) = Control.make_swap h n
execute_simple h gas (make_log n) = Access.make_log h n

unfoldable pub memory_of : Uint256 → MemoryFunc → Stack → Option (ℕ × Bool)
memory_of u keccak256_memory = MemoryTable.memory_keccak256 u
memory_of u call_data_copy_memory = MemoryTable.memory_call_data_copy u
memory_of u return_data_copy_memory = MemoryTable.memory_return_data_copy u
memory_of u code_copy_memory = MemoryTable.memory_code_copy u
memory_of u ext_code_copy_memory = MemoryTable.memory_ext_code_copy u
memory_of u mload_memory = MemoryTable.memory_mload u
memory_of u mstore_memory = MemoryTable.memory_mstore u
memory_of u mstore8_memory = MemoryTable.memory_mstore8 u
memory_of u mcopy_memory = MemoryTable.memory_mcopy u
memory_of u create_memory = MemoryTable.memory_create u
memory_of u create2_memory = MemoryTable.memory_create2 u
memory_of u call_memory = MemoryTable.memory_call u
memory_of u delegate_call_memory = MemoryTable.memory_delegate_call u
memory_of u static_call_memory = MemoryTable.memory_static_call u
memory_of u return_memory = MemoryTable.memory_return u
memory_of u revert_memory = MemoryTable.memory_revert u
memory_of u log_memory = MemoryTable.memory_log u

unfoldable pub gas_of : Uint256 → Backend → GasFunc → ℕ → M ℕ
gas_of u b keccak256_gas = GasTable.gas_keccak256 u
gas_of u b call_data_copy_gas = GasTable.memory_copier_gas u 2
gas_of u b return_data_copy_gas = GasTable.memory_copier_gas u 2
gas_of u b code_copy_gas = GasTable.memory_copier_gas u 2
gas_of u b ext_code_copy_gas = GasTable.memory_copier_gas u 3
gas_of u b mcopy_gas = GasTable.memory_copier_gas u 2
gas_of u b mload_gas = GasTable.pure_memory_gascost u
gas_of u b mstore_gas = GasTable.pure_memory_gascost u
gas_of u b mstore8_gas = GasTable.pure_memory_gascost u
gas_of u b create_gas = GasTable.pure_memory_gascost u
gas_of u b return_gas = GasTable.pure_memory_gascost u
gas_of u b revert_gas = GasTable.pure_memory_gascost u
gas_of u b create2_gas = GasTable.gas_create2 u
gas_of u b create_eip3860_gas = GasTable.gas_create_eip3860 u
gas_of u b create2_eip3860_gas = GasTable.gas_create2_eip3860 u
gas_of u b exp_frontier_gas = GasTable.gas_exp_frontier u
gas_of u b exp_eip158_gas = GasTable.gas_exp_eip158 u
gas_of u b sstore_gas = Sstore.gas_sstore u b
gas_of u b sstore_eip2200_gas = Sstore.gas_sstore_eip2200 u b
gas_of u b sstore_eip2929_gas = Sstore.gas_sstore_eip2929 u b
gas_of u b sstore_eip3529_gas = Sstore.gas_sstore_eip3529 u b
gas_of u b sload_eip2929_gas = Cold.gas_sload_eip2929 u b
gas_of u b ext_code_copy_eip2929_gas = Cold.gas_ext_code_copy_eip2929 u b
gas_of u b account_check_eip2929_gas = Cold.gas_eip2929_account_check u b
gas_of u b call_gas = Calls.gas_call u b
gas_of u b call_code_gas = Calls.gas_call_code u
gas_of u b delegate_call_gas = Calls.gas_delegate_call u
gas_of u b static_call_gas = Calls.gas_static_call u
gas_of u b call_eip2929_gas = Cold.make_call_variant_gas_call_eip2929 u b (Calls.gas_call u b)
gas_of u b call_code_eip2929_gas =
    Cold.make_call_variant_gas_call_eip2929 u b (Calls.gas_call_code u)
gas_of u b delegate_call_eip2929_gas =
    Cold.make_call_variant_gas_call_eip2929 u b (Calls.gas_delegate_call u)
gas_of u b static_call_eip2929_gas =
    Cold.make_call_variant_gas_call_eip2929 u b (Calls.gas_static_call u)
gas_of u b call_eip7702_gas = Cold.make_call_variant_gas_call_eip7702 u b (Calls.gas_call u b)
gas_of u b call_code_eip7702_gas =
    Cold.make_call_variant_gas_call_eip7702 u b (Calls.gas_call_code u)
gas_of u b delegate_call_eip7702_gas =
    Cold.make_call_variant_gas_call_eip7702 u b (Calls.gas_delegate_call u)
gas_of u b static_call_eip7702_gas =
    Cold.make_call_variant_gas_call_eip7702 u b (Calls.gas_static_call u)
gas_of u b selfdestruct_gas = Calls.gas_selfdestruct u b
gas_of u b selfdestruct_eip2929_gas = Cold.make_selfdestruct_gas_fn u b true
gas_of u b selfdestruct_eip3529_gas = Cold.make_selfdestruct_gas_fn u b false
gas_of u b (log_gas n) = GasTable.make_gas_log u n
