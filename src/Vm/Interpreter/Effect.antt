-- ===== src/Vm/Interpreter/Effect.antt =====
-- How many items each instruction takes off the stack and puts there, as the Yellow Paper lists them.
use cardinal_evm.Prelude.{ℕ, ◌+◌}
use cardinal_evm.Vm.JumpTable.Operation.{
  Simple, op_add, op_sub, op_mul, op_div, op_sdiv, op_mod, op_smod, op_exp, op_sign_extend, op_not,
  op_lt, op_gt, op_slt, op_sgt, op_eq, op_iszero, op_and, op_or, op_xor, op_byte, op_addmod,
  op_mulmod, op_shl, op_shr, op_sar, op_clz, op_origin, op_gasprice, op_coinbase, op_timestamp,
  op_number, op_difficulty, op_random, op_gas_limit, op_base_fee, op_blob_base_fee, op_chain_id,
  op_push0, op_address, op_caller, op_call_value, op_call_data_size, op_return_data_size,
  op_code_size, op_msize, op_pc, op_blockhash, op_blob_hash, op_call_data_load, op_pop,
  op_keccak256, op_mload, op_mstore, op_mstore8, op_mcopy, op_call_data_copy, op_code_copy,
  op_ext_code_copy, op_return_data_copy, op_balance, op_self_balance, op_ext_code_size,
  op_ext_code_hash, op_sload, op_sstore, op_tload, op_tstore, op_jump, op_jumpi, op_jumpdest,
  op_gas, op_push1, op_return, op_revert, op_undefined, op_stop, op_selfdestruct,
  op_selfdestruct6780, make_push, make_dup, make_swap, make_log, Calling, op_create, op_create2,
  op_call, op_call_code, op_delegate_call, op_static_call, Execute, simple, calling,
}

unfoldable pub pops : Simple → ℕ
pops op_add = 2
pops op_sub = 2
pops op_mul = 2
pops op_div = 2
pops op_sdiv = 2
pops op_mod = 2
pops op_smod = 2
pops op_exp = 2
pops op_sign_extend = 2
pops op_not = 1
pops op_lt = 2
pops op_gt = 2
pops op_slt = 2
pops op_sgt = 2
pops op_eq = 2
pops op_iszero = 1
pops op_and = 2
pops op_or = 2
pops op_xor = 2
pops op_byte = 2
pops op_addmod = 3
pops op_mulmod = 3
pops op_shl = 2
pops op_shr = 2
pops op_sar = 2
pops op_clz = 1
pops op_origin = 0
pops op_gasprice = 0
pops op_coinbase = 0
pops op_timestamp = 0
pops op_number = 0
pops op_difficulty = 0
pops op_random = 0
pops op_gas_limit = 0
pops op_base_fee = 0
pops op_blob_base_fee = 0
pops op_chain_id = 0
pops op_push0 = 0
pops op_address = 0
pops op_caller = 0
pops op_call_value = 0
pops op_call_data_size = 0
pops op_return_data_size = 0
pops op_code_size = 0
pops op_msize = 0
pops op_pc = 0
pops op_blockhash = 1
pops op_blob_hash = 1
pops op_call_data_load = 1
pops op_pop = 1
pops op_keccak256 = 2
pops op_mload = 1
pops op_mstore = 2
pops op_mstore8 = 2
pops op_mcopy = 3
pops op_call_data_copy = 3
pops op_code_copy = 3
pops op_ext_code_copy = 4
pops op_return_data_copy = 3
pops op_balance = 1
pops op_self_balance = 0
pops op_ext_code_size = 1
pops op_ext_code_hash = 1
pops op_sload = 1
pops op_sstore = 2
pops op_tload = 1
pops op_tstore = 2
pops op_jump = 1
pops op_jumpi = 2
pops op_jumpdest = 0
pops op_gas = 0
pops op_push1 = 0
pops op_return = 2
pops op_revert = 2
pops op_undefined = 0
pops op_stop = 0
pops op_selfdestruct = 1
pops op_selfdestruct6780 = 1
pops (make_push n) = 0
pops (make_dup n) = n
pops (make_swap n) = n + 1
pops (make_log n) = n + 2

unfoldable pub pushes : Simple → ℕ
pushes op_add = 1
pushes op_sub = 1
pushes op_mul = 1
pushes op_div = 1
pushes op_sdiv = 1
pushes op_mod = 1
pushes op_smod = 1
pushes op_exp = 1
pushes op_sign_extend = 1
pushes op_not = 1
pushes op_lt = 1
pushes op_gt = 1
pushes op_slt = 1
pushes op_sgt = 1
pushes op_eq = 1
pushes op_iszero = 1
pushes op_and = 1
pushes op_or = 1
pushes op_xor = 1
pushes op_byte = 1
pushes op_addmod = 1
pushes op_mulmod = 1
pushes op_shl = 1
pushes op_shr = 1
pushes op_sar = 1
pushes op_clz = 1
pushes op_origin = 1
pushes op_gasprice = 1
pushes op_coinbase = 1
pushes op_timestamp = 1
pushes op_number = 1
pushes op_difficulty = 1
pushes op_random = 1
pushes op_gas_limit = 1
pushes op_base_fee = 1
pushes op_blob_base_fee = 1
pushes op_chain_id = 1
pushes op_push0 = 1
pushes op_address = 1
pushes op_caller = 1
pushes op_call_value = 1
pushes op_call_data_size = 1
pushes op_return_data_size = 1
pushes op_code_size = 1
pushes op_msize = 1
pushes op_pc = 1
pushes op_blockhash = 1
pushes op_blob_hash = 1
pushes op_call_data_load = 1
pushes op_pop = 0
pushes op_keccak256 = 1
pushes op_mload = 1
pushes op_mstore = 0
pushes op_mstore8 = 0
pushes op_mcopy = 0
pushes op_call_data_copy = 0
pushes op_code_copy = 0
pushes op_ext_code_copy = 0
pushes op_return_data_copy = 0
pushes op_balance = 1
pushes op_self_balance = 1
pushes op_ext_code_size = 1
pushes op_ext_code_hash = 1
pushes op_sload = 1
pushes op_sstore = 0
pushes op_tload = 1
pushes op_tstore = 0
pushes op_jump = 0
pushes op_jumpi = 0
pushes op_jumpdest = 0
pushes op_gas = 1
pushes op_push1 = 1
pushes op_return = 0
pushes op_revert = 0
pushes op_undefined = 0
pushes op_stop = 0
pushes op_selfdestruct = 0
pushes op_selfdestruct6780 = 0
pushes (make_push n) = 1
pushes (make_dup n) = n + 1
pushes (make_swap n) = n + 1
pushes (make_log n) = 0

abbrev pub calling_pops : Calling → ℕ
calling_pops op_create = 3
calling_pops op_create2 = 4
calling_pops op_call = 7
calling_pops op_call_code = 7
calling_pops op_delegate_call = 6
calling_pops op_static_call = 6

unfoldable pub removed : Execute → ℕ
unfolding pops
removed (simple x) = pops x
removed (calling x) = calling_pops x

unfoldable pub added : Execute → ℕ
unfolding pushes
added (simple x) = pushes x
added (calling x) = 1
