-- ===== src/Vm/JumpTable/Frontier.antt =====
-- newFrontierInstructionSet of vm/jump_table.go, by groups of its entries.
use cardinal_evm.Prelude.{[], ◌∷◌, ◌++◌}
use cardinal_evm.Vm.Opcodes
use cardinal_evm.Vm.JumpTable.Gas
use cardinal_evm.Vm.JumpTable.Operation.{
  op_add, op_sub, op_mul, op_div, op_sdiv, op_mod, op_smod, op_exp, op_sign_extend, op_not, op_lt,
  op_gt, op_slt, op_sgt, op_eq, op_iszero, op_and, op_or, op_xor, op_byte, op_addmod, op_mulmod,
  op_origin, op_gasprice, op_coinbase, op_timestamp, op_number, op_difficulty, op_gas_limit,
  op_address, op_caller, op_call_value, op_call_data_size, op_code_size, op_msize, op_pc,
  op_blockhash, op_call_data_load, op_pop, op_keccak256, op_mload, op_mstore, op_mstore8,
  op_call_data_copy, op_code_copy, op_ext_code_copy, op_balance, op_ext_code_size, op_sload,
  op_sstore, op_jump, op_jumpi, op_jumpdest, op_gas, op_push1, op_return, op_stop, op_selfdestruct,
  make_push, make_dup, make_swap, make_log, op_create, op_call, op_call_code, simple, calling,
  keccak256_gas, call_data_copy_gas, code_copy_gas, ext_code_copy_gas, mload_gas, mstore_gas,
  mstore8_gas, create_gas, return_gas, exp_frontier_gas, sstore_gas, call_gas, call_code_gas,
  selfdestruct_gas, log_gas, keccak256_memory, call_data_copy_memory, code_copy_memory,
  ext_code_copy_memory, mload_memory, mstore_memory, mstore8_memory, create_memory, call_memory,
  return_memory, log_memory, constant, dynamic, sized, Entries, JumpTable, table_of,
}

abbrev pub arithmetic_ops : Entries
arithmetic_ops =
    (Opcodes.stop_op, constant (simple op_stop) 0 0 0)
    ∷ (Opcodes.add, constant (simple op_add) Gas.fastest_step 2 1)
    ∷ (Opcodes.mul, constant (simple op_mul) Gas.fast_step 2 1)
    ∷ (Opcodes.sub, constant (simple op_sub) Gas.fastest_step 2 1)
    ∷ (Opcodes.div, constant (simple op_div) Gas.fast_step 2 1)
    ∷ (Opcodes.sdiv, constant (simple op_sdiv) Gas.fast_step 2 1)
    ∷ (Opcodes.mod_op, constant (simple op_mod) Gas.fast_step 2 1)
    ∷ (Opcodes.smod, constant (simple op_smod) Gas.fast_step 2 1)
    ∷ (Opcodes.addmod, constant (simple op_addmod) Gas.mid_step 3 1)
    ∷ (Opcodes.mulmod, constant (simple op_mulmod) Gas.mid_step 3 1)
    ∷ (Opcodes.exp, dynamic (simple op_exp) 0 exp_frontier_gas 2 1)
    ∷ (Opcodes.signextend, constant (simple op_sign_extend) Gas.fast_step 2 1)
    ∷ []

abbrev pub word_ops : Entries
word_ops =
    (Opcodes.lt, constant (simple op_lt) Gas.fastest_step 2 1)
    ∷ (Opcodes.gt, constant (simple op_gt) Gas.fastest_step 2 1)
    ∷ (Opcodes.slt, constant (simple op_slt) Gas.fastest_step 2 1)
    ∷ (Opcodes.sgt, constant (simple op_sgt) Gas.fastest_step 2 1)
    ∷ (Opcodes.eq, constant (simple op_eq) Gas.fastest_step 2 1)
    ∷ (Opcodes.iszero, constant (simple op_iszero) Gas.fastest_step 1 1)
    ∷ (Opcodes.and_op, constant (simple op_and) Gas.fastest_step 2 1)
    ∷ (Opcodes.xor, constant (simple op_xor) Gas.fastest_step 2 1)
    ∷ (Opcodes.or_op, constant (simple op_or) Gas.fastest_step 2 1)
    ∷ (Opcodes.not_op, constant (simple op_not) Gas.fastest_step 1 1)
    ∷ (Opcodes.byte_op, constant (simple op_byte) Gas.fastest_step 2 1)
    ∷ (
      Opcodes.keccak256,
      sized (simple op_keccak256) Gas.keccak256_gas keccak256_gas keccak256_memory 2 1,
    )
    ∷ []

abbrev pub environment_ops : Entries
environment_ops =
    (Opcodes.address, constant (simple op_address) Gas.quick_step 0 1)
    ∷ (Opcodes.balance, constant (simple op_balance) Gas.balance_gas_frontier 1 1)
    ∷ (Opcodes.origin, constant (simple op_origin) Gas.quick_step 0 1)
    ∷ (Opcodes.caller, constant (simple op_caller) Gas.quick_step 0 1)
    ∷ (Opcodes.callvalue, constant (simple op_call_value) Gas.quick_step 0 1)
    ∷ (Opcodes.calldataload, constant (simple op_call_data_load) Gas.fastest_step 1 1)
    ∷ (Opcodes.calldatasize, constant (simple op_call_data_size) Gas.quick_step 0 1)
    ∷ (
      Opcodes.calldatacopy,
      sized (simple op_call_data_copy) Gas.fastest_step call_data_copy_gas call_data_copy_memory 3
          0,
    )
    ∷ (Opcodes.codesize, constant (simple op_code_size) Gas.quick_step 0 1)
    ∷ (
      Opcodes.codecopy,
      sized (simple op_code_copy) Gas.fastest_step code_copy_gas code_copy_memory 3 0,
    )
    ∷ (Opcodes.gasprice, constant (simple op_gasprice) Gas.quick_step 0 1)
    ∷ (Opcodes.extcodesize, constant (simple op_ext_code_size) Gas.extcode_size_gas_frontier 1 1)
    ∷ (
      Opcodes.extcodecopy,
      sized (simple op_ext_code_copy) Gas.extcode_copy_base_frontier ext_code_copy_gas
          ext_code_copy_memory 4 0,
    )
    ∷ []

abbrev pub block_ops : Entries
block_ops =
    (Opcodes.blockhash, constant (simple op_blockhash) Gas.ext_step 1 1)
    ∷ (Opcodes.coinbase, constant (simple op_coinbase) Gas.quick_step 0 1)
    ∷ (Opcodes.timestamp, constant (simple op_timestamp) Gas.quick_step 0 1)
    ∷ (Opcodes.number, constant (simple op_number) Gas.quick_step 0 1)
    ∷ (Opcodes.difficulty, constant (simple op_difficulty) Gas.quick_step 0 1)
    ∷ (Opcodes.gaslimit, constant (simple op_gas_limit) Gas.quick_step 0 1)
    ∷ []

abbrev pub memory_ops : Entries
memory_ops =
    (Opcodes.pop, constant (simple op_pop) Gas.quick_step 1 0)
    ∷ (Opcodes.mload, sized (simple op_mload) Gas.fastest_step mload_gas mload_memory 1 1)
    ∷ (Opcodes.mstore, sized (simple op_mstore) Gas.fastest_step mstore_gas mstore_memory 2 0)
    ∷ (Opcodes.mstore8, sized (simple op_mstore8) Gas.fastest_step mstore8_gas mstore8_memory 2 0)
    ∷ (Opcodes.sload, constant (simple op_sload) Gas.sload_gas_frontier 1 1)
    ∷ (Opcodes.sstore, dynamic (simple op_sstore) 0 sstore_gas 2 0)
    ∷ (Opcodes.jump, constant (simple op_jump) Gas.mid_step 1 0)
    ∷ (Opcodes.jumpi, constant (simple op_jumpi) Gas.slow_step 2 0)
    ∷ (Opcodes.pc, constant (simple op_pc) Gas.quick_step 0 1)
    ∷ (Opcodes.msize, constant (simple op_msize) Gas.quick_step 0 1)
    ∷ (Opcodes.gas, constant (simple op_gas) Gas.quick_step 0 1)
    ∷ (Opcodes.jumpdest, constant (simple op_jumpdest) Gas.jumpdest_gas 0 0)
    ∷ []

abbrev pub push_ops : Entries
push_ops =
    (Opcodes.push1, constant (simple op_push1) Gas.fastest_step 0 1)
    ∷ (Opcodes.push2, constant (simple (make_push 2)) Gas.fastest_step 0 1)
    ∷ (Opcodes.push3, constant (simple (make_push 3)) Gas.fastest_step 0 1)
    ∷ (Opcodes.push4, constant (simple (make_push 4)) Gas.fastest_step 0 1)
    ∷ (Opcodes.push5, constant (simple (make_push 5)) Gas.fastest_step 0 1)
    ∷ (Opcodes.push6, constant (simple (make_push 6)) Gas.fastest_step 0 1)
    ∷ (Opcodes.push7, constant (simple (make_push 7)) Gas.fastest_step 0 1)
    ∷ (Opcodes.push8, constant (simple (make_push 8)) Gas.fastest_step 0 1)
    ∷ (Opcodes.push9, constant (simple (make_push 9)) Gas.fastest_step 0 1)
    ∷ (Opcodes.push10, constant (simple (make_push 10)) Gas.fastest_step 0 1)
    ∷ (Opcodes.push11, constant (simple (make_push 11)) Gas.fastest_step 0 1)
    ∷ (Opcodes.push12, constant (simple (make_push 12)) Gas.fastest_step 0 1)
    ∷ (Opcodes.push13, constant (simple (make_push 13)) Gas.fastest_step 0 1)
    ∷ (Opcodes.push14, constant (simple (make_push 14)) Gas.fastest_step 0 1)
    ∷ (Opcodes.push15, constant (simple (make_push 15)) Gas.fastest_step 0 1)
    ∷ (Opcodes.push16, constant (simple (make_push 16)) Gas.fastest_step 0 1)
    ∷ []

abbrev pub long_push_ops : Entries
long_push_ops =
    (Opcodes.push17, constant (simple (make_push 17)) Gas.fastest_step 0 1)
    ∷ (Opcodes.push18, constant (simple (make_push 18)) Gas.fastest_step 0 1)
    ∷ (Opcodes.push19, constant (simple (make_push 19)) Gas.fastest_step 0 1)
    ∷ (Opcodes.push20, constant (simple (make_push 20)) Gas.fastest_step 0 1)
    ∷ (Opcodes.push21, constant (simple (make_push 21)) Gas.fastest_step 0 1)
    ∷ (Opcodes.push22, constant (simple (make_push 22)) Gas.fastest_step 0 1)
    ∷ (Opcodes.push23, constant (simple (make_push 23)) Gas.fastest_step 0 1)
    ∷ (Opcodes.push24, constant (simple (make_push 24)) Gas.fastest_step 0 1)
    ∷ (Opcodes.push25, constant (simple (make_push 25)) Gas.fastest_step 0 1)
    ∷ (Opcodes.push26, constant (simple (make_push 26)) Gas.fastest_step 0 1)
    ∷ (Opcodes.push27, constant (simple (make_push 27)) Gas.fastest_step 0 1)
    ∷ (Opcodes.push28, constant (simple (make_push 28)) Gas.fastest_step 0 1)
    ∷ (Opcodes.push29, constant (simple (make_push 29)) Gas.fastest_step 0 1)
    ∷ (Opcodes.push30, constant (simple (make_push 30)) Gas.fastest_step 0 1)
    ∷ (Opcodes.push31, constant (simple (make_push 31)) Gas.fastest_step 0 1)
    ∷ (Opcodes.push32, constant (simple (make_push 32)) Gas.fastest_step 0 1)
    ∷ []

abbrev pub dup_ops : Entries
dup_ops =
    (Opcodes.dup1, constant (simple (make_dup 1)) Gas.fastest_step 1 2)
    ∷ (Opcodes.dup2, constant (simple (make_dup 2)) Gas.fastest_step 2 3)
    ∷ (Opcodes.dup3, constant (simple (make_dup 3)) Gas.fastest_step 3 4)
    ∷ (Opcodes.dup4, constant (simple (make_dup 4)) Gas.fastest_step 4 5)
    ∷ (Opcodes.dup5, constant (simple (make_dup 5)) Gas.fastest_step 5 6)
    ∷ (Opcodes.dup6, constant (simple (make_dup 6)) Gas.fastest_step 6 7)
    ∷ (Opcodes.dup7, constant (simple (make_dup 7)) Gas.fastest_step 7 8)
    ∷ (Opcodes.dup8, constant (simple (make_dup 8)) Gas.fastest_step 8 9)
    ∷ (Opcodes.dup9, constant (simple (make_dup 9)) Gas.fastest_step 9 10)
    ∷ (Opcodes.dup10, constant (simple (make_dup 10)) Gas.fastest_step 10 11)
    ∷ (Opcodes.dup11, constant (simple (make_dup 11)) Gas.fastest_step 11 12)
    ∷ (Opcodes.dup12, constant (simple (make_dup 12)) Gas.fastest_step 12 13)
    ∷ (Opcodes.dup13, constant (simple (make_dup 13)) Gas.fastest_step 13 14)
    ∷ (Opcodes.dup14, constant (simple (make_dup 14)) Gas.fastest_step 14 15)
    ∷ (Opcodes.dup15, constant (simple (make_dup 15)) Gas.fastest_step 15 16)
    ∷ (Opcodes.dup16, constant (simple (make_dup 16)) Gas.fastest_step 16 17)
    ∷ []

abbrev pub swap_ops : Entries
swap_ops =
    (Opcodes.swap1, constant (simple (make_swap 1)) Gas.fastest_step 2 2)
    ∷ (Opcodes.swap2, constant (simple (make_swap 2)) Gas.fastest_step 3 3)
    ∷ (Opcodes.swap3, constant (simple (make_swap 3)) Gas.fastest_step 4 4)
    ∷ (Opcodes.swap4, constant (simple (make_swap 4)) Gas.fastest_step 5 5)
    ∷ (Opcodes.swap5, constant (simple (make_swap 5)) Gas.fastest_step 6 6)
    ∷ (Opcodes.swap6, constant (simple (make_swap 6)) Gas.fastest_step 7 7)
    ∷ (Opcodes.swap7, constant (simple (make_swap 7)) Gas.fastest_step 8 8)
    ∷ (Opcodes.swap8, constant (simple (make_swap 8)) Gas.fastest_step 9 9)
    ∷ (Opcodes.swap9, constant (simple (make_swap 9)) Gas.fastest_step 10 10)
    ∷ (Opcodes.swap10, constant (simple (make_swap 10)) Gas.fastest_step 11 11)
    ∷ (Opcodes.swap11, constant (simple (make_swap 11)) Gas.fastest_step 12 12)
    ∷ (Opcodes.swap12, constant (simple (make_swap 12)) Gas.fastest_step 13 13)
    ∷ (Opcodes.swap13, constant (simple (make_swap 13)) Gas.fastest_step 14 14)
    ∷ (Opcodes.swap14, constant (simple (make_swap 14)) Gas.fastest_step 15 15)
    ∷ (Opcodes.swap15, constant (simple (make_swap 15)) Gas.fastest_step 16 16)
    ∷ (Opcodes.swap16, constant (simple (make_swap 16)) Gas.fastest_step 17 17)
    ∷ []

abbrev pub log_ops : Entries
log_ops =
    (Opcodes.log0, sized (simple (make_log 0)) 0 (log_gas 0) log_memory 2 0)
    ∷ (Opcodes.log1, sized (simple (make_log 1)) 0 (log_gas 1) log_memory 3 0)
    ∷ (Opcodes.log2, sized (simple (make_log 2)) 0 (log_gas 2) log_memory 4 0)
    ∷ (Opcodes.log3, sized (simple (make_log 3)) 0 (log_gas 3) log_memory 5 0)
    ∷ (Opcodes.log4, sized (simple (make_log 4)) 0 (log_gas 4) log_memory 6 0)
    ∷ []

abbrev pub system_ops : Entries
system_ops =
    (Opcodes.create, sized (calling op_create) Gas.create_gas create_gas create_memory 3 1)
    ∷ (Opcodes.call, sized (calling op_call) Gas.call_gas_frontier call_gas call_memory 7 1)
    ∷ (
      Opcodes.callcode,
      sized (calling op_call_code) Gas.call_gas_frontier call_code_gas call_memory 7 1,
    )
    ∷ (Opcodes.return_op, sized (simple op_return) 0 return_gas return_memory 2 0)
    ∷ (Opcodes.selfdestruct, dynamic (simple op_selfdestruct) 0 selfdestruct_gas 1 0)
    ∷ []

unfoldable pub new_frontier_instruction_set : JumpTable
new_frontier_instruction_set = table_of (
    arithmetic_ops ++ word_ops ++ environment_ops ++ block_ops ++ memory_ops ++ push_ops
    ++ long_push_ops ++ dup_ops ++ swap_ops ++ log_ops ++ system_ops)
