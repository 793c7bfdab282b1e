-- ===== src/Vm/JumpTable/Forks.antt =====
-- The instruction sets after Frontier: the new*InstructionSet functions of vm/jump_table.go and the
-- enablers of vm/eips.go that they call.
use cardinal_evm.Prelude.{ℕ, some}
use cardinal_evm.Vm.Opcodes
use cardinal_evm.Vm.Params
use cardinal_evm.Vm.JumpTable.Gas
use cardinal_evm.Vm.JumpTable.Operation.{
  op_shl, op_shr, op_sar, op_clz, op_random, op_base_fee, op_blob_base_fee, op_chain_id, op_push0,
  op_return_data_size, op_blob_hash, op_mcopy, op_return_data_copy, op_self_balance,
  op_ext_code_hash, op_tload, op_tstore, op_revert, op_selfdestruct6780, op_create2,
  op_delegate_call, op_static_call, simple, calling, GasFunc, return_data_copy_gas, mcopy_gas,
  create2_gas, revert_gas, create_eip3860_gas, create2_eip3860_gas, exp_eip158_gas,
  sstore_eip2200_gas, sstore_eip2929_gas, sstore_eip3529_gas, sload_eip2929_gas,
  ext_code_copy_eip2929_gas, account_check_eip2929_gas, delegate_call_gas, static_call_gas,
  call_eip2929_gas, call_code_eip2929_gas, delegate_call_eip2929_gas, static_call_eip2929_gas,
  call_eip7702_gas, call_code_eip7702_gas, delegate_call_eip7702_gas, static_call_eip7702_gas,
  selfdestruct_eip2929_gas, selfdestruct_eip3529_gas, return_data_copy_memory, mcopy_memory,
  create2_memory, delegate_call_memory, static_call_memory, revert_memory, Operation, constant,
  dynamic, sized, JumpTable, assign, amend,
}
use cardinal_evm.Vm.JumpTable.Frontier.{new_frontier_instruction_set}

abbrev priced : ℕ → Operation → Operation
priced gas o = record o { constant_gas = gas }

abbrev metered : GasFunc → Operation → Operation
metered g o = record o { dynamic_gas = some g }

abbrev both : ℕ → GasFunc → Operation → Operation
both gas g o = record o { constant_gas = gas; dynamic_gas = some g }

unfoldable pub enable1884 : JumpTable → JumpTable
enable1884 t =
    let t1 = amend t Opcodes.sload (priced Gas.sload_gas_eip1884) in
    let t2 = amend t1 Opcodes.balance (priced Gas.balance_gas_eip1884) in
    let t3 = amend t2 Opcodes.extcodehash (priced Gas.extcode_hash_gas_eip1884) in
    assign t3 Opcodes.selfbalance (constant (simple op_self_balance) Gas.fast_step 0 1)

unfoldable pub enable1344 : JumpTable → JumpTable
enable1344 t = assign t Opcodes.chainid (constant (simple op_chain_id) Gas.quick_step 0 1)

unfoldable pub enable2200 : JumpTable → JumpTable
enable2200 t =
    let t1 = amend t Opcodes.sload (priced Params.sload_gas_eip2200) in
    amend t1 Opcodes.sstore (metered sstore_eip2200_gas)

unfoldable pub enable2929 : JumpTable → JumpTable
enable2929 t =
    let t1 = amend t Opcodes.sstore (metered sstore_eip2929_gas) in
    let t2 = amend t1 Opcodes.sload (both 0 sload_eip2929_gas) in
    let t3 =
      amend t2 Opcodes.extcodecopy
        (both Params.warm_storage_read_cost_eip2929 ext_code_copy_eip2929_gas) in
    let t4 =
      amend t3 Opcodes.extcodesize
        (both Params.warm_storage_read_cost_eip2929 account_check_eip2929_gas) in
    let t5 =
      amend t4 Opcodes.extcodehash
        (both Params.warm_storage_read_cost_eip2929 account_check_eip2929_gas) in
    let t6 =
      amend t5 Opcodes.balance
        (both Params.warm_storage_read_cost_eip2929 account_check_eip2929_gas) in
    let t7 = amend t6 Opcodes.call (both Params.warm_storage_read_cost_eip2929 call_eip2929_gas) in
    let t8 =
      amend t7 Opcodes.callcode
        (both Params.warm_storage_read_cost_eip2929 call_code_eip2929_gas) in
    let t9 =
      amend t8 Opcodes.staticcall
        (both Params.warm_storage_read_cost_eip2929 static_call_eip2929_gas) in
    let t10 =
      amend t9 Opcodes.delegatecall
        (both Params.warm_storage_read_cost_eip2929 delegate_call_eip2929_gas) in
    amend t10 Opcodes.selfdestruct (both Params.selfdestruct_gas_eip150 selfdestruct_eip2929_gas)

unfoldable pub enable3529 : JumpTable → JumpTable
enable3529 t =
    let t1 = amend t Opcodes.sstore (metered sstore_eip3529_gas) in
    amend t1 Opcodes.selfdestruct (metered selfdestruct_eip3529_gas)

unfoldable pub enable3198 : JumpTable → JumpTable
enable3198 t = assign t Opcodes.basefee (constant (simple op_base_fee) Gas.quick_step 0 1)

unfoldable pub enable3860 : JumpTable → JumpTable
enable3860 t =
    let t1 = amend t Opcodes.create (metered create_eip3860_gas) in
    amend t1 Opcodes.create2 (metered create2_eip3860_gas)

unfoldable pub enable3855 : JumpTable → JumpTable
enable3855 t = assign t Opcodes.push0 (constant (simple op_push0) Gas.quick_step 0 1)

unfoldable pub enable4844 : JumpTable → JumpTable
enable4844 t = assign t Opcodes.blobhash (constant (simple op_blob_hash) Gas.fastest_step 1 1)

unfoldable pub enable7939 : JumpTable → JumpTable
enable7939 t = assign t Opcodes.clz (constant (simple op_clz) Gas.fastest_step 1 1)

unfoldable pub enable7516 : JumpTable → JumpTable
enable7516 t = assign t Opcodes.blobbasefee (constant (simple op_blob_base_fee) Gas.quick_step 0 1)

unfoldable pub enable1153 : JumpTable → JumpTable
enable1153 t =
    let t1 =
      assign t Opcodes.tload
        (constant (simple op_tload) Params.warm_storage_read_cost_eip2929 1 1) in
    assign t1 Opcodes.tstore (constant (simple op_tstore) Params.warm_storage_read_cost_eip2929 2 0)

unfoldable pub enable5656 : JumpTable → JumpTable
enable5656 t =
    assign t Opcodes.mcopy (sized (simple op_mcopy) Gas.fastest_step mcopy_gas mcopy_memory 3 0)

unfoldable pub enable6780 : JumpTable → JumpTable
enable6780 t = assign t Opcodes.selfdestruct (
    dynamic (simple op_selfdestruct6780) Params.selfdestruct_gas_eip150 selfdestruct_eip3529_gas 1
      0)

unfoldable pub enable7702 : JumpTable → JumpTable
enable7702 t =
    let t1 = amend t Opcodes.call (metered call_eip7702_gas) in
    let t2 = amend t1 Opcodes.callcode (metered call_code_eip7702_gas) in
    let t3 = amend t2 Opcodes.staticcall (metered static_call_eip7702_gas) in
    amend t3 Opcodes.delegatecall (metered delegate_call_eip7702_gas)

unfoldable pub new_homestead_instruction_set : JumpTable
new_homestead_instruction_set = assign new_frontier_instruction_set Opcodes.delegatecall (
    sized (calling op_delegate_call) Gas.call_gas_frontier delegate_call_gas delegate_call_memory 6
      1)

unfoldable pub new_tangerine_whistle_instruction_set : JumpTable
new_tangerine_whistle_instruction_set =
    let t1 = amend new_homestead_instruction_set Opcodes.balance (priced Gas.balance_gas_eip150) in
    let t2 = amend t1 Opcodes.extcodesize (priced Gas.extcode_size_gas_eip150) in
    let t3 = amend t2 Opcodes.sload (priced Gas.sload_gas_eip150) in
    let t4 = amend t3 Opcodes.extcodecopy (priced Gas.extcode_copy_base_eip150) in
    let t5 = amend t4 Opcodes.call (priced Gas.call_gas_eip150) in
    let t6 = amend t5 Opcodes.callcode (priced Gas.call_gas_eip150) in
    amend t6 Opcodes.delegatecall (priced Gas.call_gas_eip150)

unfoldable pub new_spurious_dragon_instruction_set : JumpTable
new_spurious_dragon_instruction_set =
    amend new_tangerine_whistle_instruction_set Opcodes.exp (metered exp_eip158_gas)

unfoldable pub new_byzantium_instruction_set : JumpTable
new_byzantium_instruction_set =
    let t1 =
      assign new_spurious_dragon_instruction_set Opcodes.staticcall (
        sized (calling op_static_call) Gas.call_gas_eip150 static_call_gas static_call_memory 6
          1) in
    let t2 =
      assign t1 Opcodes.returndatasize (constant (simple op_return_data_size) Gas.quick_step 0 1) in
    let t3 = assign t2 Opcodes.returndatacopy (
      sized (simple op_return_data_copy) Gas.fastest_step return_data_copy_gas
        return_data_copy_memory 3 0) in
    assign t3 Opcodes.revert (sized (simple op_revert) 0 revert_gas revert_memory 2 0)

unfoldable pub new_constantinople_instruction_set : JumpTable
new_constantinople_instruction_set =
    let t1 =
      assign new_byzantium_instruction_set Opcodes.shl
        (constant (simple op_shl) Gas.fastest_step 2 1) in
    let t2 = assign t1 Opcodes.shr (constant (simple op_shr) Gas.fastest_step 2 1) in
    let t3 = assign t2 Opcodes.sar (constant (simple op_sar) Gas.fastest_step 2 1) in
    let t4 =
      assign t3 Opcodes.extcodehash
        (constant (simple op_ext_code_hash) Gas.extcode_hash_gas_constantinople 1 1) in
    assign t4 Opcodes.create2
      (sized (calling op_create2) Gas.create2_gas create2_gas create2_memory 4 1)

unfoldable pub new_istanbul_instruction_set : JumpTable
unfolding enable1344 enable1884 enable2200
new_istanbul_instruction_set =
    let t1 = enable1344 new_constantinople_instruction_set in
    let t2 = enable1884 t1 in enable2200 t2

unfoldable pub new_berlin_instruction_set : JumpTable
unfolding enable2929
new_berlin_instruction_set = enable2929 new_istanbul_instruction_set

unfoldable pub new_london_instruction_set : JumpTable
unfolding enable3529 enable3198
new_london_instruction_set = let t1 = enable3529 new_berlin_instruction_set in enable3198 t1

unfoldable pub new_merge_instruction_set : JumpTable
new_merge_instruction_set =
    assign new_london_instruction_set Opcodes.random
      (constant (simple op_random) Gas.quick_step 0 1)

unfoldable pub new_shanghai_instruction_set : JumpTable
unfolding enable3860 enable3855
new_shanghai_instruction_set = let t1 = enable3860 new_merge_instruction_set in enable3855 t1

unfoldable pub new_cancun_instruction_set : JumpTable
unfolding enable4844 enable7516 enable1153 enable5656 enable6780
new_cancun_instruction_set =
    let t1 = enable4844 new_shanghai_instruction_set in
    let t2 = enable7516 t1 in let t3 = enable1153 t2 in let t4 = enable5656 t3 in enable6780 t4

unfoldable pub new_prague_instruction_set : JumpTable
unfolding enable7702
new_prague_instruction_set = enable7702 new_cancun_instruction_set

unfoldable pub new_osaka_instruction_set : JumpTable
unfolding enable7939
new_osaka_instruction_set = enable7939 new_prague_instruction_set
