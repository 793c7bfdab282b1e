-- ===== src/Vm/JumpTable/Operation.antt =====
-- The operations of a jump table: the functions that they refer to, by name, and the bounds on the
-- stack of vm/stack_table.go.
use cardinal_evm.Prelude.{ℕ, ◌+◌, ◌-◌, ◌==◌, if◌then◌else◌, Option, none, some, List, [], ◌∷◌}
use cardinal_evm.Vm.Params

-- The execution functions that do not call another contract.
pub data Simple : Type 0 where
  op_add op_sub op_mul op_div op_sdiv op_mod op_smod op_exp op_sign_extend op_not op_lt : Simple
  op_gt op_slt op_sgt op_eq op_iszero op_and op_or op_xor op_byte op_addmod op_mulmod : Simple
  op_shl op_shr op_sar op_clz : Simple
  op_origin op_gasprice op_coinbase op_timestamp op_number op_difficulty op_random : Simple
  op_gas_limit op_base_fee op_blob_base_fee op_chain_id op_push0 op_address op_caller : Simple
  op_call_value op_call_data_size op_return_data_size op_code_size op_msize op_pc : Simple
  op_blockhash op_blob_hash op_call_data_load : Simple
  op_pop op_keccak256 op_mload op_mstore op_mstore8 op_mcopy op_call_data_copy : Simple
  op_code_copy op_ext_code_copy op_return_data_copy op_balance op_self_balance : Simple
  op_ext_code_size op_ext_code_hash op_sload op_sstore op_tload op_tstore : Simple
  op_jump op_jumpi op_jumpdest op_gas op_push1 op_return op_revert op_undefined op_stop : Simple
  op_selfdestruct op_selfdestruct6780 : Simple
  make_push make_dup make_swap make_log : ℕ → Simple

pub data Calling : Type 0 where
  op_create op_create2 op_call op_call_code op_delegate_call op_static_call : Calling

pub data Execute : Type 0 where
  simple : Simple → Execute
  calling : Calling → Execute

-- The functions of the dynamic gas.
pub data GasFunc : Type 0 where
  keccak256_gas call_data_copy_gas return_data_copy_gas code_copy_gas ext_code_copy_gas : GasFunc
  mload_gas mstore_gas mstore8_gas mcopy_gas create_gas create2_gas return_gas revert_gas : GasFunc
  create_eip3860_gas create2_eip3860_gas exp_frontier_gas exp_eip158_gas : GasFunc
  sstore_gas sstore_eip2200_gas sstore_eip2929_gas sstore_eip3529_gas sload_eip2929_gas : GasFunc
  ext_code_copy_eip2929_gas account_check_eip2929_gas : GasFunc
  call_gas call_code_gas delegate_call_gas static_call_gas : GasFunc
  call_eip2929_gas call_code_eip2929_gas delegate_call_eip2929_gas static_call_eip2929_gas : GasFunc
  call_eip7702_gas call_code_eip7702_gas delegate_call_eip7702_gas static_call_eip7702_gas : GasFunc
  selfdestruct_gas selfdestruct_eip2929_gas selfdestruct_eip3529_gas : GasFunc
  log_gas : ℕ → GasFunc

-- The functions of the memory that an operation needs.
pub data MemoryFunc : Type 0 where
  keccak256_memory call_data_copy_memory return_data_copy_memory code_copy_memory : MemoryFunc
  ext_code_copy_memory mload_memory mstore_memory mstore8_memory mcopy_memory : MemoryFunc
  create_memory create2_memory call_memory delegate_call_memory static_call_memory : MemoryFunc
  return_memory revert_memory log_memory : MemoryFunc

pub record Operation : Type 0 where
  pub execute : Execute
  pub constant_gas : ℕ
  pub dynamic_gas : Option GasFunc
  pub min_stack : ℕ
  pub max_stack : ℕ
  pub memory_size : Option MemoryFunc

unfoldable pub max_stack : ℕ → ℕ → ℕ
max_stack pop push = Params.stack_limit + pop - push

unfoldable pub min_stack : ℕ → ℕ → ℕ
min_stack pops push = pops

-- An entry with both bounds of the same pops and pushes: without dynamic gas, with it, and with
-- memory.
abbrev pub constant : Execute → ℕ → ℕ → ℕ → Operation
unfolding max_stack min_stack
constant execute gas pops pushes = record {
  execute = execute;
  constant_gas = gas;
  dynamic_gas = none;
  min_stack = min_stack pops pushes;
  max_stack = max_stack pops pushes;
  memory_size = none;
}

abbrev pub dynamic : Execute → ℕ → GasFunc → ℕ → ℕ → Operation
dynamic execute gas gas_func pops pushes = record (constant execute gas pops pushes) {
  dynamic_gas = some gas_func;
}

abbrev pub sized : Execute → ℕ → GasFunc → MemoryFunc → ℕ → ℕ → Operation
sized execute gas gas_func memory_func pops pushes =
    record (dynamic execute gas gas_func pops pushes) { memory_size = some memory_func }

-- What fills the slots that a table leaves open.
abbrev pub undefined : Operation
undefined = record (constant (simple op_undefined) 0 0 0) { min_stack = 0 }

abbrev pub Entries : Type 0
Entries = List (ℕ × Operation)

-- A table has an operation for each byte.
abbrev pub JumpTable : Type 0
JumpTable = ℕ → Operation

abbrev pub table_of : Entries → JumpTable
table_of [] k = undefined
table_of ((i, o) ∷ entries) k = if i == k then o else table_of entries k

-- `jt[i] = &operation{...}`, and a change to the operation at `jt[i]`.
abbrev pub assign : JumpTable → ℕ → Operation → JumpTable
assign t i o k = if i == k then o else t k

abbrev pub amend : JumpTable → ℕ → (Operation → Operation) → JumpTable
amend t i f k = if i == k then f (t i) else t k
