-- ===== src/Vm/Params.antt =====
-- The constants of params/protocol_params.go that the gas functions of the vm package read.
use cardinal_evm.Prelude.{ℕ, ◌+◌, ◌-◌, ◌*◌}

abbrev pub memory_gas : ℕ
memory_gas = 3

abbrev pub quad_coeff_div : ℕ
quad_coeff_div = 512

abbrev pub copy_gas : ℕ
copy_gas = 3

abbrev pub sstore_set_gas : ℕ
sstore_set_gas = 20000

abbrev pub sstore_clear_gas : ℕ
sstore_clear_gas = 5000

abbrev pub sstore_refund_gas : ℕ
sstore_refund_gas = 15000

abbrev pub sstore_reset_gas : ℕ
sstore_reset_gas = 5000

abbrev pub net_sstore_noop_gas : ℕ
net_sstore_noop_gas = 200

abbrev pub net_sstore_init_gas : ℕ
net_sstore_init_gas = 20000

abbrev pub net_sstore_clean_gas : ℕ
net_sstore_clean_gas = 5000

abbrev pub net_sstore_dirty_gas : ℕ
net_sstore_dirty_gas = 200

abbrev pub net_sstore_clear_refund : ℕ
net_sstore_clear_refund = 15000

abbrev pub net_sstore_reset_refund : ℕ
net_sstore_reset_refund = 4800

abbrev pub net_sstore_reset_clear_refund : ℕ
net_sstore_reset_clear_refund = 19800

abbrev pub sstore_sentry_gas_eip2200 : ℕ
sstore_sentry_gas_eip2200 = 2300

abbrev pub sstore_set_gas_eip2200 : ℕ
sstore_set_gas_eip2200 = 20000

abbrev pub sstore_reset_gas_eip2200 : ℕ
sstore_reset_gas_eip2200 = 5000

abbrev pub sstore_clears_schedule_refund_eip2200 : ℕ
sstore_clears_schedule_refund_eip2200 = 15000

abbrev pub cold_account_access_cost_eip2929 : ℕ
cold_account_access_cost_eip2929 = 2600

abbrev pub cold_sload_cost_eip2929 : ℕ
cold_sload_cost_eip2929 = 2100

abbrev pub warm_storage_read_cost_eip2929 : ℕ
warm_storage_read_cost_eip2929 = 100

abbrev pub sload_gas_eip2200 : ℕ
sload_gas_eip2200 = 800

abbrev pub log_gas : ℕ
log_gas = 375

abbrev pub log_topic_gas : ℕ
log_topic_gas = 375

abbrev pub log_data_gas : ℕ
log_data_gas = 8

abbrev pub keccak256_word_gas : ℕ
keccak256_word_gas = 6

abbrev pub init_code_word_gas : ℕ
init_code_word_gas = 2

abbrev pub exp_byte_frontier : ℕ
exp_byte_frontier = 10

abbrev pub exp_byte_eip158 : ℕ
exp_byte_eip158 = 50

abbrev pub exp_gas : ℕ
exp_gas = 10

abbrev pub call_new_account_gas : ℕ
call_new_account_gas = 25000

abbrev pub call_value_transfer_gas : ℕ
call_value_transfer_gas = 9000

abbrev pub selfdestruct_gas_eip150 : ℕ
selfdestruct_gas_eip150 = 5000

abbrev pub create_by_selfdestruct_gas : ℕ
create_by_selfdestruct_gas = 25000

abbrev pub selfdestruct_refund_gas : ℕ
selfdestruct_refund_gas = 24000

abbrev pub stack_limit : ℕ
stack_limit = 1024

abbrev pub tx_access_list_storage_key_gas : ℕ
tx_access_list_storage_key_gas = 1900

abbrev pub sstore_clears_schedule_refund_eip3529 : ℕ
sstore_clears_schedule_refund_eip3529 =
    sstore_reset_gas_eip2200 - cold_sload_cost_eip2929 + tx_access_list_storage_key_gas

abbrev pub max_init_code_size : ℕ
max_init_code_size = 2 * 24576
