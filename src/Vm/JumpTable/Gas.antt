-- ===== src/Vm/JumpTable/Gas.antt =====
-- The gas of the steps (vm/gas.go) and the constant gas of operations (params/protocol_params.go).
use cardinal_evm.Prelude.{ℕ}

abbrev pub quick_step : ℕ
quick_step = 2

abbrev pub fastest_step : ℕ
fastest_step = 3

abbrev pub fast_step : ℕ
fast_step = 5

abbrev pub mid_step : ℕ
mid_step = 8

abbrev pub slow_step : ℕ
slow_step = 10

abbrev pub ext_step : ℕ
ext_step = 20

abbrev pub keccak256_gas : ℕ
keccak256_gas = 30

abbrev pub jumpdest_gas : ℕ
jumpdest_gas = 1

abbrev pub create_gas : ℕ
create_gas = 32000

abbrev pub create2_gas : ℕ
create2_gas = 32000

abbrev pub call_gas_frontier : ℕ
call_gas_frontier = 40

abbrev pub call_gas_eip150 : ℕ
call_gas_eip150 = 700

abbrev pub call_stipend : ℕ
call_stipend = 2300

abbrev pub balance_gas_frontier : ℕ
balance_gas_frontier = 20

abbrev pub balance_gas_eip150 : ℕ
balance_gas_eip150 = 400

abbrev pub balance_gas_eip1884 : ℕ
balance_gas_eip1884 = 700

abbrev pub extcode_size_gas_frontier : ℕ
extcode_size_gas_frontier = 20

abbrev pub extcode_size_gas_eip150 : ℕ
extcode_size_gas_eip150 = 700

abbrev pub sload_gas_frontier : ℕ
sload_gas_frontier = 50

abbrev pub sload_gas_eip150 : ℕ
sload_gas_eip150 = 200

abbrev pub sload_gas_eip1884 : ℕ
sload_gas_eip1884 = 800

abbrev pub extcode_hash_gas_constantinople : ℕ
extcode_hash_gas_constantinople = 400

abbrev pub extcode_hash_gas_eip1884 : ℕ
extcode_hash_gas_eip1884 = 700

abbrev pub extcode_copy_base_frontier : ℕ
extcode_copy_base_frontier = 20

abbrev pub extcode_copy_base_eip150 : ℕ
extcode_copy_base_eip150 = 700
