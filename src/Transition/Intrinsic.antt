-- ===== src/Transition/Intrinsic.antt =====
-- IntrinsicGas and FloorDataGas of api/state_transition.go. `none` is ErrGasUintOverflow.
pub mod Exact
use cardinal_evm.Prelude.{
  ℕ, ◌+◌, ◌-◌, ◌*◌, ◌/◌, ◌%◌, ◌^◌, ◌<◌, ◌≤◌, ◌≡◌, refl, ltb, ◌==◌, if◌then◌else◌, arith,
}
use cardinal_evm.Prelude.{
  Bool, true, false, ◌&&◌, Option, none, some, ◌>>=◌, List, [], ◌∷◌, length, ap, ◌∙◌,
}
use cardinal_evm.Prelude.{max_u64, add64, sub64, mul64, IsU64, Bool-cases, inl, inr}
use native.Mathlib.Nat.{le-div_iff_mul-le}
use cardinal_evm.State.Account.{Address, Hash, Bytes}
use cardinal_evm.Vm.Common.{to_word_size}
use cardinal_evm.Vm.Params

abbrev pub tx_gas : ℕ
tx_gas = 21000

abbrev pub tx_gas_contract_creation : ℕ
tx_gas_contract_creation = 53000

abbrev pub tx_data_zero_gas : ℕ
tx_data_zero_gas = 4

abbrev pub tx_data_non_zero_gas_frontier : ℕ
tx_data_non_zero_gas_frontier = 68

abbrev pub tx_data_non_zero_gas_eip2028 : ℕ
tx_data_non_zero_gas_eip2028 = 16

abbrev pub tx_access_list_address_gas : ℕ
tx_access_list_address_gas = 2400

abbrev pub tx_token_per_non_zero_byte : ℕ
tx_token_per_non_zero_byte = 4

abbrev pub tx_cost_floor_per_token : ℕ
tx_cost_floor_per_token = 10

-- The flags of IntrinsicGas.
pub record Kind : Type 0 where
  pub is_contract_creation : Bool
  pub is_homestead : Bool
  pub is_eip2028 : Bool
  pub is_eip3860 : Bool

abbrev pub Tuples : Type 0
Tuples = List (Address × List Hash)

-- The bytes that are not zero: the loop over the data.
abbrev pub non_zero : Bytes → ℕ
non_zero [] = 0
non_zero (x ∷ xs) = if x == 0 then non_zero xs else 1 + non_zero xs

-- AccessList.StorageKeys
abbrev pub storage_keys : Tuples → ℕ
storage_keys [] = 0
storage_keys ((a, keys) ∷ tuples) = length keys + storage_keys tuples

-- `if (math.MaxUint64-gas)/price < count { return 0, ErrGasUintOverflow }; gas += count * price`
unfoldable pub add_priced : ℕ → ℕ → ℕ → Option ℕ
add_priced price count gas =
    if ltb ((max_u64 - gas) / price) count then none else some (add64 gas (mul64 count price))

abbrev start_gas : Kind → ℕ
start_gas kind =
    if kind.is_contract_creation && kind.is_homestead then tx_gas_contract_creation else tx_gas

abbrev non_zero_gas : Kind → ℕ
non_zero_gas kind =
    if kind.is_eip2028 then tx_data_non_zero_gas_eip2028 else tx_data_non_zero_gas_frontier

add_init_code : Kind → ℕ → ℕ → Option ℕ
unfolding add_priced
add_init_code kind data_len gas =
    if kind.is_contract_creation && kind.is_eip3860
    then add_priced Params.init_code_word_gas (to_word_size data_len) gas
    else some gas

add_data : Kind → Bytes → ℕ → Option ℕ
unfolding add_priced add_init_code
add_data kind bytes gas = do
  gas1 ← add_priced (non_zero_gas kind) (non_zero bytes) gas
  gas2 ← add_priced tx_data_zero_gas (length bytes - non_zero bytes) gas1
  add_init_code kind (length bytes) gas2

-- The access list and the authorizations, which enter by their number: sums without a check.
add_access_list : Option Tuples → ℕ → ℕ
add_access_list none gas = gas
add_access_list (some tuples) gas =
    add64 (add64 gas (mul64 (length tuples) tx_access_list_address_gas))
      (mul64 (storage_keys tuples) Params.tx_access_list_storage_key_gas)

add_auth_list : Option ℕ → ℕ → ℕ
add_auth_list none gas = gas
add_auth_list (some n) gas = add64 gas (mul64 n Params.call_new_account_gas)

unfoldable pub intrinsic_gas : Kind → Bytes → Option Tuples → Option ℕ → Option ℕ
unfolding add_data add_access_list add_auth_list
intrinsic_gas kind bytes access_list auth_list = do
  gas ← if length bytes == 0 then some (start_gas kind) else add_data kind bytes (start_gas kind)
  some (add_auth_list auth_list (add_access_list access_list gas))

unfoldable pub floor_data_gas : Bytes → Option ℕ
floor_data_gas bytes =
    let tokens =
      add64 (mul64 (non_zero bytes) tx_token_per_non_zero_byte) (length bytes - non_zero bytes) in
    if ltb ((max_u64 - tx_gas) / tx_cost_floor_per_token) tokens
    then none
    else some (tx_gas + tokens * tx_cost_floor_per_token)
