-- ===== src/Transition/Intrinsic/Exact.antt =====
-- The price of a message as a sum without a bound, and IntrinsicGas against it.
use cardinal_evm.Prelude.{
  ℕ, ◌+◌, ◌-◌, ◌*◌, ◌/◌, ◌^◌, ◌<◌, ◌≤◌, ◌≡◌, refl, ltb, ◌==◌, if◌then◌else◌, arith,
}
use cardinal_evm.Prelude.{false, ◌&&◌, Option, none, some, [], ◌∷◌, length, ap, ◌∙◌}
use cardinal_evm.Prelude.{max_u64, Bool-cases, inl, inr}
use native.Mathlib.Nat.{le-div_iff_mul-le}
use cardinal_evm.State.Account.{Bytes}
use cardinal_evm.Vm.Common.{to_word_size}
use cardinal_evm.Vm.Params
use cardinal_evm.Transition.Intrinsic.{
  Kind, Tuples, non_zero, storage_keys, start_gas, non_zero_gas, add_priced, add_init_code,
  add_data,
}
use cardinal_evm.Transition.Intrinsic.{add_access_list, add_auth_list, intrinsic_gas}
use cardinal_evm.Transition.Intrinsic.{tx_data_zero_gas, tx_access_list_address_gas}

-- The price of a message, as the EIPs give it: a sum of numbers without a bound.
abbrev words_price : Kind → ℕ → ℕ
words_price kind n =
    if kind.is_contract_creation && kind.is_eip3860
    then ((n + 31) / 32) * Params.init_code_word_gas
    else 0

abbrev access_price : Option Tuples → ℕ
access_price none = 0
access_price (some tuples) =
    length tuples * tx_access_list_address_gas
    + storage_keys tuples * Params.tx_access_list_storage_key_gas

abbrev auth_price : Option ℕ → ℕ
auth_price none = 0
auth_price (some n) = n * Params.call_new_account_gas

abbrev data_price : Kind → Bytes → ℕ
data_price kind bytes =
    non_zero bytes * non_zero_gas kind
    + (length bytes - non_zero bytes) * tx_data_zero_gas
    + words_price kind (length bytes)

unfoldable pub price : Kind → Bytes → Option Tuples → Option ℕ → ℕ
price kind bytes access_list auth_list =
    start_gas kind + data_price kind bytes + access_price access_list + auth_price auth_list

add_priced_lem :
    (p count gas : ℕ)
    → 0 < p
    → gas + count * p < 2 ^ 64
    → add_priced p count gas ≡ some (gas + count * p)
unfolding add_priced
add_priced_lem p count gas pos h =
    let within : count ≤ (max_u64 - gas) / p = (le-div_iff_mul-le pos).1 (omega arith) in
    let test : ltb ((max_u64 - gas) / p) count ≡ false = ground (arith, within) in
    rw test (ap some (omega (arith, h)))

words_lem : (n : ℕ) → n < 2 ^ 63 → to_word_size n ≡ (n + 31) / 32
unfolding to_word_size
words_lem n h = ground arith

add_init_code_lem :
    (kind : Kind) (n gas : ℕ)
    → n < 2 ^ 63
    → gas + words_price kind n < 2 ^ 64
    → add_init_code kind n gas ≡ some (gas + words_price kind n)
unfolding add_init_code
add_init_code_lem kind n gas small h =
    elim (Bool-cases (kind.is_contract_creation && kind.is_eip3860)) [
      | inl priced ↦
          rw (priced, words_lem n small)
            (add_priced_lem Params.init_code_word_gas ((n + 31) / 32) gas (omega arith)
              (rw priced at h))
      | inr free ↦ rw free (ap some (omega arith))
    ]

non_zero_gas_pos : (kind : Kind) → 0 < non_zero_gas kind
non_zero_gas_pos kind = elim (Bool-cases kind.is_eip2028) [
  | inl h ↦ rw h (omega arith)
  | inr h ↦ rw h (omega arith)
]

add_data_lem :
    (kind : Kind) (bytes : Bytes) (gas : ℕ)
    → length bytes < 2 ^ 63
    → gas + data_price kind bytes < 2 ^ 64
    → add_data kind bytes gas ≡ some (gas + data_price kind bytes)
unfolding add_data
add_data_lem kind bytes gas small h =
    let nz = non_zero bytes * non_zero_gas kind in
    let z = (length bytes - non_zero bytes) * tx_data_zero_gas in
    rw
      (
        add_priced_lem (non_zero_gas kind) (non_zero bytes) gas (non_zero_gas_pos kind)
            (omega (arith, h)),
        add_priced_lem tx_data_zero_gas (length bytes - non_zero bytes) (gas + nz) (omega arith)
            (omega (arith, h)),
      )
      (add_init_code_lem kind (length bytes) (gas + nz + z) small (omega (arith, h))
        ∙ ap some (omega arith))

empty_price : (kind : Kind) (bytes : Bytes) → length bytes ≡ 0 → data_price kind bytes ≡ 0
empty_price kind [] h = elim (Bool-cases (kind.is_contract_creation && kind.is_eip3860)) [
  | inl priced ↦ rw priced (ground arith)
  | inr free ↦ rw free (ground arith)
]
empty_price kind (x ∷ xs) h = absurd (omega arith)

by_length :
    (kind : Kind) (bytes : Bytes) (gas : ℕ)
    → length bytes < 2 ^ 63
    → gas + data_price kind bytes < 2 ^ 64
    → (if length bytes == 0 then some gas else add_data kind bytes gas)
      ≡ some (gas + data_price kind bytes)
by_length kind bytes gas small h = elim (Bool-cases (length bytes == 0)) [
  | inl none_sent ↦ rw (none_sent, empty_price kind bytes (ground arith)) (ap some (omega arith))
  | inr some_sent ↦ rw some_sent (add_data_lem kind bytes gas small h)
]

add_access_list_lem :
    (access_list : Option Tuples) (gas : ℕ)
    → gas + access_price access_list < 2 ^ 64
    → add_access_list access_list gas ≡ gas + access_price access_list
unfolding add_access_list
add_access_list_lem none gas h = omega arith
add_access_list_lem (some tuples) gas h = omega (arith, h)

add_auth_list_lem :
    (auth_list : Option ℕ) (gas : ℕ)
    → gas + auth_price auth_list < 2 ^ 64
    → add_auth_list auth_list gas ≡ gas + auth_price auth_list
unfolding add_auth_list
add_auth_list_lem none gas h = omega arith
add_auth_list_lem (some n) gas h = omega (arith, h)

-- For data of less than 2^63 bytes, if the price of a message, as a sum of numbers without a bound, is
-- less than 2^64, IntrinsicGas does not fail and answers it.
pub intrinsic_gas_exact :
    (kind : Kind) (bytes : Bytes) (access_list : Option Tuples) (auth_list : Option ℕ)
    → length bytes < 2 ^ 63
    → price kind bytes access_list auth_list < 2 ^ 64
    → intrinsic_gas kind bytes access_list auth_list ≡ some (price kind bytes access_list auth_list)
unfolding intrinsic_gas price
intrinsic_gas_exact kind bytes access_list auth_list small h =
    let gas = start_gas kind + data_price kind bytes in
    rw
      (
        by_length kind bytes (start_gas kind) small (omega (arith, h)),
        add_access_list_lem access_list gas (omega (arith, h)),
        add_auth_list_lem auth_list (gas + access_price access_list) (omega (arith, h)),
      )
      refl
