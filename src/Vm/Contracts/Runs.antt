-- ===== src/Vm/Contracts/Runs.antt =====
-- vm/contracts.go: Run of the precompiled contracts, and RunPrecompiledContract. The cryptography that
-- they call is a parameter; so are the contracts on the BLS12-381 curve.
use cardinal_evm.Prelude.{
  ℕ, zero, suc, ◌+◌, ◌-◌, ◌*◌, ◌/◌, ◌%◌, ◌^◌, ◌==◌, ltb, Bool, not, ◌&&◌, ◌||◌, if◌then◌else◌,
  Option, none, some, ◌>>=◌, List, [], ◌∷◌, ◌++◌, length, get_elem?, take, drop, replicate, add64,
  sub64,
}
use cardinal_evm.State.Account.{Bytes}
use cardinal_evm.Vm.Common.{get_data, right_pad_bytes, all_zero}
use cardinal_evm.Vm.Contracts.Gas.{big, big_max, operands, required_gas}
use cardinal_evm.Vm.Contracts.{
  Precompiled, ecrecover, sha256hash, ripemd160hash, data_copy, big_mod_exp, bn256_add_byzantium,
  bn256_scalar_mul_byzantium, bn256_pairing_byzantium, bn256_add_istanbul,
  bn256_scalar_mul_istanbul, bn256_pairing_istanbul, blake2f, kzg_point_evaluation, p256_verify,
}

-- The packages that the contracts call: crypto (Ecrecover, Keccak256, ValidateSignatureValues), the
-- hashes, math/big (Exp, Bytes), crypto/bn256 on marshalled points, crypto/blake2b (F on the rounds,
-- the state, the message, the offset counters and the final flag), crypto/kzg4844 (VerifyProof),
-- crypto/secp256r1 (Verify), and the BLS12-381 curve. `none` is an error.
pub record Crypto : Type 0 where
  pub valid_signature_values : ℕ → ℕ → ℕ → Bool
  pub recover : Bytes → Bytes → Option Bytes
  pub keccak256 : Bytes → Bytes
  pub sha256 : Bytes → Bytes
  pub ripemd160 : Bytes → Bytes
  pub exp : ℕ → ℕ → ℕ → ℕ
  pub big_bytes : ℕ → Bytes
  pub curve_point : Bytes → Option Bytes
  pub twist_point : Bytes → Option Bytes
  pub bn256_add : Bytes → Bytes → Bytes
  pub bn256_scalar_mult : Bytes → ℕ → Bytes
  pub pairing_check : List (Bytes × Bytes) → Bool
  pub blake2b : ℕ → Bytes → Bytes → Bytes → Bool → Bytes
  pub verify_proof : Bytes → Bytes → Bytes → Bytes → Bool
  pub secp256r1_verify : Bytes → ℕ → ℕ → ℕ → ℕ → Bool
  pub bls : Precompiled → Bytes → Option Bytes

-- input[first:end]
abbrev pub slice : ℕ → ℕ → Bytes → Bytes
slice first end input = drop first (take end input)

unfoldable pub left_pad_bytes : Bytes → ℕ → Bytes
left_pad_bytes bytes l =
    if ltb (length bytes) l then replicate (l - length bytes) 0 ++ bytes else bytes

abbrev pub byte_at : Bytes → ℕ → ℕ
byte_at input i = elim (get_elem? input i) [ none ↦ 0 | some x ↦ x ]

unfoldable pub true_32_byte : Bytes
true_32_byte = replicate 31 0 ++ 1 ∷ []

unfoldable pub false_32_byte : Bytes
false_32_byte = replicate 32 0

abbrev pub blob_precompile_return_value : ℕ
blob_precompile_return_value =
    4096 * 2 ^ 256 + 0x73eda753299d7d483339d80809a1d80553bda402fffe5bfeffffffff00000001

-- The bytes that spell a number, the highest first.
unfoldable pub bytes_of : ℕ → ℕ → Bytes
bytes_of zero x = []
bytes_of (suc n) x = bytes_of n (x / 256) ++ x % 256 ∷ []

-- A length as an int: a negative one pads nothing.
abbrev int_of : ℕ → ℕ
int_of n = if ltb n (2 ^ 63) then n else 0

module _ (c : Crypto) where
  recovered : Option Bytes → Option Bytes
  unfolding left_pad_bytes
  recovered none = some []
  recovered (some key) = some (left_pad_bytes (drop 12 (c.keccak256 (drop 1 key))) 32)

  unfoldable pub run_ecrecover : Bytes → Option Bytes
  unfolding recovered
  run_ecrecover bytes =
      let input = right_pad_bytes bytes 128 in
      let r = big (slice 64 96 input) in
      let s = big (slice 96 128 input) in
      let v = (byte_at input 63 + 256 - 27) % 256 in
      if not (all_zero (slice 32 63 input)) || not (c.valid_signature_values v r s)
      then some []
      else recovered (c.recover (take 32 input) (slice 64 128 input ++ v ∷ []))

  -- The lengths are Uint64() of the numbers in the input, which wrap around.
  unfoldable pub run_mod_exp : Bool → Bytes → Option Bytes
  unfolding left_pad_bytes
  run_mod_exp eip7823 bytes =
      let base_len = big (get_data bytes 0 32) % 2 ^ 64 in
      let exp_len = big (get_data bytes 32 32) % 2 ^ 64 in
      let mod_len = big (get_data bytes 64 32) % 2 ^ 64 in
      let input = operands bytes in
      if (base_len == 0) && (mod_len == 0)
      then some []
      else if eip7823 && ltb 1024 (big_max (big_max base_len exp_len) mod_len)
      then none
      else (let base = big (get_data input 0 base_len) in
          let exponent = big (get_data input base_len exp_len) in
          let modulus = big (get_data input (add64 base_len exp_len) mod_len) in
          if modulus == 0
          then some (left_pad_bytes [] (int_of mod_len))
          else some (left_pad_bytes (c.big_bytes (c.exp base exponent modulus)) (int_of mod_len)))

  unfoldable pub run_bn256_add : Bytes → Option Bytes
  run_bn256_add input = do
    x ← c.curve_point (get_data input 0 64)
    y ← c.curve_point (get_data input 64 64)
    some (c.bn256_add x y)

  unfoldable pub run_bn256_scalar_mul : Bytes → Option Bytes
  run_bn256_scalar_mul input = do
    p ← c.curve_point (get_data input 0 64)
    some (c.bn256_scalar_mult p (big (get_data input 64 32)))

  -- The loop over the pairs: `n` of them, each of 192 bytes.
  pairs : ℕ → Bytes → Option (List (Bytes × Bytes))
  pairs zero input = some []
  pairs (suc n) input = do
    p ← c.curve_point (take 64 input)
    t ← c.twist_point (slice 64 192 input)
    rest ← pairs n (drop 192 input)
    some ((p, t) ∷ rest)

  unfoldable pub run_bn256_pairing : Bytes → Option Bytes
  unfolding pairs true_32_byte false_32_byte
  run_bn256_pairing input = if ltb 0 (length input % 192) then none else (do
    ps ← pairs (length input / 192) input
    some (if c.pairing_check ps then true_32_byte else false_32_byte))

  unfoldable pub run_blake2f : Bytes → Option Bytes
  run_blake2f input =
      if not (length input == 213)
      then none
      else if not (byte_at input 212 == 0) && not (byte_at input 212 == 1)
      then none
      else some (
          c.blake2b (big (take 4 input)) (slice 4 68 input) (slice 68 196 input)
            (slice 196 212 input) (byte_at input 212 == 1))

  -- kZGToVersionedHash: the hash with the version as its first byte.
  unfoldable pub kzg_to_versioned_hash : Bytes → ℕ
  kzg_to_versioned_hash commitment = big (1 ∷ drop 1 (c.sha256 commitment))

  unfoldable pub run_kzg : Bytes → Option Bytes
  unfolding kzg_to_versioned_hash bytes_of
  run_kzg input =
      let commitment = slice 96 144 input in
      if not (length input == 192)
      then none
      else if not (kzg_to_versioned_hash commitment == big (take 32 input))
      then none
      else if not
          (c.verify_proof commitment (slice 32 64 input) (slice 64 96 input) (slice 144 192 input))
      then none
      else some (bytes_of 64 blob_precompile_return_value)

  unfoldable pub run_p256 : Bytes → Option Bytes
  unfolding left_pad_bytes
  run_p256 input =
      if not (length input == 160)
      then some []
      else if c.secp256r1_verify (take 32 input) (big (slice 32 64 input)) (big (slice 64 96 input))
          (big (slice 96 128 input)) (big (slice 128 160 input))
      then some (left_pad_bytes (1 ∷ []) 32)
      else some []

  unfoldable pub run_contract : Precompiled → Bytes → Option Bytes
  unfolding run_ecrecover run_mod_exp run_bn256_add run_bn256_scalar_mul run_bn256_pairing
      run_blake2f run_kzg run_p256
  run_contract ecrecover input = run_ecrecover input
  run_contract sha256hash input = some (c.sha256 input)
  run_contract ripemd160hash input = some (left_pad_bytes (c.ripemd160 input) 32)
  run_contract data_copy input = some input
  run_contract (big_mod_exp eip2565 eip7823 eip7883) input = run_mod_exp eip7823 input
  run_contract bn256_add_byzantium input = run_bn256_add input
  run_contract bn256_scalar_mul_byzantium input = run_bn256_scalar_mul input
  run_contract bn256_pairing_byzantium input = run_bn256_pairing input
  run_contract bn256_add_istanbul input = run_bn256_add input
  run_contract bn256_scalar_mul_istanbul input = run_bn256_scalar_mul input
  run_contract bn256_pairing_istanbul input = run_bn256_pairing input
  run_contract blake2f input = run_blake2f input
  run_contract kzg_point_evaluation input = run_kzg input
  run_contract (p256_verify gas) input = run_p256 input
  run_contract p input = c.bls p input

  -- The return data, the gas left, and the error; an out of gas error leaves none.
  unfoldable pub run_precompiled_contract : Precompiled → Bytes → ℕ → Option Bytes × ℕ
  unfolding run_contract required_gas
  run_precompiled_contract p input supplied =
      let cost = required_gas p input in
      if ltb supplied cost then (none, 0) else (run_contract p input, sub64 supplied cost)
