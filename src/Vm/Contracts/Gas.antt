-- ===== src/Vm/Contracts/Gas.antt =====
-- vm/contracts.go: RequiredGas of each precompiled contract. math/big's numbers are natural numbers
-- here: none of them is negative.
use cardinal_evm.Prelude.{
  ℕ, zero, suc, ◌+◌, ◌-◌, ◌*◌, ◌/◌, ◌==◌, ltb, leb, Bool, if◌then◌else◌, none, some, List, length,
  get_elem?, take, drop, add64, mul64, max_u64,
}
use cardinal_evm.State.Account.{Bytes}
use cardinal_evm.Vm.Common.{get_data}
use cardinal_evm.Vm.GasTable.Calls.Cold.{spell}
use cardinal_evm.Vm.Contracts.Prices
use cardinal_evm.Vm.Contracts.{
  Precompiled, ecrecover, sha256hash, ripemd160hash, data_copy, big_mod_exp, bn256_add_byzantium,
  bn256_scalar_mul_byzantium, bn256_pairing_byzantium, bn256_add_istanbul,
  bn256_scalar_mul_istanbul, bn256_pairing_istanbul, blake2f, kzg_point_evaluation, bls12381_g1_add,
  bls12381_g1_multi_exp, bls12381_g2_add, bls12381_g2_multi_exp, bls12381_pairing, bls12381_map_g1,
  bls12381_map_g2, p256_verify,
}

-- The number that bytes spell: SetBytes of a big.Int, and BigEndian.
abbrev pub big : Bytes → ℕ
big bytes = spell 0 bytes

-- BitLen of a number of at most the given number of bits.
unfoldable pub bit_len : ℕ → ℕ → ℕ
bit_len zero x = 0
bit_len (suc n) x = let rest = bit_len n (x / 2) in if x == 0 then 0 else 1 + rest

abbrev pub big_max : ℕ → ℕ → ℕ
big_max x y = if ltb x y then y else x

unfoldable pub per_word : ℕ → ℕ → Bytes → ℕ
per_word word base input = add64 (mul64 ((length input + 31) / 32) word) base

unfoldable pub modexp_mult_complexity : ℕ → ℕ
modexp_mult_complexity x =
    if leb x 64
    then x * x
    else if leb x 1024
    then x * x / 4 + (96 * x - 3072)
    else x * x / 16 + (480 * x - 199680)

-- The input after the three lengths.
abbrev pub operands : Bytes → Bytes
operands input = drop 96 input

-- The head 32 bytes of the exponent, and its bit length less 1: a head of 32 bytes has at most 256
-- bits.
unfoldable pub exp_head : Bytes → ℕ → ℕ → ℕ
exp_head input base_len exp_len =
    if leb (length input) base_len
    then 0
    else if ltb 32 exp_len
    then big (get_data input base_len 32)
    else big (get_data input base_len exp_len)

unfoldable pub adjusted_exp_len : Bool → ℕ → ℕ → ℕ
unfolding bit_len
adjusted_exp_len eip7883 exp_len head =
    (if ltb 32 exp_len then (exp_len - 32) * (if eip7883 then 16 else 8) else 0)
    + (bit_len 256 head - 1)

-- BitLen() > 64
abbrev pub capped : ℕ → ℕ
capped gas = if ltb max_u64 gas then max_u64 else gas

unfoldable pub price_eip7883 : ℕ → ℕ → ℕ
price_eip7883 len adjusted =
    let words = (len + 7) / 8 in
    let gas = if ltb 32 len then words * words + words * words else 16 in
    let total = if ltb 1 adjusted then gas * adjusted else gas in
    if ltb max_u64 total then max_u64 else big_max 500 total

unfoldable pub price_eip2565 : ℕ → ℕ → ℕ
price_eip2565 len adjusted =
    let words = (len + 7) / 8 in
    let total = (if ltb 1 adjusted then words * words * adjusted else words * words) / 3 in
    if ltb max_u64 total then max_u64 else big_max 200 total

unfoldable pub price_eip198 : ℕ → ℕ → ℕ
unfolding modexp_mult_complexity
price_eip198 len adjusted = capped (modexp_mult_complexity len * big_max adjusted 1 / 20)

unfoldable pub price_of : Bool → Bool → ℕ → ℕ → ℕ
unfolding price_eip7883 price_eip2565 price_eip198
price_of eip2565 eip7883 len adjusted =
    if eip2565
    then (if eip7883 then price_eip7883 len adjusted else price_eip2565 len adjusted)
    else price_eip198 len adjusted

unfoldable pub modexp_required_gas : Bool → Bool → Bytes → ℕ
unfolding price_of exp_head adjusted_exp_len
modexp_required_gas eip2565 eip7883 input =
    let base_len = big (get_data input 0 32) in
    let exp_len = big (get_data input 32 32) in
    let mod_len = big (get_data input 64 32) in
    let head = exp_head (operands input) base_len exp_len in
    price_of eip2565 eip7883 (big_max mod_len base_len) (adjusted_exp_len eip7883 exp_len head)

-- The last entry of the table for a number of pairs past its end; an index out of range is 0 here, and
-- never read.
unfoldable pub discount : List ℕ → ℕ → ℕ
discount table k =
    let i = if ltb k (length table) then k - 1 else length table - 1 in
    elim (get_elem? table i) [ none ↦ 0 | some d ↦ d ]

unfoldable pub multi_exp_gas : List ℕ → ℕ → ℕ → Bytes → ℕ
unfolding discount
multi_exp_gas table pair mul_gas input =
    let k = length input / pair in
    if k == 0 then 0 else mul64 (mul64 k mul_gas) (discount table k) / 1000

unfoldable pub pairing_gas : ℕ → ℕ → ℕ → Bytes → ℕ
pairing_gas base size per_point input = add64 base (mul64 (length input / size) per_point)

unfoldable pub blake2f_gas : Bytes → ℕ
blake2f_gas input = if length input == 213 then big (take 4 input) else 0

unfoldable pub required_gas : Precompiled → Bytes → ℕ
unfolding per_word modexp_required_gas multi_exp_gas pairing_gas blake2f_gas
    Prices.bls12381_g1_multi_exp_discount_table Prices.bls12381_g2_multi_exp_discount_table
required_gas ecrecover input = Prices.ecrecover_gas
required_gas sha256hash input = per_word Prices.sha256_per_word_gas Prices.sha256_base_gas input
required_gas ripemd160hash input =
    per_word Prices.ripemd160_per_word_gas Prices.ripemd160_base_gas input
required_gas data_copy input = per_word Prices.identity_per_word_gas Prices.identity_base_gas input
required_gas (big_mod_exp eip2565 eip7823 eip7883) input = modexp_required_gas eip2565 eip7883 input
required_gas bn256_add_byzantium input = Prices.bn256_add_gas_byzantium
required_gas bn256_scalar_mul_byzantium input = Prices.bn256_scalar_mul_gas_byzantium
required_gas bn256_pairing_byzantium input =
    pairing_gas Prices.bn256_pairing_base_gas_byzantium 192
      Prices.bn256_pairing_per_point_gas_byzantium input
required_gas bn256_add_istanbul input = Prices.bn256_add_gas_istanbul
required_gas bn256_scalar_mul_istanbul input = Prices.bn256_scalar_mul_gas_istanbul
required_gas bn256_pairing_istanbul input =
    pairing_gas Prices.bn256_pairing_base_gas_istanbul 192
      Prices.bn256_pairing_per_point_gas_istanbul input
required_gas blake2f input = blake2f_gas input
required_gas kzg_point_evaluation input = Prices.blob_tx_point_evaluation_precompile_gas
required_gas bls12381_g1_add input = Prices.bls12381_g1_add_gas
required_gas bls12381_g1_multi_exp input =
    multi_exp_gas Prices.bls12381_g1_multi_exp_discount_table 160 Prices.bls12381_g1_mul_gas input
required_gas bls12381_g2_add input = Prices.bls12381_g2_add_gas
required_gas bls12381_g2_multi_exp input =
    multi_exp_gas Prices.bls12381_g2_multi_exp_discount_table 288 Prices.bls12381_g2_mul_gas input
required_gas bls12381_pairing input =
    pairing_gas Prices.bls12381_pairing_base_gas 384 Prices.bls12381_pairing_per_pair_gas input
required_gas bls12381_map_g1 input = Prices.bls12381_map_g1_gas
required_gas bls12381_map_g2 input = Prices.bls12381_map_g2_gas
required_gas (p256_verify gas) input = gas
