-- ===== src/Vm/Contracts/Dearer.antt =====
-- The two prices of the modular exponentiation since Berlin (vm/contracts.go, bigModExp.RequiredGas).
use native.Mathlib.Nat.{mul-le-mul_left, mul-le-mul_right}
use cardinal_evm.Prelude.{
  ℕ, ◌+◌, ◌*◌, ◌/◌, ◌≤◌, ◌≡◌, refl, arith, ltb, true, false, if◌then◌else◌, max_u64,
}
use cardinal_evm.State.Account.{Bytes}
use cardinal_evm.Vm.Common.{get_data}
use cardinal_evm.Vm.Contracts.Gas.{
  big, big_max, operands, exp_head, adjusted_exp_len, price_eip7883, price_eip2565, price_of,
  modexp_required_gas,
}

product_le : (a b c d : ℕ) → a ≤ b → c ≤ d → a * c ≤ b * d
product_le a b c d h k = omega (arith, mul-le-mul_left a k, mul-le-mul_right d h)

adjusted_le :
    (exp_len head : ℕ) → adjusted_exp_len false exp_len head ≤ adjusted_exp_len true exp_len head
unfolding adjusted_exp_len
adjusted_le exp_len head = ground arith

-- A product of words within 32 bytes is at most 16.
short_square : (w : ℕ) → w ≤ 4 → w * w ≤ 16
short_square w h = product_le w 4 w 4 h h

base_le : (len w : ℕ) → w ≡ (len + 7) / 8 → w * w ≤ (if ltb 32 len then w * w + w * w else 16)
base_le len w e = let le : w ≤ 4 → w * w ≤ 16 = short_square w in ground arith

total_le :
    (a b m n : ℕ) → a ≤ b → m ≤ n → (if ltb 1 m then a * m else a) ≤ (if ltb 1 n then b * n else b)
total_le a b m n h k =
    let products = product_le a b m n h k in let one = product_le a b 1 n h in ground arith

capped_le :
    (s t : ℕ)
    → s ≤ t
    → (if ltb max_u64 (s / 3) then max_u64 else big_max 200 (s / 3))
      ≤ (if ltb max_u64 t then max_u64 else big_max 500 t)
capped_le s t h = ground arith

price_le : (len m n : ℕ) → m ≤ n → price_eip2565 len m ≤ price_eip7883 len n
unfolding price_eip2565 price_eip7883
price_le len m n h = capped_le _ _ (total_le _ _ m n (base_le len ((len + 7) / 8) refl) h)

-- EIP-7883 (Osaka) never lowers the price of a modular exponentiation: on any input it is at least
-- the price by EIP-2565.
pub modexp_required_gas_le :
    (input : Bytes) → modexp_required_gas true false input ≤ modexp_required_gas true true input
unfolding modexp_required_gas price_of
modexp_required_gas_le input =
    let base_len = big (get_data input 0 32) in
    let exp_len = big (get_data input 32 32) in
    let head = exp_head (operands input) base_len exp_len in
    price_le (big_max (big (get_data input 64 32)) base_len) _ _ (adjusted_le exp_len head)
