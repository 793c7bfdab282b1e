-- ===== src/Vm/Math.antt =====
-- common/math/integer.go: arithmetic on uint64 that reports a wrap-around.
use cardinal_evm.Prelude.{ℕ, ◌+◌, ◌*◌, ◌/◌, ◌^◌, ◌<◌, ◌≡◌, arith, Bool, false}
use cardinal_evm.Prelude.{ltb, add64, sub64, mul64}

unfoldable pub safe_sub : ℕ → ℕ → ℕ × Bool
safe_sub x y = (sub64 x y, ltb x y)

unfoldable pub safe_add : ℕ → ℕ → ℕ × Bool
safe_add x y = (add64 x y, ltb 0 ((x + y) / 2 ^ 64))

unfoldable pub safe_mul : ℕ → ℕ → ℕ × Bool
safe_mul x y = (mul64 x y, ltb 0 (x * y / 2 ^ 64))

-- The flag of SafeAdd is false exactly when the sum fits, and then the result is the sum.
pub safe_add_exact :
    (x y : ℕ) → (safe_add x y).1 ≡ false → ((safe_add x y).0 ≡ x + y) × (x + y < 2 ^ 64)
unfolding safe_add
safe_add_exact x y h = ground arith

pub safe_mul_exact :
    (x y : ℕ) → (safe_mul x y).1 ≡ false → ((safe_mul x y).0 ≡ x * y) × (x * y < 2 ^ 64)
unfolding safe_mul
safe_mul_exact x y h = ground arith

pub safe_add_fits : (x y : ℕ) → x + y < 2 ^ 64 → safe_add x y ≡ (x + y, false)
unfolding safe_add
safe_add_fits x y h = ground arith

pub safe_mul_fits : (x y : ℕ) → x * y < 2 ^ 64 → safe_mul x y ≡ (x * y, false)
unfolding safe_mul
safe_mul_fits x y h = ground arith
