-- ===== src/Vm/Uint256.antt =====
-- holiman/uint256: a 256-bit number is the number that it stands for. The methods that the vm
-- package calls are parameters, with the behaviour that the library documents.
use cardinal_evm.Prelude.{ℕ, ◌%◌, ◌^◌, ◌<◌, ◌≤◌, ◌≡◌, Bool, ltb, ◌==◌, not}

-- `uint64` is Uint64() (the low 64 bits), `bytes20` and `bytes32` the address and the hash that the
-- last 20 and the 32 bytes spell.
pub record Uint256 : Type 0 where
  pub is_uint64 : ℕ → Bool
  pub uint64 : ℕ → ℕ
  pub gt : ℕ → ℕ → Bool
  pub is_zero : ℕ → Bool
  pub bit_len : ℕ → ℕ
  pub bytes20 : ℕ → ℕ
  pub bytes32 : ℕ → ℕ
  pub is_uint64_lem : (x : ℕ) → is_uint64 x ≡ ltb x (2 ^ 64)
  pub uint64_lem : (x : ℕ) → uint64 x ≡ x % 2 ^ 64
  pub gt_lem : (x y : ℕ) → gt x y ≡ ltb y x
  pub is_zero_lem : (x : ℕ) → is_zero x ≡ (x == 0)
  pub bit_len-le : (x : ℕ) → x < 2 ^ 256 → bit_len x ≤ 256
  pub bytes32_lem : (x : ℕ) → x < 2 ^ 256 → bytes32 x ≡ x

-- Uint64WithOverflow()
abbrev pub uint64_overflows : Uint256 → ℕ → Bool
uint64_overflows u x = not (u.is_uint64 x)
