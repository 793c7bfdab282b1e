-- ===== src/Blob/Excess.antt =====
-- The excess blob gas of the next block (eips/eip4844/eip.go).
use cardinal_evm.Prelude.{
  ℕ, ◌+◌, ◌-◌, ◌*◌, ◌/◌, ◌^◌, ◌≤◌, ◌<◌, ◌≡◌, refl, arith, ltb, ◌==◌, Bool, true, false, Bool-cases,
  inl, inr, Option, some, IsU64, add64, sub64, mul64,
}
use native.Mathlib.Nat.{mul-le-mul_left, mul_comm, mod-eq_of_lt, div-le_of_le-mul}
use cardinal_evm.Blob.Exponential.{fake_exponential-returns}
use cardinal_evm.Blob.{
  BlobConfig, Header, blob_price, calc_excess_blob_gas, reserved_excess, scaled_excess,
  blob_base_fee, blob_tx_min_blob_gasprice, parent_excess, parent_used, blob_base_cost,
  blob_tx_blob_gas_per_blob,
}

-- The share of EIP-7918 in the gas used: nothing wraps, and it is at most the gas used.
scaled_excess-le :
    (c : BlobConfig) (used : ℕ)
    → c.target ≤ c.max
    → 0 < c.max
    → IsU64 (used * c.max)
    → IsU64 c.max
    → (share : ℕ) × (scaled_excess c used ≡ some share) × (share ≤ used)
unfolding scaled_excess
scaled_excess-le c used le pos u v =
    let some_left : (c.max == 0) ≡ false = ground arith in
    let difference : sub64 c.max c.target ≡ c.max - c.target = omega (arith, le, v) in
    let part : used * (c.max - c.target) ≤ used * c.max = mul-le-mul_left used (omega arith) in
    let fits : mul64 used (c.max - c.target) ≡ used * (c.max - c.target) =
      mod-eq_of_lt (omega (arith, part, u)) in
    (
      used * (c.max - c.target) / c.max,
      rw (some_left, difference, fits) refl,
      div-le_of_le-mul c.max (rw (mul_comm c.max used) part),
    )

-- Before Osaka, where nothing overflows, the excess grows by the gas used above the target, and shrinks
-- to 0 at the least: it is the larger of 0 and parent's excess + gas used - target.
pub calc_excess-difference :
    (fuel : ℕ) (c : BlobConfig) (parent : Header)
    → IsU64 (parent_excess parent + parent_used parent)
    → IsU64 (c.target * 2 ^ 17)
    → calc_excess_blob_gas fuel false c parent
      ≡ some (parent_excess parent + parent_used parent - c.target * 2 ^ 17)
unfolding calc_excess_blob_gas
calc_excess-difference fuel c parent u v = ground arith

-- An answer for every fuel from some number on, and its bound.
abbrev pub AnswersUpTo : ℕ → (ℕ → Option ℕ) → Type 0
AnswersUpTo n f = (fuel : ℕ) × (x : ℕ) × ((more : ℕ) → f (fuel + more) ≡ some x) × (x ≤ n)

blob_price-returns :
    (c : BlobConfig) (excess : ℕ)
    → 0 < c.update_fraction
    → (fuel : ℕ) × (price : ℕ) × ((more : ℕ) → blob_price (fuel + more) c excess ≡ some price)
unfolding blob_price blob_base_fee
blob_price-returns c excess pos =
    let (fuel, f, e, least) =
      fake_exponential-returns blob_tx_min_blob_gasprice excess c.update_fraction pos in
    (fuel, f * blob_tx_blob_gas_per_blob, λ more. rw (e more) refl)

-- What reserved_excess answers where the excess is not below the target.
reserved_excess-le :
    (c : BlobConfig) (parent : Header) (price : ℕ)
    → c.target ≤ c.max
    → 0 < c.max
    → IsU64 c.max
    → IsU64 (parent_excess parent + parent_used parent)
    → IsU64 (parent_used parent * c.max)
    → mul64 c.target blob_tx_blob_gas_per_blob ≤ parent_excess parent + parent_used parent
    → (x : ℕ) × (reserved_excess c parent price ≡ some x)
      × (x ≤ parent_excess parent + parent_used parent)
unfolding reserved_excess
reserved_excess-le c parent price le pos m u v above =
    let (share, e, small) = scaled_excess-le c (parent_used parent) le pos v m in
    elim (Bool-cases (ltb price (blob_base_cost * parent.base_fee))) [
      | inl low ↦ (add64 (parent_excess parent) share, rw (low, e) refl, omega (arith, u, small))
      | inr high ↦ (
        sub64 (add64 (parent_excess parent) (parent_used parent))
            (mul64 c.target blob_tx_blob_gas_per_blob),
        rw high refl,
        omega (arith, u, above),
      )
    ]

-- Where nothing overflows, the target is not above a positive maximum, and the update fraction is
-- positive: by either formula there is a number of rounds of fakeExponential from which on
-- calcExcessBlobGas answers, always the same, and at most the parent's excess and gas used together.
pub calc_excess-AnswersUpTo :
    (is_osaka : Bool) (c : BlobConfig) (parent : Header)
    → c.target ≤ c.max
    → 0 < c.max
    → 0 < c.update_fraction
    → IsU64 c.max
    → IsU64 (parent_excess parent + parent_used parent)
    → IsU64 (parent_used parent * c.max)
    → AnswersUpTo
        (parent_excess parent + parent_used parent)
        (λ fuel. calc_excess_blob_gas fuel is_osaka c parent)
unfolding calc_excess_blob_gas
calc_excess-AnswersUpTo is_osaka c parent le pos fraction m u v =
    let excess = add64 (parent_excess parent) (parent_used parent) in
    let target_gas = mul64 c.target blob_tx_blob_gas_per_blob in
    elim (Bool-cases (ltb excess target_gas)) [
      | inl below ↦ (0, 0, λ more. ground arith, omega arith)
      | inr above ↦
          let enough : target_gas ≤ parent_excess parent + parent_used parent = ground arith in
          after is_osaka above enough
    ]
  where
    after :
        (t : Bool)
        → ltb
            (add64 (parent_excess parent) (parent_used parent))
            (mul64 c.target blob_tx_blob_gas_per_blob)
          ≡ false
        → mul64 c.target blob_tx_blob_gas_per_blob ≤ parent_excess parent + parent_used parent
        → AnswersUpTo
            (parent_excess parent + parent_used parent)
            (λ fuel. calc_excess_blob_gas fuel t c parent)
    after false above enough = (
      0,
      sub64 (add64 (parent_excess parent) (parent_used parent))
          (mul64 c.target blob_tx_blob_gas_per_blob),
      λ more. rw above refl,
      omega (arith, u, enough),
    )
    after true above enough =
        let (fuel, price, e) = blob_price-returns c (parent_excess parent) fraction in
        let (x, answers, small) = reserved_excess-le c parent price le pos m u v enough in
        (fuel, x, λ more. rw (above, e more) answers, small)
