-- ===== src/Blob/Exponential.antt =====
-- The loop of fakeExponential (eips/eip4844/eip.go).
use cardinal_evm.Prelude.{
  ℕ, zero, suc, ◌+◌, ◌*◌, ◌/◌, ◌<◌, ◌≤◌, ◌≡◌, ◌==◌, none, ◌∙◌, sym, refl, arith, ltb, Bool, true,
  false, Bool-cases, inl, inr, Option, some, if◌then◌else◌,
}
use native.Mathlib.Nat.{
  div-div-eq-div-mul, div-lt_iff_lt-mul, mul-lt-mul_of_pos_left, lt-mul-div-succ, mul-div_cancel,
  div-mul-le_self, le-div_iff_mul-le,
}
use cardinal_evm.Blob.{exponential_loop, fake_exponential}

-- Past numerator / denominator, each term is less than the one before.
next-falls :
    (numerator denominator i accum : ℕ)
    → 0 < accum
    → numerator < denominator * i
    → accum * numerator / denominator / i < accum
next-falls numerator denominator i accum a past =
    rw (div-div-eq-div-mul (accum * numerator) denominator i)
      ((div-lt_iff_lt-mul (omega (arith, past))).1 (mul-lt-mul_of_pos_left past a))

div_mono : (a b d : ℕ) → 0 < d → a ≤ b → a / d ≤ b / d
div_mono a b d pos le = (le-div_iff_mul-le pos).1 (omega (arith, div-mul-le_self a d, le))

zero-add : (n : ℕ) → 0 + n ≡ n
zero-add n = omega arith

cond-true : {t : Bool} (a b : Option ℕ) → t ≡ true → (if t then a else b) ≡ a
cond-true a b e = rw e refl

cond-false : {t : Bool} (a b : Option ℕ) → t ≡ false → (if t then a else b) ≡ b
cond-false a b e = rw e refl

-- How many rounds are enough, and what the loop answers with them.
abbrev Returns : ℕ → ℕ → ℕ → ℕ → ℕ → Type 0
Returns numerator denominator i accum output =
    (fuel : ℕ) × (answer : ℕ) × (exponential_loop fuel numerator denominator i accum output
      ≡ some answer)
    × ((output + accum) / denominator ≤ answer)

round-Returns :
    (numerator denominator i accum output : ℕ)
    → 0 < denominator
    → (0 < accum
        → Returns numerator denominator
            (i + 1)
            (accum * numerator / denominator / i)
            (output + accum))
    → Returns numerator denominator i accum output
unfolding exponential_loop
round-Returns numerator denominator i accum output d more = elim (Bool-cases (ltb 0 accum)) [
  | inl goes ↦
      let positive : 0 < accum = ground arith in
      let (fuel, answer, e, least) = more positive in
      let sum : output + accum ≤ output + accum + accum * numerator / denominator / i =
        omega arith in
      let bound = div_mono _ _ denominator d sum in
      (suc fuel, answer, rw goes e, omega (arith, least, bound))
  | inr ends ↦
      let nothing : output + accum ≤ output = ground arith in
      (1, output / denominator, rw ends refl, div_mono _ _ denominator d nothing)
]

-- The terms that are left once each is less than the one before: `bound` is above the next one.
falling-Returns :
    (numerator denominator bound i accum output : ℕ)
    → 0 < denominator
    → numerator < denominator * i
    → accum < bound
    → Returns numerator denominator i accum output
falling-Returns numerator denominator zero i accum output d past b = absurd (omega arith)
falling-Returns numerator denominator (suc bound) i accum output d past b =
    round-Returns numerator denominator i accum output d (λ positive.
      falling-Returns numerator denominator bound (i + 1) _ _ d (ground arith)
        (omega (arith, next-falls numerator denominator i accum positive past, b)))

-- The terms before: `steps` of them until the index is `k`, which is above numerator / denominator.
rising-Returns :
    (numerator denominator k steps i accum output : ℕ)
    → 0 < denominator
    → numerator < denominator * k
    → i + steps ≡ k
    → Returns numerator denominator i accum output
rising-Returns numerator denominator k zero i accum output d past e =
    let here : i ≡ k = omega (arith, e) in
    falling-Returns numerator denominator (accum + 1) i accum output d (rw here past) (omega arith)
rising-Returns numerator denominator k (suc steps) i accum output d past e =
    round-Returns numerator denominator i accum output d (λ positive.
      rising-Returns numerator denominator k steps (i + 1) _ _ d past (omega (arith, e)))

-- More rounds do not change the answer.
more_rounds :
    (fuel more numerator denominator i accum output answer : ℕ)
    → exponential_loop fuel numerator denominator i accum output ≡ some answer
    → exponential_loop (fuel + more) numerator denominator i accum output ≡ some answer
unfolding exponential_loop
more_rounds zero more numerator denominator i accum output answer e = absurd (ground arith)
more_rounds (suc fuel) more numerator denominator i accum output answer e =
    let shift : suc fuel + more ≡ suc (fuel + more) = omega arith in
    rw shift (elim (Bool-cases (ltb 0 accum)) [
      | inl goes ↦ rw goes (
          more_rounds fuel more numerator denominator (i + 1) _ _ answer
            (sym (cond-true _ _ goes) ∙ e))
      | inr ends ↦ rw ends (sym (cond-false _ _ ends) ∙ e)
    ])

positive_denominator :
    (fuel factor numerator denominator : ℕ)
    → 0 < denominator
    → fake_exponential fuel factor numerator denominator
      ≡ exponential_loop fuel numerator denominator 1 (factor * denominator) 0
unfolding fake_exponential
positive_denominator fuel factor numerator denominator d =
    let nonzero : (denominator == 0) ≡ false = ground arith in cond-false none _ nonzero

-- fakeExponential ends, whatever the factor and the numerator, where the denominator is positive: there
-- is a number of rounds from which on it answers, always the same, and at least the factor.
pub fake_exponential-returns :
    (factor numerator denominator : ℕ)
    → 0 < denominator
    → (fuel : ℕ) × (answer : ℕ) × ((more : ℕ)
        → fake_exponential (fuel + more) factor numerator denominator ≡ some answer)
      × (factor ≤ answer)
fake_exponential-returns factor numerator denominator d =
    let (fuel, answer, e, least) =
      rising-Returns numerator denominator (numerator / denominator + 1) (numerator / denominator) 1
        (factor * denominator) 0 d (lt-mul-div-succ numerator d) (omega arith) in
    let start : (0 + factor * denominator) / denominator ≡ factor =
      rw (zero-add (factor * denominator)) (mul-div_cancel factor d) in
    (
      fuel,
      answer,
      λ more.
          positive_denominator (fuel + more) factor numerator denominator d
          ∙ more_rounds fuel more numerator denominator 1 _ 0 answer e,
      omega (arith, least, start),
    )
