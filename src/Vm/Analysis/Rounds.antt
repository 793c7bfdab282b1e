-- ===== src/Vm/Analysis/Rounds.antt =====
-- The rounds of the loop of codeBitmap.
use cardinal_evm.Prelude.{
  ℕ, zero, suc, ◌≡◌, refl, arith, ◌+◌, ◌-◌, ◌≤◌, Option, none, some, List, [], ◌∷◌, length,
  get_elem?, ◌<◌, ltb, Bool, true, false, ◌||◌,
}
use cardinal_evm.Vm.Analysis.{
  Bitvec, push1, push32, mark16, mark8, mark_rest, mark_push, bitmap_loop, code_bitmap, after_push,
  round, new_bits,
}

abbrev Past : ℕ → Option (ℕ × Bitvec) → Type 0
Past pc none = Unit {0}
Past pc (some (next, bits)) = pc ≤ next

abbrev PastMarked : ℕ → Option (ℕ × ℕ × Bitvec) → Type 0
PastMarked pc none = Unit {0}
PastMarked pc (some (left, next, bits)) = pc ≤ next

mark16-PastMarked : (n numbits pc : ℕ) (bits : Bitvec) → PastMarked pc (mark16 n numbits pc bits)
unfolding mark16
mark16-PastMarked zero numbits pc bits = omega arith
mark16-PastMarked (suc n) numbits pc bits = grind (arith, mark16-PastMarked n)

mark8-PastMarked : (n numbits pc : ℕ) (bits : Bitvec) → PastMarked pc (mark8 n numbits pc bits)
unfolding mark8
mark8-PastMarked zero numbits pc bits = omega arith
mark8-PastMarked (suc n) numbits pc bits = grind (arith, mark8-PastMarked n)

mark_rest-Past : (numbits pc : ℕ) (bits : Bitvec) → Past pc (mark_rest numbits pc bits)
unfolding mark_rest
mark_rest-Past numbits pc bits = ground arith

mark_push-Past : (numbits pc : ℕ) (bits : Bitvec) → Past pc (mark_push numbits pc bits)
unfolding mark_push
mark_push-Past numbits pc bits =
    grind (arith, mark16-PastMarked 2 numbits pc bits, mark8-PastMarked 1, mark_rest-Past)

pub get_elem?_past : (xs : List ℕ) (i : ℕ) → length xs ≤ i → get_elem? xs i ≡ none
get_elem?_past [] i h = refl
get_elem?_past (x ∷ xs) zero h = absurd (omega arith)
get_elem?_past (x ∷ xs) (suc i) h = get_elem?_past xs i (omega arith)

-- With `n` as its bound, or a larger one, the loop is over, with the same bitmap or panic.
Ends : (ℕ → Option (Option Bitvec)) → ℕ → Type 0
Ends loop n = (r : Option Bitvec) × ((m : ℕ) → n ≤ m → loop m ≡ some r)

Ends-some : (r : Option Bitvec) (n : ℕ) → Ends (λ m. some r) n
unfolding Ends
Ends-some r n = (r, λ m le. refl)

after_push-Ends :
    (pc n : ℕ) (p : Option (ℕ × Bitvec)) (loop : ℕ → ℕ → Bitvec → Option (Option Bitvec))
    → ((next : ℕ) (b : Bitvec) → pc ≤ next → Ends (λ m. loop m next b) n)
    → Past pc p
    → Ends (λ m. after_push p (loop m)) n
after_push-Ends pc n none loop h past = Ends-some none n
after_push-Ends pc n (some (next, b)) loop h past = h next b past

round-Ends :
    (op : Option ℕ) (pc : ℕ) (bits : Bitvec) (n : ℕ)
    (loop : ℕ → ℕ → Bitvec → Option (Option Bitvec))
    → ((next : ℕ) (b : Bitvec) → pc + 1 ≤ next → Ends (λ m. loop m next b) n)
    → Ends (λ m. round op pc bits (loop m)) n
unfolding round
round-Ends none pc bits n loop h = Ends-some (some bits) n
round-Ends (some op) pc bits n loop h =
    choose (ltb op push1 || ltb push32 op) (h (pc + 1) bits (omega arith)) (
      after_push-Ends (pc + 1) n (mark_push (op - push1 + 1) (pc + 1) bits) loop h
        (mark_push-Past (op - push1 + 1) (pc + 1) bits))
  where
    choose :
        (t : Bool)
        → Ends (λ m. loop m (pc + 1) bits) n
        → Ends (λ m. after_push (mark_push (op - push1 + 1) (pc + 1) bits) (loop m)) n
        → Ends
            (λ m. elim t [
              | true ↦ loop m (pc + 1) bits
              | false ↦ after_push (mark_push (op - push1 + 1) (pc + 1) bits) (loop m)
            ])
            n
    choose true x y = x
    choose false x y = y

-- One more test of the condition.
tested :
    (code : List ℕ) (pc : ℕ) (bits : Bitvec) (n : ℕ)
    → Ends (λ m. bitmap_loop code (suc m) pc bits) n
    → Ends (λ m. bitmap_loop code m pc bits) (suc n)
unfolding Ends
tested code pc bits n (r, h) = (r, again)
  where
    again : (m : ℕ) → suc n ≤ m → bitmap_loop code m pc bits ≡ some r
    again zero le = absurd (omega arith)
    again (suc m) le = h m (omega arith)

rounds_enough :
    (code : List ℕ) (n pc : ℕ) (bits : Bitvec)
    → length code ≤ pc + n
    → Ends (λ m. bitmap_loop code m pc bits) (suc n)
unfolding bitmap_loop round
rounds_enough code zero pc bits h =
    tested code pc bits 0 (rw (get_elem?_past code pc (omega (arith, h))) (Ends-some (some bits) 0))
rounds_enough code (suc n) pc bits h = tested code pc bits (suc n) (
    round-Ends (get_elem? code pc) pc bits (suc n) (λ m next b. bitmap_loop code m next b)
      (λ next b past. rounds_enough code n next b (omega (arith, h, past))))

-- The loop of codeBitmap is over once its condition was tested one time more than the code has bytes:
-- with any larger bound on the tests too it ends, and answers what codeBitmap answers.
pub code_bitmap-ends :
    (code : List ℕ) (rounds : ℕ)
    → length code < rounds
    → bitmap_loop code rounds 0 (new_bits code) ≡ some (code_bitmap code)
unfolding code_bitmap Ends
code_bitmap-ends code rounds h =
    let (r, ends) = rounds_enough code (length code) 0 (new_bits code) (omega arith) in
    let here = ends (length code + 1) (omega arith) in
    rw (code_bitmap, here) (ends rounds (omega (arith, h)))
