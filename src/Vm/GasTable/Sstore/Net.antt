-- ===== src/Vm/GasTable/Sstore/Net.antt =====
-- A charge for each storage cell, and a counter that covers the charges of all cells: sums over lists
-- of distinct cells.
use cardinal_evm.Prelude.{ℕ, ◌+◌, ◌≤◌, ◌≡◌, refl, arith, ◌==◌, ◌&&◌, ◌||◌, Bool, true, false}
use cardinal_evm.Prelude.{List, [], ◌∷◌, Bool-cases, inl, inr}
use cardinal_evm.State.Account.{Address, Hash}

abbrev pub Cells : Type 0
Cells = List (Address × Hash)

abbrev pub same_cell : Address → Hash → Address → Hash → Bool
same_cell a k c j = (a == c) && (k == j)

abbrev pub member : Address → Hash → Cells → Bool
member a k [] = false
member a k ((c, j) ∷ l) = same_cell a k c j || member a k l

abbrev pub IsDistinct : Cells → Type 0
IsDistinct [] = Unit {0}
IsDistinct ((a, k) ∷ l) = (member a k l ≡ false) × IsDistinct l

unfoldable pub sum : (Address → Hash → ℕ) → Cells → ℕ
sum f [] = 0
sum f ((a, k) ∷ l) = f a k + sum f l

-- The counter covers the charges of any distinct cells.
pub record Covers (f : Address → Hash → ℕ) (r : ℕ) : Type 0 where
  pub covered : (l : Cells) → IsDistinct l → sum f l ≤ r

module _ (f g : Address → Hash → ℕ) (a : Address) (k : Hash)
    (others : (c : Address) (j : Hash) → same_cell a k c j ≡ false → g c j ≡ f c j) where
  sum_elsewhere : (l : Cells) → member a k l ≡ false → sum g l ≡ sum f l
  unfolding sum
  sum_elsewhere [] h = refl
  sum_elsewhere ((c, j) ∷ l) h =
      omega (arith, others c j (ground arith), sum_elsewhere l (ground arith))

  here : (c : Address) (j : Hash) → same_cell a k c j ≡ true → (f c j ≡ f a k) × (g c j ≡ g a k)
  here c j h =
      let e : a ≡ c = ground arith in let e' : k ≡ j = ground arith in rw (e, e') (refl, refl)

  sum_at : (l : Cells) → IsDistinct l → member a k l ≡ true → sum g l + f a k ≡ sum f l + g a k
  unfolding sum
  sum_at [] d h = cc
  sum_at ((c, j) ∷ l) (fresh, d) h = elim (Bool-cases (same_cell a k c j)) [
    | inl same ↦ omega (arith, here c j same, sum_elsewhere l (gone c j l same fresh))
    | inr other ↦ omega (arith, others c j other, sum_at l d (ground arith))
  ]
    where
      gone :
          (c : Address) (j : Hash) (l : Cells)
          → same_cell a k c j ≡ true
          → member c j l ≡ false
          → member a k l ≡ false
      gone c j l same fresh =
          let e : a ≡ c = ground arith in let e' : k ≡ j = ground arith in rw (e, e') fresh

  -- One cell's charge changes, and the counter by at least as much.
  pub Covers-change : (r s : ℕ) → r + g a k ≤ s + f a k → Covers f r → Covers g s
  unfolding sum
  Covers-change r s more h = record {
    covered = λ l d. elim (Bool-cases (member a k l)) [
      | inl listed ↦ omega (arith, sum_at l d listed, h.covered l d)
      | inr fresh ↦ omega (arith, sum_elsewhere l fresh, h.covered ((a, k) ∷ l) (fresh, d))
    ];
  }

pub covered_one : (f : Address → Hash → ℕ) (r : ℕ) (a : Address) (k : Hash) → Covers f r → f a k ≤ r
unfolding sum
covered_one f r a k h = omega (arith, h.covered ((a, k) ∷ []) (refl, tt))
