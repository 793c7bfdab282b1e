-- ===== src/Vm/Stack.antt =====
-- vm/stack.go. The stack is the list of its items, top first; Go's slice has the top at its end.
-- `none` is the panic of an index out of range.
use cardinal_evm.Prelude.{
  ℕ, zero, suc, ◌-◌, ◌<◌, ◌≤◌, ◌≡◌, refl, sym, arith, ◌>>=◌, ◌==◌, if◌then◌else◌,
}
use cardinal_evm.Prelude.{Option, none, some, List, [], ◌∷◌, length, get_elem?, set}

abbrev pub Stack : Type 0
Stack = List ℕ

unfoldable pub push : Stack → ℕ → Stack
push st d = d ∷ st

unfoldable pub pop : Stack → Option (ℕ × Stack)
pop [] = none
pop (x ∷ st) = some (x, st)

unfoldable pub len : Stack → ℕ
len st = length st

-- Back(n), the n'th item from the top; peek is Back(0).
unfoldable pub back : Stack → ℕ → Option ℕ
back st n = get_elem? st n

unfoldable pub peek : Stack → Option ℕ
unfolding back
peek st = back st 0

exchange : Stack → ℕ → Option Stack
exchange st k = do x ← get_elem? st k; top ← get_elem? st 0; some (set (set st k top) 0 x)

-- swap(n) exchanges the top and `data[len - n]`, which stands n - 1 below it; n is at least 1.
unfoldable pub swap : Stack → ℕ → Option Stack
unfolding exchange
swap st n = exchange st (n - 1)

-- dup(n) pushes `data[len - n]`.
unfoldable pub dup : Stack → ℕ → Option Stack
unfolding push
dup st n = do x ← get_elem? st (n - 1); some (push st x)

get_elem?-total : (xs : List ℕ) (n : ℕ) → n < length xs → (x : ℕ) × (get_elem? xs n ≡ some x)
get_elem?-total [] n h = absurd (omega arith)
get_elem?-total (x ∷ xs) zero h = (x, refl)
get_elem?-total (x ∷ xs) (suc n) h = get_elem?-total xs n (omega arith)

exchange_once :
    (y : ℕ) (st : Stack) (n x : ℕ)
    → get_elem? st n ≡ some x
    → exchange (y ∷ st) (suc n) ≡ some (x ∷ set st n y)
unfolding exchange
exchange_once y st n x e = rw e refl

set_at :
    (xs : List ℕ) (k i v x : ℕ)
    → get_elem? xs k ≡ some x
    → get_elem? (set xs k v) i ≡ (if k == i then some v else get_elem? xs i)
set_at [] k i v x e = absurd (ground arith)
set_at (y ∷ xs) zero zero v x e = refl
set_at (y ∷ xs) zero (suc i) v x e = ground arith
set_at (y ∷ xs) (suc k) zero v x e = ground arith
set_at (y ∷ xs) (suc k) (suc i) v x e = ground (arith, set_at xs k i v x e)

-- The entries after an exchange of the top with the one `k` below it.
exchanged :
    (st : Stack) (k : ℕ)
    → k < length st
    → (t : Stack) × (exchange st k ≡ some t)
      × ((i : ℕ)
          → get_elem? t i ≡ (
              if i == 0 then get_elem? st k else if i == k then get_elem? st 0 else get_elem? st i))
exchanged [] k h = absurd (omega arith)
exchanged (y ∷ st) zero h = unfold exchange in (y ∷ st, refl, λ i. ground arith)
exchanged (y ∷ st) (suc n) h = (x ∷ set st n y, exchange_once y st n x got.1, entries)
  where
    got : (x : ℕ) × (get_elem? st n ≡ some x)
    got = get_elem?-total st n (omega arith)

    x : ℕ
    x = got.0

    entries :
        (i : ℕ)
        → get_elem? (x ∷ set st n y) i
          ≡ (if i == 0 then get_elem? st n else if i == suc n then some y else get_elem? (y ∷ st) i)
    entries zero = sym got.1
    entries (suc i) = ground (arith, set_at st n i y x got.1)

-- For 1 ≤ n ≤ length, swap(n) does not panic; afterwards Back of every index answers as before, but for
-- the top and the item n - 1 below it, which stand in each other's place.
pub back-swap :
    (st : Stack) (n : ℕ)
    → 1 ≤ n
    → n ≤ length st
    → (t : Stack) × (swap st n ≡ some t)
      × ((i : ℕ)
          → back t i
            ≡ (if i == 0 then back st (n - 1) else if i == n - 1 then back st 0 else back st i))
unfolding swap back
back-swap st n lo hi = exchanged st (n - 1) (omega arith)

-- After dup(n) within the stack, pop gives the n'th item and the stack before.
pub pop-dup :
    (st : Stack) (n : ℕ)
    → 1 ≤ n
    → n ≤ length st
    → (x : ℕ) × (t : Stack) × (back st (n - 1) ≡ some x)
      × (dup st n ≡ some t)
      × (pop t ≡ some (x, st))
unfolding dup back pop push
pop-dup st n lo hi =
    let got = get_elem?-total st (n - 1) (omega arith) in
    (got.0, got.0 ∷ st, got.1, rw got.1 refl, refl)
