-- ===== src/Vm/Memory/Overlap.antt =====
-- Memory.Copy (MCOPY) where source and destination may overlap.
use cardinal_evm.Prelude.{
  ℕ, zero, suc, ◌+◌, ◌^◌, ◌<◌, ◌≤◌, ◌≡◌, refl, arith, leb, ltb, ◌==◌, ◌&&◌, true, false,
}
use cardinal_evm.Prelude.{
  some, List, [], ◌∷◌, length, take, add64, Bool-cases, inl, inr, ap, ◌∙◌, sym,
}
use cardinal_evm.Vm.Memory.{
  Memory, len, copy, get_copy, get_ptr, elsewhere, slice, copy_at, length-copy_at,
}
use cardinal_evm.Vm.Memory.{slice-copy_at, get_elem?-copy_at}

length-take : (xs : List ℕ) (n : ℕ) → n ≤ length xs → length (take n xs) ≡ n
length-take xs zero h = refl
length-take [] (suc n) h = absurd (omega arith)
length-take (x ∷ xs) (suc n) h = ap suc (length-take xs n (omega arith))

length-slice : (xs : List ℕ) (n l : ℕ) → n + l ≤ length xs → length (slice xs n l) ≡ l
length-slice xs zero l h = length-take xs l (omega arith)
length-slice [] (suc n) l h = length-take [] l (omega arith)
length-slice (x ∷ xs) (suc n) l h = length-slice xs n l (omega arith)

-- For ranges of `l` bytes, not none, inside the memory, which may overlap, Copy does not panic and keeps
-- the size of the memory; the destination then reads as the source did before, and every byte outside
-- the destination is as before.
pub get_copy-copy :
    (m : Memory) (dst src l : ℕ)
    → 0 < l
    → dst + l ≤ len m
    → src + l ≤ len m
    → len m < 2 ^ 64
    → (n : Memory) × (copy m dst src l ≡ some n)
      × (len n ≡ len m)
      × (get_copy n dst l ≡ get_copy m src l)
      × ((i : ℕ) → elsewhere n dst l i ≡ elsewhere m dst l i)
unfolding copy get_copy get_ptr len elsewhere
get_copy-copy m dst src l pos into from small =
    let moved = slice m.store src l in
    let size = length-slice m.store src l from in
    let kept = length-copy_at m.store dst moved in
    let some_bytes : (l == 0) ≡ false = ground arith in
    let a : leb dst (length m.store) ≡ true = ground arith in
    let b : leb src (add64 src l) ≡ true = ground arith in
    let c : leb (add64 src l) (length m.store) ≡ true = ground arith in
    (
      record m { store = copy_at m.store dst moved },
      rw (some_bytes, a, b, c) refl,
      kept,
      reads some_bytes kept size,
      same_elsewhere size,
    )
  where
    reads :
        (l == 0) ≡ false
        → length (copy_at m.store dst (slice m.store src l)) ≡ length m.store
        → length (slice m.store src l) ≡ l
        → get_copy (record m { store = copy_at m.store dst (slice m.store src l) }) dst l
          ≡ get_copy m src l
    reads some_bytes kept size =
        let p : ltb dst (length m.store) ≡ true = ground arith in
        let q : leb (dst + l) (length m.store) ≡ true = ground arith in
        let r : ltb src (length m.store) ≡ true = ground arith in
        let t : leb (src + l) (length m.store) ≡ true = ground arith in
        let read_back = slice-copy_at m.store dst (slice m.store src l) (rw size into) in
        rw (some_bytes, kept, p, q, r, t)
          (ap some
            (ap (slice (copy_at m.store dst (slice m.store src l)) dst) (sym size) ∙ read_back))

    same_elsewhere :
        length (slice m.store src l) ≡ l
        → (i : ℕ)
        → elsewhere (record m { store = copy_at m.store dst (slice m.store src l) }) dst l i
          ≡ elsewhere m dst l i
    same_elsewhere size i = elim (Bool-cases (leb dst i && ltb i (dst + l))) [
      | inl within ↦ rw within refl
      | inr outside ↦
          rw outside
            (get_elem?-copy_at m.store dst (slice m.store src l) i (rw size (ground arith)))
    ]
