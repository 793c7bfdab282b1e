-- ===== src/Vm/Memory.antt =====
-- vm/memory.go. A slice of memory is its list of bytes; `none` is a panic. Offsets and sizes are
-- uint64; GetCopy and GetPtr take them as int64 values that are not negative.
pub mod Overlap
use cardinal_evm.Prelude.{ℕ, zero, suc, ◌+◌, ◌-◌, ◌^◌, ◌<◌, ◌≤◌, ◌≡◌, refl, arith, leb, ltb, ◌==◌}
use cardinal_evm.Prelude.{
  if◌then◌else◌, ◌&&◌, false, Option, none, some, List, [], ◌∷◌, ◌++◌, length, take, drop,
}
use cardinal_evm.Prelude.{replicate, add64, Bool-cases, inl, inr, ap, ◌⊎◌, get_elem?, true}

pub record Memory : Type 0 where
  pub store : List ℕ
  pub last_gas_cost : ℕ

unfoldable pub new_memory : Memory
new_memory = record { store = []; last_gas_cost = 0 }

unfoldable pub len : Memory → ℕ
len m = length m.store

-- Go's copy into `store[offset:]`: as many bytes as both sides have.
abbrev pub overwrite : List ℕ → List ℕ → List ℕ
overwrite [] value = []
overwrite (x ∷ xs) [] = x ∷ xs
overwrite (x ∷ xs) (v ∷ vs) = v ∷ overwrite xs vs

abbrev pub copy_at : List ℕ → ℕ → List ℕ → List ℕ
copy_at xs offset value = take offset xs ++ overwrite (drop offset xs) value

-- store[offset : offset + size]
abbrev pub slice : List ℕ → ℕ → ℕ → List ℕ
slice xs offset size = take size (drop offset xs)

-- Set, whose test wraps; the slice expression panics if `offset` stands above its end.
unfoldable pub set : Memory → ℕ → ℕ → List ℕ → Option Memory
set m offset size value =
    if ltb 0 size
    then if ltb (length m.store) (add64 offset size)
      then none
      else if ltb (add64 offset size) offset
      then none
      else some (record m { store = copy_at m.store offset (take size value) })
    else some m

-- Set32: `bytes` are the 32 bytes of the value. The zeroes that it writes first are all overwritten.
unfoldable pub set32 : Memory → ℕ → List ℕ → Option Memory
set32 m offset bytes =
    if ltb (length m.store) (add64 offset 32)
    then none
    else if ltb (add64 offset 32) offset
    then none
    else let zeroed = copy_at m.store offset (replicate 32 0) in
      some (record m { store = copy_at zeroed offset bytes })

unfoldable pub resize : Memory → ℕ → Memory
resize m size =
    if ltb (length m.store) size
    then record m { store = m.store ++ replicate (size - length m.store) 0 }
    else m

-- GetCopy and GetPtr: nothing for an empty range or an offset past the end. Where the range passes the
-- end, Go reaches into the spare capacity of the slice or panics; both count as a panic here.
unfoldable pub get_ptr : Memory → ℕ → ℕ → Option (List ℕ)
get_ptr m offset size =
    if size == 0
    then some []
    else if ltb offset (length m.store)
    then (if leb (offset + size) (length m.store) then some (slice m.store offset size) else none)
    else some []

unfoldable pub get_copy : Memory → ℕ → ℕ → Option (List ℕ)
unfolding get_ptr
get_copy m offset size = get_ptr m offset size

-- Copy: the source is read as a whole before it is written, so the two may overlap. A source that
-- passes the end counts as a panic here too.
unfoldable pub copy : Memory → ℕ → ℕ → ℕ → Option Memory
copy m dst src size =
    if size == 0
    then some m
    else if leb dst (length m.store)
        && leb src (add64 src size)
        && leb (add64 src size) (length m.store)
    then some (record m { store = copy_at m.store dst (slice m.store src size) })
    else none

length-overwrite : (xs vs : List ℕ) → length (overwrite xs vs) ≡ length xs
length-overwrite [] vs = refl
length-overwrite (x ∷ xs) [] = refl
length-overwrite (x ∷ xs) (v ∷ vs) = ap suc (length-overwrite xs vs)

pub length-copy_at : (xs : List ℕ) (n : ℕ) (vs : List ℕ) → length (copy_at xs n vs) ≡ length xs
length-copy_at xs zero vs = length-overwrite xs vs
length-copy_at [] (suc n) vs = refl
length-copy_at (x ∷ xs) (suc n) vs = ap suc (length-copy_at xs n vs)

take-overwrite : (xs vs : List ℕ) → length vs ≤ length xs → take (length vs) (overwrite xs vs) ≡ vs
take-overwrite xs [] h = refl
take-overwrite [] (v ∷ vs) h = absurd (omega arith)
take-overwrite (x ∷ xs) (v ∷ vs) h = ap (◌∷◌ v) (take-overwrite xs vs (omega arith))

slice-copy_at :
    (xs : List ℕ) (n : ℕ) (vs : List ℕ)
    → n + length vs ≤ length xs
    → slice (copy_at xs n vs) n (length vs) ≡ vs
slice-copy_at xs zero vs h = take-overwrite xs vs (omega arith)
slice-copy_at [] (suc n) vs h = absurd (omega arith)
slice-copy_at (x ∷ xs) (suc n) vs h = slice-copy_at xs n vs (omega arith)

get_elem?-overwrite_past :
    (xs vs : List ℕ) (i : ℕ) → length vs ≤ i → get_elem? (overwrite xs vs) i ≡ get_elem? xs i
get_elem?-overwrite_past [] vs i h = refl
get_elem?-overwrite_past (x ∷ xs) [] i h = refl
get_elem?-overwrite_past (x ∷ xs) (v ∷ vs) zero h = absurd (omega arith)
get_elem?-overwrite_past (x ∷ xs) (v ∷ vs) (suc i) h =
    get_elem?-overwrite_past xs vs i (omega arith)

get_elem?-copy_at :
    (xs : List ℕ) (n : ℕ) (vs : List ℕ) (i : ℕ)
    → (i < n) ⊎ (n + length vs ≤ i)
    → get_elem? (copy_at xs n vs) i ≡ get_elem? xs i
get_elem?-copy_at xs zero vs i h = get_elem?-overwrite_past xs vs i (omega arith)
get_elem?-copy_at [] (suc n) vs i h = refl
get_elem?-copy_at (x ∷ xs) (suc n) vs zero h = refl
get_elem?-copy_at (x ∷ xs) (suc n) vs (suc i) h = get_elem?-copy_at xs n vs i (omega arith)

take_all : (vs : List ℕ) → take (length vs) vs ≡ vs
take_all [] = refl
take_all (v ∷ vs) = ap (◌∷◌ v) (take_all vs)

-- The byte at an index outside a range, where there is one.
unfoldable pub elsewhere : Memory → ℕ → ℕ → ℕ → Option ℕ
elsewhere m offset l i = if leb offset i && ltb i (offset + l) then none else get_elem? m.store i

-- A write of a value of the written size inside the memory does not panic and keeps the size of the
-- memory and the gas paid for it; GetCopy of the range then reads the value back, and every byte
-- outside the range is as before.
pub get_copy-set :
    (m : Memory) (offset : ℕ) (value : List ℕ)
    → 0 < length value
    → offset + length value ≤ length m.store
    → length m.store < 2 ^ 64
    → (n : Memory) × (set m offset (length value) value ≡ some n)
      × (len n ≡ len m)
      × (n.last_gas_cost ≡ m.last_gas_cost)
      × (get_copy n offset (length value) ≡ some value)
      × ((i : ℕ) → elsewhere n offset (length value) i ≡ elsewhere m offset (length value) i)
unfolding set get_copy len elsewhere
get_copy-set m offset value pos fits small =
    let store = copy_at m.store offset value in
    let kept = length-copy_at m.store offset value in
    let inside : ltb offset (length store) ≡ true = rw kept (ground arith) in
    let ends : leb (offset + length value) (length store) ≡ true = rw kept (ground arith) in
    let some_bytes : (length value == 0) ≡ false = ground arith in
    (
      record m { store = store },
      written,
      kept,
      refl,
      rw (some_bytes, inside, ends) (ap some (slice-copy_at m.store offset value fits)),
      same_elsewhere,
    )
  where
    same_elsewhere :
        (i : ℕ)
        → elsewhere (record m { store = copy_at m.store offset value }) offset (length value) i
          ≡ elsewhere m offset (length value) i
    same_elsewhere i = elim (Bool-cases (leb offset i && ltb i (offset + length value))) [
      | inl within ↦ rw within refl
      | inr outside ↦ rw outside (get_elem?-copy_at m.store offset value i (ground arith))
    ]

    written :
        set m offset (length value) value ≡ some (record m { store = copy_at m.store offset value })
    written =
        let a : ltb 0 (length value) ≡ true = ground arith in
        let b : ltb (length m.store) (add64 offset (length value)) ≡ false = ground arith in
        let c : ltb (add64 offset (length value)) offset ≡ false = ground arith in
        rw (a, b, c, take_all value) refl
