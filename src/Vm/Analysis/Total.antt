-- ===== src/Vm/Analysis/Total.antt =====
-- The five spare bytes of the bitmap (vm/analysis.go, codeBitmap).
use cardinal_evm.Prelude.{
  ℕ, zero, suc, ◌≡◌, Bool-cases, inl, inr, ◌⊎◌, refl, ap, arith, subst, ◌∙◌, ◌+◌, ◌-◌, ◌/◌, ◌%◌,
  ◌^◌, ◌*◌, ◌==◌, ◌≤◌, ◌<◌, ltb, Bool, true, false, ◌||◌, Option, none, some, ◌>>=◌, List, [], ◌∷◌,
  length, get_elem?, set, length-set, replicate, if◌then◌else◌,
}
use cardinal_evm.Vm.Analysis.Rounds.{get_elem?_past}
use cardinal_evm.Vm.Analysis.{
  Bitvec, push1, push32, change, set1, set_n, set8, set16, mark16, mark8, mark_rest, mark_push,
  bitmap_loop, code_bitmap, after_push, round, new_bits,
}

found : (xs : List ℕ) (i : ℕ) → i < length xs → (x : ℕ) × (get_elem? xs i ≡ some x)
found [] i h = absurd (omega arith)
found (x ∷ xs) zero h = (x, refl)
found (x ∷ xs) (suc i) h = found xs i (omega arith)

-- A bitmap of `size` bytes, and no panic.
Sized : ℕ → Option Bitvec → Type 0
Sized size o = (bits : Bitvec) × (o ≡ some bits) × (length bits ≡ size)

bind-Sized :
    (size : ℕ) (o : Option Bitvec) (f : Bitvec → Option Bitvec)
    → Sized size o
    → ((bits : Bitvec) → length bits ≡ size → Sized size (f bits))
    → Sized size (o >>= f)
unfolding Sized
bind-Sized size o f (bits, e, n) h = rw e (h bits n)

change-Sized :
    (size : ℕ) (bits : Bitvec) (i : ℕ) (f : ℕ → ℕ)
    → length bits ≡ size
    → i < size
    → Sized size (change bits i f)
unfolding Sized
change-Sized size bits i f n h =
    let (x, e) = found bits i (omega (arith, n, h)) in
    (set bits i (f x), rw e refl, length-set bits i (f x) ∙ n)

set1-Sized :
    (size : ℕ) (bits : Bitvec) (pos : ℕ)
    → length bits ≡ size
    → pos / 8 < size
    → Sized size (set1 bits pos)
unfolding set1
set1-Sized size bits pos n h = change-Sized size bits (pos / 8) _ n h

set_n-Sized :
    (size : ℕ) (bits : Bitvec) (flag pos : ℕ)
    → length bits ≡ size
    → pos / 8 + 1 < size
    → Sized size (set_n bits flag pos)
unfolding set_n
set_n-Sized size bits flag pos n h =
    bind-Sized size _ _ (change-Sized size bits (pos / 8) _ n (omega (arith, h)))
      (λ b k. either (flag * 2 ^ (pos % 8) % 2 ^ 16 / 2 ^ 8 == 0) b k)
  where
    either :
        (t : Bool) (b : Bitvec)
        → length b ≡ size
        → Sized size (
            if t
            then some b
            else change b (pos / 8 + 1) (λ x. flag * 2 ^ (pos % 8) % 2 ^ 16 / 2 ^ 8))
    either true b k = unfold Sized in (b, refl, k)
    either false b k = change-Sized size b (pos / 8 + 1) _ k h

set8-Sized :
    (size : ℕ) (bits : Bitvec) (pos : ℕ)
    → length bits ≡ size
    → pos / 8 + 1 < size
    → Sized size (set8 bits pos)
unfolding set8
set8-Sized size bits pos n h =
    bind-Sized size _ _ (change-Sized size bits (pos / 8) _ n (omega (arith, h)))
      (λ b k. change-Sized size b (pos / 8 + 1) _ k h)

set16-Sized :
    (size : ℕ) (bits : Bitvec) (pos : ℕ)
    → length bits ≡ size
    → pos / 8 + 2 < size
    → Sized size (set16 bits pos)
unfolding set16
set16-Sized size bits pos n h =
    bind-Sized size _ _ (change-Sized size bits (pos / 8) _ n (omega (arith, h))) (λ b k.
      bind-Sized size _ _ (change-Sized size b (pos / 8 + 1) _ k (omega (arith, h)))
        (λ b' k'. change-Sized size b' (pos / 8 + 2) _ k' h))

-- `numbits` bits from `pc` on, of which fewer than `limit` are left after some whole bytes.
MarkedBelow : ℕ → ℕ → ℕ → ℕ → Option (ℕ × ℕ × Bitvec) → Type 0
MarkedBelow size numbits pc limit o =
    (left : ℕ) × (next : ℕ) × (bits : Bitvec) × (bytes : ℕ) × (o ≡ some (left, next, bits))
    × (length bits ≡ size)
    × (next ≡ pc + 8 * bytes)
    × (left + 8 * bytes ≡ numbits)
    × (left < limit)

further :
    (size numbits pc chunk limit : ℕ) (o : Option Bitvec) (f : Bitvec → Option (ℕ × ℕ × Bitvec))
    → 8 * chunk ≤ numbits
    → Sized size o
    → ((bits : Bitvec)
        → length bits ≡ size
        → MarkedBelow size (numbits - 8 * chunk) (pc + 8 * chunk) limit (f bits))
    → MarkedBelow size numbits pc limit (o >>= f)
unfolding Sized MarkedBelow
further size numbits pc chunk limit o f le (b, e, n) h =
    let (left, next, bits, bytes, q, k, p, s, below) = h b n in
    (left, next, bits, bytes + chunk, rw e q, k, omega (arith, p), omega (arith, s, le), below)

-- The bitmap of code of 8 * q bytes and up to seven more has q + 5 bytes.
mark16-MarkedBelow :
    (q n numbits pc : ℕ) (bits : Bitvec)
    → length bits ≡ q + 5
    → numbits < 16 * n + 16
    → pc + numbits ≤ 8 * q + 39
    → MarkedBelow (q + 5) numbits pc 16 (mark16 n numbits pc bits)
unfolding mark16 MarkedBelow
mark16-MarkedBelow q zero numbits pc bits k small room =
    (numbits, pc, bits, 0, refl, k, omega arith, omega arith, omega (arith, small))
mark16-MarkedBelow q (suc n) numbits pc bits k small room = elim (Bool-cases (ltb numbits 16)) [
  | inl less ↦ rw less (numbits, pc, bits, 0, refl, k, omega arith, omega arith, ground arith)
  | inr more ↦
      let whole : 16 ≤ numbits = ground arith in
      rw more (
        further (q + 5) numbits pc 2 16 (set16 bits pc) (mark16 n (numbits - 16) (pc + 16)) whole
          (set16-Sized (q + 5) bits pc k (omega (arith, room, whole)))
          (λ b kb.
            mark16-MarkedBelow q n (numbits - 16) (pc + 16) b kb (omega (arith, small, whole))
              (omega (arith, room, whole))))
]

mark8-MarkedBelow :
    (q n numbits pc : ℕ) (bits : Bitvec)
    → length bits ≡ q + 5
    → numbits < 8 * n + 8
    → pc + numbits ≤ 8 * q + 39
    → MarkedBelow (q + 5) numbits pc 8 (mark8 n numbits pc bits)
unfolding mark8 MarkedBelow
mark8-MarkedBelow q zero numbits pc bits k small room =
    (numbits, pc, bits, 0, refl, k, omega arith, omega arith, omega (arith, small))
mark8-MarkedBelow q (suc n) numbits pc bits k small room = elim (Bool-cases (ltb numbits 8)) [
  | inl less ↦ rw less (numbits, pc, bits, 0, refl, k, omega arith, omega arith, ground arith)
  | inr more ↦
      let whole : 8 ≤ numbits = ground arith in
      rw more (
        further (q + 5) numbits pc 1 8 (set8 bits pc) (mark8 n (numbits - 8) (pc + 8)) whole
          (set8-Sized (q + 5) bits pc k (omega (arith, room, whole)))
          (λ b kb.
            mark8-MarkedBelow q n (numbits - 8) (pc + 8) b kb (omega (arith, small, whole))
              (omega (arith, room, whole))))
]

-- The position after the data, and a bitmap of the size.
PushedTo : ℕ → ℕ → Option (ℕ × Bitvec) → Type 0
PushedTo size next o = (bits : Bitvec) × (o ≡ some (next, bits)) × (length bits ≡ size)

then_pushed :
    (size next : ℕ) (o : Option Bitvec)
    → Sized size o
    → PushedTo size next (o >>= λ bits. some (next, bits))
unfolding Sized PushedTo
then_pushed size next o (bits, e, k) = (bits, rw e refl, k)

mark_rest-PushedTo :
    (q numbits pc : ℕ) (bits : Bitvec)
    → length bits ≡ q + 5
    → numbits < 8
    → pc + numbits ≤ 8 * q + 39
    → (numbits ≤ 1) ⊎ (pc ≤ 8 * q + 31)
    → PushedTo (q + 5) (pc + numbits) (mark_rest numbits pc bits)
unfolding mark_rest PushedTo
mark_rest-PushedTo q numbits pc bits k small room far = elim (Bool-cases (numbits == 0)) [
  | inl nothing ↦
      let here : pc ≡ pc + numbits = ground arith in
      rw nothing (bits, ap (λ n. some (n, bits)) here, k)
  | inr something ↦ rw something (elim (Bool-cases (numbits == 1)) [
    | inl one ↦ rw one (
        then_pushed (q + 5) (pc + numbits) (set1 bits pc)
          (set1-Sized (q + 5) bits pc k (ground arith)))
    | inr several ↦ rw several (
        then_pushed (q + 5) (pc + numbits) (set_n bits (2 ^ numbits - 1) pc)
          (set_n-Sized (q + 5) bits (2 ^ numbits - 1) pc k (ground arith)))
  ])
]

-- What is left after whole bytes starts early, or is one bit at most.
far_enough :
    (q start total bytes left end : ℕ)
    → total ≤ 32
    → start ≤ 8 * q + 7
    → end ≡ start + 8 * bytes
    → left + 8 * bytes ≡ total
    → (left ≤ 1) ⊎ (end ≤ 8 * q + 31)
far_enough q start total bytes left end h k e f = elim (Bool-cases (ltb left 2)) [
  | inl few ↦ inl (ground arith)
  | inr many ↦ let two : 2 ≤ left = ground arith in inr (omega (arith, two, h, k, e, f))
]

mark_push-PushedTo :
    (q numbits pc : ℕ) (bits : Bitvec)
    → length bits ≡ q + 5
    → numbits ≤ 32
    → pc ≤ 8 * q + 7
    → PushedTo (q + 5) (pc + numbits) (mark_push numbits pc bits)
unfolding mark_push MarkedBelow
mark_push-PushedTo q numbits pc bits k small room =
    let (n1, pc1, bits1, j1, e1, k1, p1, s1, b1) =
      mark16-MarkedBelow q 2 numbits pc bits k (omega (arith, small))
        (omega (arith, small, room)) in
    let (n2, pc2, bits2, j2, e2, k2, p2, s2, b2) =
      mark8-MarkedBelow q 1 n1 pc1 bits1 k1 (omega (arith, b1))
        (omega (arith, small, room, p1, s1)) in
    let end : pc2 + n2 ≡ pc + numbits = omega (arith, p1, s1, p2, s2) in
    rw (e1, e2)
      (subst (λ m. PushedTo (q + 5) m (mark_rest n2 pc2 bits2)) end
        (mark_rest-PushedTo q n2 pc2 bits2 k2 b2 (omega (arith, end, small, room)) (
          far_enough q pc numbits (j1 + j2) n2 pc2 small room (omega (arith, p1, p2))
            (omega (arith, s1, s2)))))

in_range : (xs : List ℕ) (i x : ℕ) → get_elem? xs i ≡ some x → i < length xs
in_range [] i x e = absurd (ground arith)
in_range (y ∷ xs) zero x e = omega arith
in_range (y ∷ xs) (suc i) x e = omega (arith, in_range xs i x e)

-- A loop that is over without a panic.
Returns : ℕ → Option (Option Bitvec) → Type 0
Returns size o = (bits : Bitvec) × (o ≡ some (some bits)) × (length bits ≡ size)

after_push-Returns :
    (size next : ℕ) (p : Option (ℕ × Bitvec)) (rest : ℕ → Bitvec → Option (Option Bitvec))
    → PushedTo size next p
    → ((b : Bitvec) → length b ≡ size → Returns size (rest next b))
    → Returns size (after_push p rest)
unfolding PushedTo
after_push-Returns size next p rest (bits, e, k) h = rw e (h bits k)

round-Returns :
    (q pc : ℕ) (op : Option ℕ) (bits : Bitvec) (rest : ℕ → Bitvec → Option (Option Bitvec))
    → length bits ≡ q + 5
    → ((x : ℕ) → op ≡ some x → pc + 1 ≤ 8 * q + 7)
    → ((next : ℕ) (b : Bitvec) → pc + 1 ≤ next → length b ≡ q + 5 → Returns (q + 5) (rest next b))
    → Returns (q + 5) (round op pc bits rest)
unfolding round Returns
round-Returns q pc none bits rest k inside h = (bits, refl, k)
round-Returns q pc (some op) bits rest k inside h =
    elim (Bool-cases (ltb op push1 || ltb push32 op)) [
      | inl other ↦ rw (round, other) (h (pc + 1) bits (omega arith) k)
      | inr push ↦
          let few : op - push1 + 1 ≤ 32 = ground arith in
          rw (round, push)
            (after_push-Returns (q + 5) (pc + 1 + (op - push1 + 1)) _ rest
              (mark_push-PushedTo q (op - push1 + 1) (pc + 1) bits k few (inside op refl))
              (λ b. h (pc + 1 + (op - push1 + 1)) b (omega arith)))
    ]

loop-Returns :
    (code : List ℕ) (n pc : ℕ) (bits : Bitvec)
    → length code ≤ pc + n
    → length bits ≡ length code / 8 + 5
    → Returns (length code / 8 + 5) (bitmap_loop code (suc n) pc bits)
unfolding bitmap_loop
loop-Returns code zero pc bits h k =
    let over : get_elem? code pc ≡ none = get_elem?_past code pc (omega (arith, h)) in
    unfold Returns round in rw over (bits, refl, k)
loop-Returns code (suc n) pc bits h k =
    round-Returns (length code / 8) pc (get_elem? code pc) bits
      (λ next b. bitmap_loop code (suc n) next b) k (λ x e. omega (arith, in_range code pc x e))
      (λ next b past kb. loop-Returns code n next b (omega (arith, h, past)) kb)

length-replicate : (n x : ℕ) → length (replicate n x) ≡ n
length-replicate zero x = refl
length-replicate (suc n) x = ap suc (length-replicate n x)

-- codeBitmap does not panic, on any code: the four spare bytes hold what a PUSH at the end of the code
-- marks past it. The bitmap has a bit for each byte of the code, and those.
pub code_bitmap-returns :
    (code : List ℕ)
    → (bits : Bitvec) × (code_bitmap code ≡ some bits) × (length bits ≡ length code / 8 + 5)
unfolding code_bitmap Returns
code_bitmap-returns code =
    let size : length (new_bits code) ≡ length code / 8 + 5 =
      length-replicate (length code / 8 + 1 + 4) 0 ∙ omega arith in
    let shift : length code + 1 ≡ suc (length code) = omega arith in
    let (bits, e, k) = loop-Returns code (length code) 0 (new_bits code) (omega arith) size in
    (bits, rw (code_bitmap, shift, e) refl, k)
