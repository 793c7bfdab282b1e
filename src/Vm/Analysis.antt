-- ===== src/Vm/Analysis.antt =====
-- vm/analysis.go: the bitmap of push data in code. A bit vector is its list of bytes; `none` is the
-- panic of an index out of range.
pub mod Rounds
pub mod Total
use Prim.Native.Nat.{bit_or}
use cardinal_evm.Prelude.{
  ℕ, zero, suc, ◌≡◌, refl, ◌+◌, ◌-◌, ◌*◌, ◌/◌, ◌%◌, ◌^◌, ◌==◌, ltb, Bool, true, false, ◌||◌,
  if◌then◌else◌, Option, none, some, ◌>>=◌, List, ◌∷◌, length, get_elem?, set, replicate,
}

abbrev pub Bitvec : Type 0
Bitvec = List ℕ

abbrev pub jumpdest : ℕ
jumpdest = 0x5b

abbrev pub push1 : ℕ
push1 = 0x60

abbrev pub push32 : ℕ
push32 = 0x7f

-- `bits[i] = f(bits[i])`
abbrev change : Bitvec → ℕ → (ℕ → ℕ) → Option Bitvec
change bits i f = do x ← get_elem? bits i; some (set bits i (f x))

unfoldable pub set1 : Bitvec → ℕ → Option Bitvec
set1 bits pos = change bits (pos / 8) (λ x. bit_or x (2 ^ (pos % 8)))

unfoldable pub set_n : Bitvec → ℕ → ℕ → Option Bitvec
set_n bits flag pos =
    let a = flag * 2 ^ (pos % 8) % 2 ^ 16 in
    let b = a / 2 ^ 8 in
    change bits (pos / 8) (λ x. bit_or x (a % 2 ^ 8)) >>= λ bits'.
    if b == 0 then some bits' else change bits' (pos / 8 + 1) (λ x. b)

-- byte(0xFF << (pos % 8)), and its complement
abbrev high_bits : ℕ → ℕ
high_bits pos = 0xff * 2 ^ (pos % 8) % 2 ^ 8

abbrev low_bits : ℕ → ℕ
low_bits pos = 0xff - high_bits pos

unfoldable pub set8 : Bitvec → ℕ → Option Bitvec
set8 bits pos = do
  bits1 ← change bits (pos / 8) (λ x. bit_or x (high_bits pos))
  change bits1 (pos / 8 + 1) (λ x. low_bits pos)

unfoldable pub set16 : Bitvec → ℕ → Option Bitvec
set16 bits pos = do
  bits1 ← change bits (pos / 8) (λ x. bit_or x (high_bits pos))
  bits2 ← change bits1 (pos / 8 + 1) (λ x. 0xff)
  change bits2 (pos / 8 + 2) (λ x. low_bits pos)

-- Whether the position is code: the bit is not set.
unfoldable pub code_segment : Bitvec → ℕ → Option Bool
code_segment bits pos = do x ← get_elem? bits (pos / 8); some (x / 2 ^ (pos % 8) % 2 == 0)

-- The two loops over `numbits` by 16 and by 8; the first argument bounds their rounds. They answer
-- what is left of `numbits`, and `pc`.
abbrev Marked : Type 0
Marked = ℕ × ℕ × Bitvec

mark16 : ℕ → ℕ → ℕ → Bitvec → Option Marked
mark16 zero numbits pc bits = some (numbits, pc, bits)
mark16 (suc n) numbits pc bits =
    let rest = set16 bits pc >>= mark16 n (numbits - 16) (pc + 16) in
    if ltb numbits 16 then some (numbits, pc, bits) else rest

mark8 : ℕ → ℕ → ℕ → Bitvec → Option Marked
mark8 zero numbits pc bits = some (numbits, pc, bits)
mark8 (suc n) numbits pc bits =
    let rest = set8 bits pc >>= mark8 n (numbits - 8) (pc + 8) in
    if ltb numbits 8 then some (numbits, pc, bits) else rest

-- The switch on the bits that are left: one by set1, two to seven by setN with as many ones.
mark_rest : ℕ → ℕ → Bitvec → Option (ℕ × Bitvec)
mark_rest numbits pc bits =
    if numbits == 0
    then some (pc, bits)
    else (if numbits == 1 then set1 bits pc else set_n bits (2 ^ numbits - 1) pc) >>= λ bits'.
        some (pc + numbits, bits')

unfoldable pub mark_push : ℕ → ℕ → Bitvec → Option (ℕ × Bitvec)
unfolding mark16 mark8 mark_rest
mark_push numbits pc bits = do
  (n1, pc1, bits1) ← mark16 2 numbits pc bits
  (n2, pc2, bits2) ← mark8 1 n1 pc1 bits1
  mark_rest n2 pc2 bits2

-- The body of the loop for the byte at `pc`, if there is one; `rest` goes on from a position. `some none`
-- is the panic.
abbrev pub after_push :
    Option (ℕ × Bitvec) → (ℕ → Bitvec → Option (Option Bitvec)) → Option (Option Bitvec)
after_push none rest = some none
after_push (some next) rest = rest next.0 next.1

unfoldable pub round :
    Option ℕ → ℕ → Bitvec → (ℕ → Bitvec → Option (Option Bitvec)) → Option (Option Bitvec)
round none pc bits rest = some (some bits)
round (some op) pc bits rest = elim (ltb op push1 || ltb push32 op) [
  | true ↦ rest (pc + 1) bits
  | false ↦ after_push (mark_push (op - push1 + 1) (pc + 1) bits) rest
]

-- The loop of codeBitmapInternal, with a bound on the tests of its condition: `none` is a bound that ran
-- out before the loop was over.
unfoldable pub bitmap_loop : List ℕ → ℕ → ℕ → Bitvec → Option (Option Bitvec)
unfolding round
bitmap_loop code zero pc bits = none
bitmap_loop code (suc n) pc bits =
    round (get_elem? code pc) pc bits (λ next b. bitmap_loop code n next b)

abbrev pub new_bits : List ℕ → Bitvec
new_bits code = replicate (length code / 8 + 1 + 4) 0

-- The condition is tested once for each byte at most, and once at the end.
unfoldable pub code_bitmap : List ℕ → Option Bitvec
unfolding bitmap_loop
code_bitmap code = elim (bitmap_loop code (length code + 1) 0 (new_bits code)) [
  | none ↦ none
  | some bits ↦ bits
]

-- PUSH32 of 32 bytes, a JUMPDEST in its data, and one after it.
bitmap_runs :
    (code_bitmap (push32 ∷ replicate 31 jumpdest) >>= λ bits. code_segment bits 20) ≡ some false
unfolding code_bitmap code_segment mark_push set16 set8 set_n set1
bitmap_runs = refl
