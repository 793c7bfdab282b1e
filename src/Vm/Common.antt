-- ===== src/Vm/Common.antt =====
-- vm/common.go: memory sizes, padded data and words.
use cardinal_evm.Prelude.{ℕ, ◌+◌, ◌-◌, ◌*◌, ◌/◌, ◌^◌, ◌≤◌, ◌≡◌, arith, ltb, leb, ◌==◌}
use cardinal_evm.Prelude.{Bool, true, false, not, ◌&&◌, if◌then◌else◌, List, [], ◌∷◌, ◌++◌, length}
use cardinal_evm.Prelude.{take, drop, replicate, add64, max_u64}
use cardinal_evm.Prelude.{IsU64, Option, none, some}
use cardinal_evm.Vm.Uint256.{Uint256}

-- calcMemSize64WithUint: the size, and whether it passes uint64.
calc_from : ℕ → Bool → ℕ → ℕ × Bool
calc_from offset64 overflow length64 =
    if overflow
    then (0, true)
    else (add64 offset64 length64, ltb (add64 offset64 length64) offset64)

unfoldable pub calc_mem_size64_with_uint : Uint256 → ℕ → ℕ → ℕ × Bool
unfolding calc_from
calc_mem_size64_with_uint u off length64 =
    if length64 == 0 then (0, false) else calc_from (u.uint64 off) (not (u.is_uint64 off)) length64

unfoldable pub calc_mem_size64 : Uint256 → ℕ → ℕ → ℕ × Bool
unfolding calc_mem_size64_with_uint
calc_mem_size64 u off l =
    if u.is_uint64 l then calc_mem_size64_with_uint u off (u.uint64 l) else (0, true)

-- common.RightPadBytes
unfoldable pub right_pad_bytes : List ℕ → ℕ → List ℕ
right_pad_bytes bytes l =
    if leb l (length bytes) then bytes else bytes ++ replicate (l - length bytes) 0

abbrev clip : ℕ → ℕ → ℕ
clip n limit = if ltb limit n then limit else n

-- Go panics where start + size wraps below start, and the padding is by an int, which is negative from
-- 2^63 on: sizes that no gas pays for as memory.
unfoldable pub get_data : List ℕ → ℕ → ℕ → List ℕ
unfolding right_pad_bytes
get_data bytes start size =
    let first = clip start (length bytes) in
    let end = clip (add64 first size) (length bytes) in
    right_pad_bytes (drop first (take end bytes)) size

unfoldable pub to_word_size : ℕ → ℕ
to_word_size size = if ltb (max_u64 - 31) size then max_u64 / 32 + 1 else add64 size 31 / 32

unfoldable pub all_zero : List ℕ → Bool
all_zero [] = true
all_zero (b ∷ bs) = (b == 0) && all_zero bs

-- toWordSize is the least number of 32-byte words that hold `size` bytes, for every uint64: it holds
-- them, and any k that does is no smaller.
pub to_word_size_least :
    (size k : ℕ)
    → IsU64 size
    → size ≤ k * 32
    → (size ≤ to_word_size size * 32) × (to_word_size size ≤ k)
unfolding to_word_size
to_word_size_least size k h p = (ground arith, ground arith)

-- The end of a range, where it is a uint64; an empty one needs no memory.
unfoldable pub end_of_range : ℕ → ℕ → Option ℕ
end_of_range off l =
    if l == 0 then some 0 else if ltb (off + l) (2 ^ 64) then some (off + l) else none

-- An answer with an overflow flag.
unfoldable pub unless_overflow : ℕ × Bool → Option ℕ
unless_overflow (x, overflow) = if overflow then none else some x

-- calcMemSize64 reports an overflow exactly when the end of a range that is not empty passes uint64,
-- and otherwise answers the end of the range, 0 for an empty one; for all 256-bit offsets and lengths.
pub calc_mem_size64_exact :
    (u : Uint256) (off l : ℕ) → unless_overflow (calc_mem_size64 u off l) ≡ end_of_range off l
unfolding calc_mem_size64 unless_overflow end_of_range
calc_mem_size64_exact u off l =
    ground (arith, u.is_uint64_lem l, u.uint64_lem l, u.is_uint64_lem off, u.uint64_lem off)
