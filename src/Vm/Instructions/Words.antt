-- ===== src/Vm/Instructions/Words.antt =====
-- The instructions on words: arithmetic, comparisons, bits and shifts.
use cardinal_evm.Prelude.{ℕ, ◌-◌, ◌^◌, ltb, Bool, if◌then◌else◌, sub64}
use cardinal_evm.Vm.Scope.{Host, X, ◌>>=◌, pop, peek, put_top}

-- The value below the popped one is overwritten.
unfoldable pub binary : (ℕ → ℕ → ℕ) → X (Unit {0})
binary f = do x ← pop; y ← peek; put_top (f x y)

unfoldable pub unary : (ℕ → ℕ) → X (Unit {0})
unary f = do x ← peek; put_top (f x)

unfoldable pub ternary : (ℕ → ℕ → ℕ → ℕ) → X (Unit {0})
ternary f = do x ← pop; y ← pop; z ← peek; put_top (f x y z)

-- SetOne or Clear
abbrev pub bit : Bool → ℕ
bit b = if b then 1 else 0

module _ (h : Host) where
  unfoldable pub op_add : X (Unit {0})
  unfolding binary
  op_add = binary h.arith.add

  unfoldable pub op_sub : X (Unit {0})
  unfolding binary
  op_sub = binary h.arith.sub

  unfoldable pub op_mul : X (Unit {0})
  unfolding binary
  op_mul = binary h.arith.mul

  unfoldable pub op_div : X (Unit {0})
  unfolding binary
  op_div = binary h.arith.div

  unfoldable pub op_sdiv : X (Unit {0})
  unfolding binary
  op_sdiv = binary h.arith.sdiv

  unfoldable pub op_mod : X (Unit {0})
  unfolding binary
  op_mod = binary h.arith.rem

  unfoldable pub op_smod : X (Unit {0})
  unfolding binary
  op_smod = binary h.arith.srem

  unfoldable pub op_exp : X (Unit {0})
  unfolding binary
  op_exp = binary h.arith.exp

  unfoldable pub op_sign_extend : X (Unit {0})
  unfolding binary
  op_sign_extend = binary (λ back num. h.arith.extend_sign num back)

  unfoldable pub op_lt : X (Unit {0})
  unfolding binary
  op_lt = binary (λ x y. bit (h.arith.lt x y))

  unfoldable pub op_gt : X (Unit {0})
  unfolding binary
  op_gt = binary (λ x y. bit (h.words.gt x y))

  unfoldable pub op_slt : X (Unit {0})
  unfolding binary
  op_slt = binary (λ x y. bit (h.arith.slt x y))

  unfoldable pub op_sgt : X (Unit {0})
  unfolding binary
  op_sgt = binary (λ x y. bit (h.arith.sgt x y))

  unfoldable pub op_eq : X (Unit {0})
  unfolding binary
  op_eq = binary (λ x y. bit (h.arith.eq x y))

  unfoldable pub op_and : X (Unit {0})
  unfolding binary
  op_and = binary h.arith.and

  unfoldable pub op_or : X (Unit {0})
  unfolding binary
  op_or = binary h.arith.or

  unfoldable pub op_xor : X (Unit {0})
  unfolding binary
  op_xor = binary h.arith.xor

  unfoldable pub op_byte : X (Unit {0})
  unfolding binary
  op_byte = binary (λ th val. h.arith.byte val th)

  unfoldable pub op_not : X (Unit {0})
  unfolding unary
  op_not = unary h.arith.not

  unfoldable pub op_iszero : X (Unit {0})
  unfolding unary
  op_iszero = unary (λ x. bit (h.words.is_zero x))

  unfoldable pub op_clz : X (Unit {0})
  unfolding unary
  op_clz = unary (λ x. sub64 256 (h.words.bit_len x))

  unfoldable pub op_addmod : X (Unit {0})
  unfolding ternary
  op_addmod = ternary h.arith.add_mod

  unfoldable pub op_mulmod : X (Unit {0})
  unfolding ternary
  op_mulmod = ternary h.arith.mul_mod

  unfoldable pub op_shl : X (Unit {0})
  unfolding binary
  op_shl =
      binary (λ shift value. if ltb shift 256 then h.arith.lsh value (h.words.uint64 shift) else 0)

  unfoldable pub op_shr : X (Unit {0})
  unfolding binary
  op_shr =
      binary (λ shift value. if ltb shift 256 then h.arith.rsh value (h.words.uint64 shift) else 0)

  -- A shift by more than 256 leaves the sign in all bits.
  unfoldable pub op_sar : X (Unit {0})
  unfolding binary
  op_sar = binary (λ shift value.
      if ltb 256 shift
      then (if h.arith.sign value then 0 else 2 ^ 256 - 1)
      else h.arith.srsh value (h.words.uint64 shift))
