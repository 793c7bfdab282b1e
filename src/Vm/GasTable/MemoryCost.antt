-- ===== src/Vm/GasTable/MemoryCost.antt =====
-- The fee for memory is the difference of a quadratic cost, computed without a wrap-around.
use cardinal_evm.Prelude.{ℕ, ◌+◌, ◌-◌, ◌*◌, ◌/◌, ◌%◌, ◌^◌, ◌<◌, ◌≤◌, ◌≡◌, refl, arith, ltb, ◌==◌}
use cardinal_evm.Prelude.{length, replicate, length-append, length-replicate, ◌++◌, ◌∙◌, ap}
use cardinal_evm.Prelude.{add64, mul64, true, false, Bool-cases, inl, inr, if◌then◌else◌}
use cardinal_evm.Vm.Common.{to_word_size}
use cardinal_evm.Vm.Memory
use cardinal_evm.Vm.Memory.{Memory}
use cardinal_evm.Vm.Params
use cardinal_evm.Vm.Frame.{Outcome, ok, err, gas_uint_overflow}
use cardinal_evm.Vm.GasTable.{memory_fee, charge}

-- The cost of a memory of `words` words (the Yellow Paper's C_mem).
unfoldable pub memory_cost : ℕ → ℕ
memory_cost words = 3 * words + words * words / 512

-- The memory is a whole number of words, within the limit, and the record of what was paid is the cost
-- of its words.
pub record IsPaid (mem : Memory) : Type 0 where
  pub whole : length mem.store % 32 ≡ 0
  pub limit : length mem.store ≤ 0x1f_ffff_ffe0
  pub paid : mem.last_gas_cost ≡ memory_cost (length mem.store / 32)

pub word_size : (size : ℕ) → size ≤ 0x1f_ffff_ffe0 → to_word_size size ≡ (size + 31) / 32
unfolding to_word_size
word_size size h = ground arith

square_mono : (a b : ℕ) → a ≤ b → a * a ≤ b * b
square_mono a b h = grind arith

pub memory_cost_mono : (a b : ℕ) → a ≤ b → memory_cost a ≤ memory_cost b
unfolding memory_cost
memory_cost_mono a b h = omega (arith, square_mono a b h)

largest_cost : memory_cost 0xffff_ffff < 2 ^ 64
unfolding memory_cost
largest_cost = omega arith

memory_cost-lt : (a : ℕ) → a ≤ 0xffff_ffff → memory_cost a < 2 ^ 64
memory_cost-lt a h = omega (arith, memory_cost_mono a 0xffff_ffff h, largest_cost)

-- Below the limit the total is computed without a wrap-around.
pub total_exact :
    (w : ℕ)
    → w ≤ 0xffff_ffff
    → add64 (mul64 w Params.memory_gas) (mul64 w w / Params.quad_coeff_div) ≡ memory_cost w
unfolding memory_cost
total_exact w h =
    let fits : 3 * w + w * w / 512 < 2 ^ 64 = unfold memory_cost in memory_cost-lt w h in
    omega (arith, square_mono w 0xffff_ffff h)

charge_fee :
    (mem : Memory) (total : ℕ)
    → mem.last_gas_cost ≤ total
    → total < 2 ^ 64
    → charge mem total ≡ (ok (total - mem.last_gas_cost), record mem { last_gas_cost = total })
unfolding charge
charge_fee mem total h fits = ground arith

-- What a fee promises.
pub record IsFee (mem : Memory) (words : ℕ) (r : Outcome ℕ × Memory) : Type 0 where
  pub fee : ℕ
  pub out : Memory
  pub returns : r ≡ (ok fee, out)
  pub price : mem.last_gas_cost + fee ≡ out.last_gas_cost
  pub resized : IsPaid (Memory.resize out (words * 32))

nothing_owed :
    (mem : Memory) (words : ℕ)
    → IsPaid mem
    → words * 32 ≤ length mem.store
    → IsFee mem words (ok 0, mem)
nothing_owed mem words p h = record {
  fee = 0;
  out = mem;
  returns = refl;
  price = omega arith;
  resized =
      unfold Memory.resize in
      (let same : ltb (length mem.store) (words * 32) ≡ false = ground arith in rw same p);
}

grown :
    (mem : Memory) (words : ℕ)
    → IsPaid mem
    → length mem.store < words * 32
    → words ≤ 0xffff_ffff
    → IsFee mem words (charge mem (memory_cost words))
grown mem words p h small = record {
  fee = memory_cost words - mem.last_gas_cost;
  out = record mem { last_gas_cost = memory_cost words };
  returns = charge_fee mem (memory_cost words) more (memory_cost-lt words small);
  price = omega (arith, more);
  resized =
      unfold Memory.resize in
      (rw longer (record {
        whole = rw (length_now, same_length) (omega arith);
        limit = rw (length_now, same_length) (omega arith);
        paid = rw (length_now, same_length) (ap memory_cost (omega arith));
      }));
}
  where
    longer : ltb (length mem.store) (words * 32) ≡ true
    longer = ground arith

    length_now :
        length (mem.store ++ replicate (words * 32 - length mem.store) 0)
        ≡ length mem.store + length {A = ℕ} (replicate (words * 32 - length mem.store) 0)
    length_now = length-append mem.store _

    same_length :
        length mem.store + length {A = ℕ} (replicate (words * 32 - length mem.store) 0) ≡ words * 32
    same_length = rw length-replicate (omega arith)

    more : mem.last_gas_cost ≤ memory_cost words
    more = rw p.paid (memory_cost_mono (length mem.store / 32) words (omega arith))

by_growth :
    (mem : Memory) (w : ℕ)
    → IsPaid mem
    → w ≤ 0xffff_ffff
    → IsFee mem w (
        if ltb (Memory.len mem) (mul64 w 32)
        then charge mem (add64 (mul64 w Params.memory_gas) (mul64 w w / Params.quad_coeff_div))
        else (ok 0, mem))
unfolding Memory.len
by_growth mem w p small = elim (Bool-cases (ltb (length mem.store) (mul64 w 32))) [
  | inl more ↦ rw (more, total_exact w small) (grown mem w p (ground arith) small)
  | inr less ↦ rw less (nothing_owed mem w p (ground arith))
]

-- For a memory that is paid for and a size within the limit, memoryGasCost does not fail; the fee is
-- the cost of the new number of words less what was paid, and after the resize to that number of words
-- the memory is paid for again.
pub memory_fee-IsFee :
    (mem : Memory) (size : ℕ)
    → IsPaid mem
    → size ≤ 0x1f_ffff_ffe0
    → IsFee mem (to_word_size size) (memory_fee mem size)
unfolding memory_fee
memory_fee-IsFee mem size p h = elim (Bool-cases (size == 0)) [
  | inl none_asked ↦
      let w : to_word_size size ≡ 0 = word_size size h ∙ ground arith in
      rw (none_asked, w) (nothing_owed mem 0 p (omega arith))
  | inr some_asked ↦
      let below : ltb 0x1f_ffff_ffe0 size ≡ false = ground arith in
      rw (some_asked, below)
        (by_growth mem (to_word_size size) p (rw (word_size size h) (omega arith)))
]

-- Past the limit memoryGasCost fails with ErrGasUintOverflow and leaves the memory as it was.
pub memory_fee_overflow :
    (mem : Memory) (size : ℕ)
    → 0x1f_ffff_ffe0 < size
    → memory_fee mem size ≡ (err gas_uint_overflow, mem)
unfolding memory_fee
memory_fee_overflow mem size h =
    let asked : (size == 0) ≡ false = ground arith in
    let above : ltb 0x1f_ffff_ffe0 size ≡ true = ground arith in rw (asked, above) refl
