-- ===== src/Vm/Jumps.antt =====
-- Where jumps land: validJumpdest of vm/contract.go under JUMP and JUMPI.
use cardinal_evm.Prelude.{
  ℕ, ◌+◌, ◌-◌, ◌<◌, ◌≡◌, refl, arith, ltb, leb, ◌==◌, Bool, true, false, not, ◌||◌, if◌then◌else◌,
  Option, none, some, List, [], ◌∷◌, subst, sym, Bool-cases, inl, inr, length, get_elem?, add64,
  sub64, IsU64,
}
use cardinal_evm.Prelude
use cardinal_evm.Vm.Stack
use cardinal_evm.Vm.Stack.{Stack}
use cardinal_evm.Vm.Uint256.{Uint256}
use cardinal_evm.Vm.Analysis.{Bitvec, code_segment, jumpdest}
use cardinal_evm.Vm.Contract.{Contract, get_op, valid_jumpdest, is_code, analyse, find_analysis}
use cardinal_evm.Vm.Scope
use cardinal_evm.Vm.Scope.{Scope, Host, Step, ok, exit, crash, ◌>>=◌, modify, leave, invalid_jump}
use cardinal_evm.Vm.Instructions.Control

-- A position that the code may be entered at: a JUMPDEST byte that the contract's analysis has as code.
pub record IsEntry (c : Contract) (pos : ℕ) : Type 0 where
  pub bits : Bitvec
  pub inside : pos < length c.code
  pub at_byte : get_elem? c.code pos ≡ some jumpdest
  pub analysed : c.analysis ≡ some bits
  pub code : code_segment bits pos ≡ some true

abbrev Entered : Contract → ℕ → Option (Bool × Contract) → Type 0
Entered c pos (some (true, c')) = (c'.code ≡ c.code) × IsEntry c' pos
Entered c pos (some (false, c')) = Unit {0}
Entered c pos none = Unit {0}

abbrev IsAnalysis : Contract → Option (Bitvec × Contract) → Type 0
IsAnalysis c (some (bits, c')) = (c'.code ≡ c.code) × (c'.analysis ≡ some bits)
IsAnalysis c none = Unit {0}

find_analysis-IsAnalysis :
    (c : Contract) (known : Option Bitvec) → IsAnalysis c (find_analysis c known)
unfolding find_analysis
find_analysis-IsAnalysis c known = ground arith

analyse-IsAnalysis : (c : Contract) → IsAnalysis c (analyse c c.analysis)
unfolding analyse
analyse-IsAnalysis c = grind (arith, find_analysis-IsAnalysis)

-- After the analysis.
looked_up :
    (c c' : Contract) (pos : ℕ) (bits : Bitvec) (answer : Option Bool)
    → pos < length c.code
    → get_elem? c.code pos ≡ some jumpdest
    → c'.code ≡ c.code
    → c'.analysis ≡ some bits
    → code_segment bits pos ≡ answer
    → Entered c pos (Prelude.◌>>=◌ answer (λ a. some (a, c')))
looked_up c c' pos bits none inside at_byte same known e = tt
looked_up c c' pos bits (some false) inside at_byte same known e = tt
looked_up c c' pos bits (some true) inside at_byte same known e = (
  same,
  record {
    bits = bits;
    inside = rw same inside;
    at_byte = rw same at_byte;
    analysed = known;
    code = e;
  },
)

found :
    (c : Contract) (pos : ℕ) (r : Option (Bitvec × Contract))
    → pos < length c.code
    → get_elem? c.code pos ≡ some jumpdest
    → IsAnalysis c r
    → Entered c pos
        (Prelude.◌>>=◌ r (λ x. Prelude.◌>>=◌ (code_segment x.0 pos) (λ a. some (a, x.1))))
found c pos none inside at_byte h = tt
found c pos (some (bits, c')) inside at_byte (same, known) =
    looked_up c c' pos bits (code_segment bits pos) inside at_byte same known refl

is_code-Entered :
    (c : Contract) (pos : ℕ)
    → pos < length c.code
    → get_elem? c.code pos ≡ some jumpdest
    → Entered c pos (is_code c pos)
unfolding is_code
is_code-Entered c pos inside at_byte =
    found c pos (analyse c c.analysis) inside at_byte (analyse-IsAnalysis c)

get_op_inside :
    (c : Contract) (pos : ℕ) → get_op c pos ≡ jumpdest → get_elem? c.code pos ≡ some jumpdest
unfolding get_op
get_op_inside c pos e = ground arith

valid_jumpdest-Entered :
    (u : Uint256) (c : Contract) (dest : ℕ) → Entered c (u.uint64 dest) (valid_jumpdest u c dest)
unfolding valid_jumpdest
valid_jumpdest-Entered u c dest =
    ground (arith, is_code-Entered c (u.uint64 dest), get_op_inside c (u.uint64 dest))

-- A jump that goes on.
abbrev pub Lands : Scope → Step (Unit {0}) → Type 0
Lands s (ok a s') = (s'.contract.code ≡ s.contract.code) × IsEntry s'.contract (add64 s'.pc 1)
Lands s (exit e ret s') = Unit {0}
Lands s crash = Unit {0}

back_and_on : (pos : ℕ) → IsU64 pos → add64 (sub64 pos 1) 1 ≡ pos
back_and_on pos h = ground arith

module _ (h : Host) where
  landed :
      (s : Scope) (n : ℕ) (r : Option (Bool × Contract))
      → IsU64 n
      → Entered s.contract n r
      → Lands s (
          ((λ x. Control.checked h s r) >>= λ valid.
          if valid then modify (λ x. record x { pc = sub64 n 1 }) else leave invalid_jump [])
            s)
  landed s n none u e = tt
  landed s n (some (false, c)) u e = tt
  landed s n (some (true, c)) u (same, entry) =
      (same, subst (IsEntry c) (sym (back_and_on n u)) entry)

  jump_to-Lands : (pos : ℕ) (s : Scope) → Lands s (Control.jump_to h pos s)
  unfolding Control.jump_to Control.valid_jumpdest
  jump_to-Lands pos s =
      landed s (h.words.uint64 pos) (valid_jumpdest h.words s.contract pos)
        (omega (arith, h.words.uint64_lem pos)) (valid_jumpdest-Entered h.words s.contract pos)

  popped_jump :
      (s : Scope) (o : Option (ℕ × Stack))
      → Lands s (((λ x. Scope.popped s o) >>= Control.jump_to h) s)
  popped_jump s none = tt
  popped_jump s (some (x, st)) = jump_to-Lands x (record s { stack = st })

  -- JUMP that goes on has moved to an entry of the code, the code being as it was: the next round's
  -- position is inside the code, its byte is JUMPDEST, and the analysis that the contract now holds
  -- has it as code.
  pub op_jump-Lands : (gas : ℕ) (s : Scope) → Lands s (Control.op_jump h gas s)
  unfolding Control.op_jump Scope.pop
  op_jump-Lands gas s = elim (Bool-cases (h.abort gas)) [
    | inl q ↦ rw q tt
    | inr q ↦ rw q (popped_jump s (Stack.pop s.stack))
  ]
