-- ===== src/Vm/Interpreter/Sound.antt =====
-- The tables of the forks agree with what their instructions do: the bounds on the stack, the gas
-- functions that the memory functions need, and a price for all that lets the run go on.
use cardinal_evm.Prelude.{
  ℕ, zero, suc, ◌+◌, ◌<◌, ◌≡◌, refl, arith, ◌==◌, ltb, Bool, true, false, not, ◌&&◌, ◌||◌,
  if◌then◌else◌, Option, none, some, Bool-cases, inl, inr, List, [], ◌∷◌,
}
use cardinal_evm.Vm.Params
use cardinal_evm.Vm.Opcodes
use cardinal_evm.Vm.JumpTable.Operation.{
  Operation, JumpTable, Execute, simple, calling, undefined, assign, Simple, op_stop, op_return,
  op_revert, op_undefined, op_selfdestruct, op_selfdestruct6780, op_create, op_create2, op_call,
  op_call_code, op_delegate_call, op_static_call, GasFunc, exp_frontier_gas, exp_eip158_gas,
  sstore_gas, sstore_eip2200_gas, sstore_eip2929_gas, sstore_eip3529_gas, sload_eip2929_gas,
  log_gas, call_gas, call_code_gas, delegate_call_gas, static_call_gas, call_eip2929_gas,
  call_code_eip2929_gas, delegate_call_eip2929_gas, static_call_eip2929_gas, call_eip7702_gas,
  call_code_eip7702_gas, delegate_call_eip7702_gas, static_call_eip7702_gas, max_stack, min_stack,
}
use cardinal_evm.Vm.JumpTable.Frontier.{new_frontier_instruction_set}
use cardinal_evm.Vm.JumpTable.Forks
use cardinal_evm.Vm.JumpTable.Validate.{
  Fork, frontier, homestead, tangerine_whistle, spurious_dragon, byzantium, constantinople,
  istanbul, berlin, london, merge, shanghai, cancun, prague, osaka, instruction_set, fork_of,
  ChainRules, jump_table, disable, has_gas, all_below, validate,
}
use cardinal_evm.Vm.Interpreter.Effect.{pops, pushes, removed, added}

-- The bounds of an operation let it run on just the stacks that have the items it takes, and room for those it
-- puts.
abbrev pub fits : Operation → Bool
fits o =
    (o.min_stack == removed o.execute)
    && (o.max_stack + added o.execute == Params.stack_limit + removed o.execute)

-- The instructions that end the run.
abbrev pub halts : Simple → Bool
halts op_stop = true
halts op_return = true
halts op_revert = true
halts op_undefined = true
halts op_selfdestruct = true
halts op_selfdestruct6780 = true
halts x = false

-- The gas functions that charge something whatever the operands are.
abbrev pub charges : Option GasFunc → Bool
charges none = false
charges (some exp_frontier_gas) = true
charges (some exp_eip158_gas) = true
charges (some sstore_gas) = true
charges (some sstore_eip2200_gas) = true
charges (some sstore_eip2929_gas) = true
charges (some sstore_eip3529_gas) = true
charges (some sload_eip2929_gas) = true
charges (some (log_gas n)) = true
charges (some g) = false

-- The gas functions of CALL and CALLCODE, and those of DELEGATECALL and STATICCALL.
abbrev pub pays_value : Option GasFunc → Bool
pays_value (some call_gas) = true
pays_value (some call_eip2929_gas) = true
pays_value (some call_eip7702_gas) = true
pays_value (some call_code_gas) = true
pays_value (some call_code_eip2929_gas) = true
pays_value (some call_code_eip7702_gas) = true
pays_value g = false

abbrev pub pays_call : Option GasFunc → Bool
pays_call (some delegate_call_gas) = true
pays_call (some delegate_call_eip2929_gas) = true
pays_call (some delegate_call_eip7702_gas) = true
pays_call (some static_call_gas) = true
pays_call (some static_call_eip2929_gas) = true
pays_call (some static_call_eip7702_gas) = true
pays_call g = false

-- A calling operation has a constant price, and a gas function that sets the gas of the call aside.
abbrev pub prices : Execute → ℕ → Option GasFunc → Bool
prices (simple x) gas g = halts x || ltb 0 gas || charges g
prices (calling op_create) gas g = ltb 0 gas
prices (calling op_create2) gas g = ltb 0 gas
prices (calling op_call) gas g = ltb 0 gas && pays_value g
prices (calling op_call_code) gas g = ltb 0 gas && pays_value g
prices (calling op_delegate_call) gas g = ltb 0 gas && pays_call g
prices (calling op_static_call) gas g = ltb 0 gas && pays_call g

abbrev pub priced : Operation → Bool
priced o = prices o.execute o.constant_gas o.dynamic_gas

-- The forks whose calls add a cold access to their cost without a test for an overflow.
abbrev pub from_berlin : Fork → Bool
from_berlin berlin = true
from_berlin london = true
from_berlin merge = true
from_berlin shanghai = true
from_berlin cancun = true
from_berlin prague = true
from_berlin osaka = true
from_berlin f = false

abbrev pub adds_cold : Option GasFunc → Bool
adds_cold (some call_eip2929_gas) = true
adds_cold (some call_code_eip2929_gas) = true
adds_cold (some delegate_call_eip2929_gas) = true
adds_cold (some static_call_eip2929_gas) = true
adds_cold g = false

-- What the run needs of an operation; `cold` is whether it may add a cold access.
abbrev pub is_sound : Bool → Operation → Bool
is_sound cold o = has_gas o && fits o && priced o && (cold || not (adds_cold o.dynamic_gas))

instruction_set-IsSound :
    (f : Fork) → all_below 256 (λ k. is_sound (from_berlin f) (instruction_set f k)) ≡ true
unfolding instruction_set removed added pops pushes max_stack min_stack new_frontier_instruction_set
    Forks.new_homestead_instruction_set Forks.new_tangerine_whistle_instruction_set
    Forks.new_spurious_dragon_instruction_set Forks.new_byzantium_instruction_set
    Forks.new_constantinople_instruction_set Forks.new_istanbul_instruction_set
    Forks.new_berlin_instruction_set Forks.new_london_instruction_set
    Forks.new_merge_instruction_set Forks.new_shanghai_instruction_set
    Forks.new_cancun_instruction_set Forks.new_prague_instruction_set
    Forks.new_osaka_instruction_set
instruction_set-IsSound frontier = refl
instruction_set-IsSound homestead = refl
instruction_set-IsSound tangerine_whistle = refl
instruction_set-IsSound spurious_dragon = refl
instruction_set-IsSound byzantium = refl
instruction_set-IsSound constantinople = refl
instruction_set-IsSound istanbul = refl
instruction_set-IsSound berlin = refl
instruction_set-IsSound london = refl
instruction_set-IsSound merge = refl
instruction_set-IsSound shanghai = refl
instruction_set-IsSound cancun = refl
instruction_set-IsSound prague = refl
instruction_set-IsSound osaka = refl

all_below-IsSound : (n : ℕ) (p : ℕ → Bool) (k : ℕ) → all_below n p ≡ true → k < n → p k ≡ true
all_below-IsSound zero p k h lt = absurd (omega arith)
all_below-IsSound (suc n) p k h lt = ground (arith, all_below-IsSound n p k)

sound_at : (f : Fork) (k : ℕ) → k < 256 → is_sound (from_berlin f) (instruction_set f k) ≡ true
sound_at f k =
    all_below-IsSound 256 (λ k. is_sound (from_berlin f) (instruction_set f k)) k
      (instruction_set-IsSound f)

assign-IsSound :
    (c : Bool) (t : JumpTable) (i : ℕ) (o : Operation) (k : ℕ)
    → is_sound c o ≡ true
    → is_sound c (t k) ≡ true
    → is_sound c (assign t i o k) ≡ true
assign-IsSound c t i o k ho ht = elim (Bool-cases (i == k)) [ inl e ↦ rw e ho | inr e ↦ rw e ht ]

undefined-IsSound : (c : Bool) → is_sound c undefined ≡ true
unfolding removed added pops pushes max_stack min_stack
undefined-IsSound true = refl
undefined-IsSound false = refl

disable-IsSound :
    (c : Bool) (ops : List ℕ) (t : JumpTable) (k : ℕ)
    → is_sound c (t k) ≡ true
    → is_sound c (disable ops t k) ≡ true
unfolding disable
disable-IsSound c [] t k h = h
disable-IsSound c (op ∷ ops) t k h =
    disable-IsSound c ops _ k (assign-IsSound c t op undefined k (undefined-IsSound c) h)

difficulty-IsSound : (c : Bool) → is_sound c (instruction_set frontier Opcodes.difficulty) ≡ true
unfolding instruction_set new_frontier_instruction_set removed added pops pushes max_stack min_stack
difficulty-IsSound true = refl
difficulty-IsSound false = refl

-- A table, or the table with RANDOM replaced.
replaced-IsSound :
    (f : Fork) (k : ℕ) (b : Bool)
    → k < 256
    → is_sound (from_berlin f) (
        (if b
            then assign
                (instruction_set f)
                Opcodes.random
                (instruction_set frontier Opcodes.difficulty)
            else instruction_set f)
          k)
      ≡ true
replaced-IsSound f k true h =
    assign-IsSound (from_berlin f) (instruction_set f) Opcodes.random
      (instruction_set frontier Opcodes.difficulty) k (difficulty-IsSound (from_berlin f))
      (sound_at f k h)
replaced-IsSound f k false h = sound_at f k h

-- In every table that NewEVMInterpreter chooses, each operation is sound.
pub jump_table-IsSound :
    (r : ChainRules) (disabled : List ℕ) (k : ℕ)
    → k < 256
    → is_sound (from_berlin (fork_of r)) (jump_table r disabled k) ≡ true
unfolding jump_table
jump_table-IsSound r disabled k h =
    disable-IsSound (from_berlin (fork_of r)) disabled _ k
      (replaced-IsSound (fork_of r) k (r.is_shanghai && not r.is_merge) h)

four : (a b c d : Bool) → (a && b && c && d) ≡ true → (b ≡ true) × (c ≡ true) × (d ≡ true)
four a b c d h = ground arith

pub IsSound-parts :
    (cold : Bool) (o : Operation)
    → is_sound cold o ≡ true
    → (fits o ≡ true) × (priced o ≡ true) × ((cold || not (adds_cold o.dynamic_gas)) ≡ true)
IsSound-parts cold o = four (has_gas o) (fits o) (priced o) (cold || not (adds_cold o.dynamic_gas))

all_below_lem : (n : ℕ) (p : ℕ → Bool) → ((k : ℕ) → k < n → p k ≡ true) → all_below n p ≡ true
all_below_lem zero p h = refl
all_below_lem (suc n) p h =
    ground (arith, h n (omega arith), all_below_lem n p (λ k lt. h k (omega (arith, lt))))

first : (a b c d : Bool) → (a && b && c && d) ≡ true → a ≡ true
first a b c d h = ground arith

-- The table that NewEVMInterpreter chooses passes validate, whatever the rules are and whatever
-- opcodes the chain disables: each of the 256 operations with a memory function has a gas function.
pub validate-jump_table :
    (r : ChainRules) (disabled : List ℕ)
    → validate (jump_table r disabled) ≡ some (jump_table r disabled)
unfolding validate
validate-jump_table r disabled =
    rw
      (all_below_lem 256 (λ k. has_gas (jump_table r disabled k))
        (λ k lt. first _ _ _ _ (jump_table-IsSound r disabled k lt)))
      refl
