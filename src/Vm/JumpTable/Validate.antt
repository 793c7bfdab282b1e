-- ===== src/Vm/JumpTable/Validate.antt =====
-- The choice of a table in NewEVMInterpreter (vm/interpreter.go), without the extra EIPs of a
-- configuration, and validate of vm/jump_table.go.
use cardinal_evm.Prelude.{
  ℕ, zero, suc, Bool, true, false, not, ◌&&◌, if◌then◌else◌, Option, none, some, List, [], ◌∷◌,
}
use cardinal_evm.Vm.Opcodes
use cardinal_evm.Vm.JumpTable.Operation.{Operation, JumpTable, undefined, assign}
use cardinal_evm.Vm.JumpTable.Frontier.{new_frontier_instruction_set}
use cardinal_evm.Vm.JumpTable.Forks

pub data Fork : Type 0 where
  frontier homestead tangerine_whistle spurious_dragon byzantium constantinople istanbul : Fork
  berlin london merge shanghai cancun prague osaka : Fork

-- The flags of params.Rules that the switch, the precompiles and the creations read.
pub record ChainRules : Type 0 where
  pub is_osaka : Bool
  pub is_prague : Bool
  pub is_cancun : Bool
  pub is_shanghai : Bool
  pub is_merge : Bool
  pub is_london : Bool
  pub is_berlin : Bool
  pub is_istanbul : Bool
  pub is_constantinople : Bool
  pub is_byzantium : Bool
  pub is_eip158 : Bool
  pub is_eip150 : Bool
  pub is_homestead : Bool
  pub is_napoli : Bool
  pub is_pip30 : Bool

unfoldable pub fork_of : ChainRules → Fork
fork_of r =
    if r.is_osaka
    then osaka
    else if r.is_prague
    then prague
    else if r.is_cancun
    then cancun
    else if r.is_shanghai
    then shanghai
    else if r.is_merge
    then merge
    else if r.is_london
    then london
    else if r.is_berlin
    then berlin
    else if r.is_istanbul
    then istanbul
    else if r.is_constantinople
    then constantinople
    else if r.is_byzantium
    then byzantium
    else if r.is_eip158
    then spurious_dragon
    else if r.is_eip150
    then tangerine_whistle
    else if r.is_homestead
    then homestead
    else frontier

unfoldable pub instruction_set : Fork → JumpTable
instruction_set frontier = new_frontier_instruction_set
instruction_set homestead = Forks.new_homestead_instruction_set
instruction_set tangerine_whistle = Forks.new_tangerine_whistle_instruction_set
instruction_set spurious_dragon = Forks.new_spurious_dragon_instruction_set
instruction_set byzantium = Forks.new_byzantium_instruction_set
instruction_set constantinople = Forks.new_constantinople_instruction_set
instruction_set istanbul = Forks.new_istanbul_instruction_set
instruction_set berlin = Forks.new_berlin_instruction_set
instruction_set london = Forks.new_london_instruction_set
instruction_set merge = Forks.new_merge_instruction_set
instruction_set shanghai = Forks.new_shanghai_instruction_set
instruction_set cancun = Forks.new_cancun_instruction_set
instruction_set prague = Forks.new_prague_instruction_set
instruction_set osaka = Forks.new_osaka_instruction_set

unfoldable pub disable : List ℕ → JumpTable → JumpTable
disable [] t = t
disable (op ∷ ops) t = disable ops (assign t op undefined)

-- The table of a fork with RANDOM as it was before the merge, where a chain has Shanghai without the
-- merge, and with the opcodes that the chain disables.
unfoldable pub jump_table : ChainRules → List ℕ → JumpTable
unfolding disable
jump_table r disabled =
    let t = instruction_set (fork_of r) in
    disable disabled (
      if r.is_shanghai && not r.is_merge
      then assign t Opcodes.random (instruction_set frontier Opcodes.difficulty)
      else t)

-- An operation with a memory function has a gas function.
abbrev pub has_gas : Operation → Bool
has_gas o = elim o.memory_size [
  | none ↦ true
  | some f ↦ elim o.dynamic_gas [ none ↦ false | some g ↦ true ]
]

abbrev pub all_below : ℕ → (ℕ → Bool) → Bool
all_below zero p = true
all_below (suc n) p = p n && all_below n p

-- `none` is the panic.
unfoldable pub validate : JumpTable → Option JumpTable
validate t = if all_below 256 (λ k. has_gas (t k)) then some t else none
