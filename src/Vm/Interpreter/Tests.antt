-- ===== src/Vm/Interpreter/Tests.antt =====
-- The interpreter on a small host, and uses of its theorems there.
use cardinal_evm.Prelude.{
  length, ℕ, ◌+◌, ◌-◌, ◌*◌, ◌/◌, ◌%◌, ◌^◌, ◌≤◌, ◌≡◌, ◌≢◌, refl, arith, ltb, ◌==◌, Bool, true, false,
  Option, none, some, List, [], ◌∷◌, IsU64,
}
use cardinal_evm.State.Db.{new_state_db}
use cardinal_evm.State.Tests.{chain}
use cardinal_evm.Vm.Tests.{words}
use cardinal_evm.Vm.Params
use cardinal_evm.Vm.Stack
use cardinal_evm.Vm.Memory.{new_memory}
use cardinal_evm.Vm.Contract.{Contract, new_contract, set_call_code, get_op}
use cardinal_evm.Vm.Scope
use cardinal_evm.Vm.Scope.{Scope, Host, Arith}
use cardinal_evm.Vm.JumpTable.Operation.{max_stack, min_stack}
use cardinal_evm.Vm.JumpTable.Frontier.{new_frontier_instruction_set}
use cardinal_evm.Vm.JumpTable.Forks
use cardinal_evm.Vm.JumpTable.Validate.{ChainRules, fork_of, instruction_set, jump_table, validate}
use cardinal_evm.Vm.Instructions.Control
use cardinal_evm.Vm.Interpreter.{Machine, next, step, run, operation_at, execute, step_operation}
use cardinal_evm.Vm.Interpreter.Dispatch.{execute_simple}
use cardinal_evm.Vm.Interpreter.Calls.{Answer, Evm}
use cardinal_evm.Vm.Interpreter.Effect.{removed, added}
use cardinal_evm.Vm.Analysis.{bitmap_loop, code_bitmap, new_bits}
use cardinal_evm.Vm.Analysis.Rounds
use cardinal_evm.Vm.Analysis.Total
use cardinal_evm.Vm.Jumps
use cardinal_evm.Vm.Jumps.{Lands}
use cardinal_evm.Vm.Interpreter.Bounds
use cardinal_evm.Vm.Interpreter.Sound
use cardinal_evm.Vm.Interpreter.Spent.{IsFrugal}
use cardinal_evm.Vm.Interpreter.Progress
use cardinal_evm.Vm.Interpreter.ReadOnly

abbrev pub word : ℕ → ℕ
word x = x % 2 ^ 256

-- The unsigned operations; the others answer 0.
abbrev pub arithmetic : Arith
arithmetic = record {
  add = λ x y. word (x + y);
  sub = λ x y. word (x + 2 ^ 256 - y);
  mul = λ x y. word (x * y);
  div = λ x y. x / y;
  sdiv = λ x y. 0;
  rem = λ x y. x % y;
  srem = λ x y. 0;
  exp = λ x y. 0;
  extend_sign = λ x y. 0;
  and = λ x y. 0;
  or = λ x y. 0;
  xor = λ x y. 0;
  byte = λ x y. 0;
  lsh = λ x y. word (x * 2 ^ y);
  rsh = λ x y. x / 2 ^ y;
  srsh = λ x y. 0;
  add_mod = λ x y z. (x + y) % z;
  mul_mod = λ x y z. x * y % z;
  not = λ x. 2 ^ 256 - 1 - x;
  lt = λ x y. ltb x y;
  slt = λ x y. false;
  sgt = λ x y. false;
  eq = λ x y. x == y;
  sign = λ x. ltb x (2 ^ 255);
  from_big = λ z. 0;
  set_bytes = λ bytes. 0;
}

abbrev pub host : Bool → Host
host static = record {
  words = words;
  arith = arithmetic;
  backend = chain;
  rules = record {
    is_eip150 = true;
    is_eip158 = true;
    is_petersburg = true;
    is_constantinople = true;
  };
  is_homestead = true;
  read_only = static;
  abort = λ gas. false;
  origin = 1;
  coinbase = 2;
  gas_price = 1;
  timestamp = 1;
  number = 1;
  difficulty = 0;
  random = 0;
  gas_limit = 30000000;
  base_fee = 7;
  blob_base_fee = 1;
  chain_id = 1;
  blob_hashes = [];
  get_hash = λ n. 0;
}

-- Every call succeeds at once and leaves over all its gas.
abbrev untouched : Scope → ℕ → Option Answer
untouched s gas = some (record {
  ret = [];
  created = 0;
  left = gas;
  error = none;
  db = s.db;
  jumpdests = s.contract.jumpdests;
})

abbrev evm : Evm
evm = record {
  call = λ s args a gas value. untouched s gas;
  call_code = λ s args a gas value. untouched s gas;
  delegate_call = λ s args a gas. untouched s gas;
  static_call = λ s args a gas. untouched s gas;
  create = λ s input gas value. untouched s gas;
  create2 = λ s input gas value salt. untouched s gas;
}

left_over : (s : Scope) (gas : ℕ) (r : Answer) → IsU64 gas → untouched s gas ≡ some r → r.left ≤ gas
left_over s gas r u e = ground arith

evm-IsFrugal : IsFrugal evm
evm-IsFrugal = record {
  call = λ s args a gas value. left_over s gas;
  call_code = λ s args a gas value. left_over s gas;
  delegate_call = λ s args a gas. left_over s gas;
  static_call = λ s args a gas. left_over s gas;
  create = λ s input gas value. left_over s gas;
  create2 = λ s input gas value salt. left_over s gas;
}

abbrev pub cancun_rules : ChainRules
cancun_rules = record {
  is_homestead = true;
  is_eip150 = true;
  is_eip158 = true;
  is_byzantium = true;
  is_constantinople = true;
  is_istanbul = true;
  is_berlin = true;
  is_london = true;
  is_merge = true;
  is_shanghai = true;
  is_cancun = true;
  is_prague = false;
  is_osaka = false;
  is_napoli = false;
  is_pip30 = false;
}

-- JUMPDEST, PUSH1 0, JUMP: a loop that only the gas ends.
abbrev spinning : Contract
unfolding set_call_code new_contract
spinning = set_call_code (new_contract 1 none 2 0) 0 (0x5b ∷ 0x60 ∷ 0 ∷ 0x56 ∷ [])

-- Run of a loop without an exit ends.
run-ne-none_example :
    run (host false) evm (jump_table cancun_rules []) (100000 + 1) new_state_db spinning [] 100000 0
    ≢ none
run-ne-none_example =
    Progress.run-ne-none (host false) evm evm-IsFrugal cancun_rules [] (λ h. refl) new_state_db
      spinning [] 100000 0 (omega arith)

-- Before PUSH1, with two items on the stack.
abbrev pushing : ℕ → ℕ → List ℕ → Machine
unfolding new_memory
pushing gas pc stack = record {
  scope = record {
    stack = stack;
    mem = new_memory;
    db = new_state_db;
    pc = pc;
    return_data = [];
    contract = spinning;
  };
  gas = gas;
  call_gas_temp = 0;
}

push1_runs :
    step (host false) evm (jump_table cancun_rules []) (pushing 100 1 (7 ∷ 8 ∷ []))
    ≡ next (pushing 97 3 (0 ∷ 7 ∷ 8 ∷ []))
unfolding step step_operation execute execute_simple jump_table instruction_set fork_of
    set_call_code new_contract new_memory new_state_db get_op Stack.len Stack.push Scope.push
    Control.op_push1 max_stack min_stack new_frontier_instruction_set
    Forks.new_homestead_instruction_set Forks.new_tangerine_whistle_instruction_set
    Forks.new_spurious_dragon_instruction_set Forks.new_byzantium_instruction_set
    Forks.new_constantinople_instruction_set Forks.new_istanbul_instruction_set
    Forks.new_berlin_instruction_set Forks.new_london_instruction_set
    Forks.new_merge_instruction_set Forks.new_shanghai_instruction_set
    Forks.new_cancun_instruction_set Forks.new_prague_instruction_set
    Forks.new_osaka_instruction_set
push1_runs = refl

step-bounds_example :
    (removed
        (operation_at
          (host false)
          evm
          (jump_table cancun_rules [])
          (pushing 100 1 (7 ∷ 8 ∷ []))).execute
      ≤ 2)
    × (3
          + removed
              (operation_at
                (host false)
                evm
                (jump_table cancun_rules [])
                (pushing 100 1 (7 ∷ 8 ∷ []))).execute
        ≡ 2
          + added
              (operation_at
                (host false)
                evm
                (jump_table cancun_rules [])
                (pushing 100 1 (7 ∷ 8 ∷ []))).execute)
    × (3 ≤ Params.stack_limit)
unfolding pushing removed added
step-bounds_example =
    Bounds.step-bounds (host false) evm cancun_rules [] (pushing 100 1 (7 ∷ 8 ∷ []))
      (pushing 97 3 (0 ∷ 7 ∷ 8 ∷ [])) push1_runs

validate-jump_table_example :
    validate (jump_table cancun_rules (0xff ∷ [])) ≡ some (jump_table cancun_rules (0xff ∷ []))
validate-jump_table_example = Sound.validate-jump_table cancun_rules (0xff ∷ [])

-- JUMP to the JUMPDEST at 0, which goes on.
op_jump-Lands_example :
    Lands
      (pushing 100 3 (0 ∷ [])).scope
      (Control.op_jump (host false) 100 (pushing 100 3 (0 ∷ [])).scope)
op_jump-Lands_example = Jumps.op_jump-Lands (host false) 100 (pushing 100 3 (0 ∷ [])).scope

code_bitmap-returns_example :
    (bits : List ℕ) × (code_bitmap (0x5b ∷ 0x7f ∷ []) ≡ some bits) × (length bits ≡ 5)
code_bitmap-returns_example = Total.code_bitmap-returns (0x5b ∷ 0x7f ∷ [])

code_bitmap-ends_example :
    bitmap_loop (0x60 ∷ 0x5b ∷ []) 100 0 (new_bits (0x60 ∷ 0x5b ∷ []))
    ≡ some (code_bitmap (0x60 ∷ 0x5b ∷ []))
code_bitmap-ends_example = Rounds.code_bitmap-ends (0x60 ∷ 0x5b ∷ []) 100 (omega arith)
