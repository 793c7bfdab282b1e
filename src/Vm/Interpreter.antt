-- ===== src/Vm/Interpreter.antt =====
-- vm/interpreter.go: the step of Run's loop, and the loop. The tracer's calls are left out.
pub mod Dispatch
pub mod Calls
pub mod Effect
pub mod Depth
pub mod Sound
pub mod CallCost
pub mod Cost
pub mod Charged
pub mod Paid
pub mod Spent
pub mod Affords
pub mod Progress
pub mod ReadOnly
pub mod Kept
pub mod Tests
pub mod Bounds
use cardinal_evm.Prelude.{
  ℕ, zero, suc, ◌+◌, ◌-◌, ◌%◌, ltb, Bool, true, false, if◌then◌else◌, Option, none, some, List, [],
  ◌==◌, add64, sub64, length,
}
use cardinal_evm.State.Account.{Bytes}
use cardinal_evm.Vm.Math.{safe_mul}
use cardinal_evm.Vm.Common.{to_word_size}
use cardinal_evm.State.Db.{StateDb}
use cardinal_evm.Vm.Memory
use cardinal_evm.Vm.Memory.{new_memory}
use cardinal_evm.Vm.Stack
use cardinal_evm.Vm.Contract.{Contract, get_op}
use cardinal_evm.Vm.Scope
use cardinal_evm.Vm.Scope.{
  Scope, Host, Exit, stop_token, stack_underflow, stack_overflow, out_of_gas, gas_uint_overflow,
}
use cardinal_evm.Vm.Frame
use cardinal_evm.Vm.Frame.{Frame, Outcome}
use cardinal_evm.Vm.JumpTable.Operation.{
  Operation, JumpTable, Execute, simple, calling, GasFunc, MemoryFunc,
}
use cardinal_evm.Vm.Interpreter.Dispatch.{execute_simple, memory_of, gas_of}
use cardinal_evm.Vm.Interpreter.Calls.{Evm, execute_calling}

-- The scope, the gas of the contract, and evm.callGasTemp.
pub record Machine : Type 0 where
  pub scope : Scope
  pub gas : ℕ
  pub call_gas_temp : ℕ

-- A round of the loop: the next machine, the error that ends the run with what is returned, a panic.
pub data Round : Type 0 where
  next : Machine → Round
  done : Exit → Bytes → Machine → Round
  panic : Round

module _ (h : Host) (e : Evm) where
  frame_of : Machine → Frame
  frame_of m = record {
    rules = h.rules;
    address = m.scope.contract.address;
    gas = m.gas;
    stack = m.scope.stack;
    mem = m.scope.mem;
    call_gas_temp = m.call_gas_temp;
    db = m.scope.db;
  }

  -- What a gas function left of the frame it was given.
  after_frame : Machine → Frame → Machine
  after_frame m f = record m {
    scope = record m.scope { mem = f.mem; db = f.db };
    gas = f.gas;
    call_gas_temp = f.call_gas_temp;
  }

  advance : Scope → Scope
  advance s = record s { pc = add64 s.pc 1 }

  -- `operation.execute`, and `pc++`
  executed_simple : Machine → Scope.Step (Unit {0}) → Round
  unfolding advance
  executed_simple m (Scope.ok done' s) = next (record m { scope = advance s })
  executed_simple m (Scope.exit x ret s) = done x ret (record m { scope = s })
  executed_simple m Scope.crash = panic

  executed_calling : Machine → Scope.Step ℕ → Round
  unfolding advance
  executed_calling m (Scope.ok gas s) = next (record m { scope = advance s; gas = gas })
  executed_calling m (Scope.exit x ret s) = done x ret (record m { scope = s })
  executed_calling m Scope.crash = panic

  unfoldable pub execute : Execute → Machine → Round
  unfolding executed_simple executed_calling
  execute (simple x) m = executed_simple m (execute_simple h m.gas x m.scope)
  execute (calling x) m = executed_calling m (execute_calling h e m.gas m.call_gas_temp x m.scope)

  -- The resize to the size that was paid for, and the execution.
  grow : ℕ → Machine → Machine
  grow memory_size m =
      if ltb 0 memory_size
      then record m { scope = record m.scope { mem = Memory.resize m.scope.mem memory_size } }
      else m

  charged : Operation → ℕ → Machine → Outcome ℕ × Frame → Round
  unfolding grow after_frame
  charged o memory_size m (Frame.ok cost, f) =
      if ltb f.gas cost
      then done out_of_gas [] (after_frame m f)
      else execute o.execute (grow memory_size (after_frame m (record f { gas = f.gas - cost })))
  charged o memory_size m (Frame.err x, f) = done out_of_gas [] (after_frame m f)
  charged o memory_size m (Frame.panic, f) = panic

  -- The memory's size in bytes of whole words.
  sized : ℕ × Bool → ℕ × Bool
  sized (size, true) = (0, true)
  sized (size, false) = safe_mul (to_word_size size) 32

  memory_size_of : Option MemoryFunc → Machine → Option (ℕ × Bool)
  unfolding sized
  memory_size_of none m = some (0, false)
  memory_size_of (some f) m = elim (memory_of h.words f m.scope.stack) [
    | none ↦ none
    | some r ↦ some (sized r)
  ]

  metered : Operation → GasFunc → Machine → Option (ℕ × Bool) → Round
  unfolding charged frame_of
  metered o g m none = panic
  metered o g m (some (size, true)) = done gas_uint_overflow [] m
  metered o g m (some (size, false)) =
      charged o size m (gas_of h.words h.backend g size (frame_of m))

  -- After the constant gas.
  paid : Operation → Option GasFunc → Machine → Round
  unfolding metered memory_size_of
  paid o none m = execute o.execute m
  paid o (some g) m = metered o g m (memory_size_of o.memory_size m)

  unfoldable pub step_operation : Operation → Machine → Round
  unfolding paid
  step_operation o m =
      let depth = Stack.len m.scope.stack in
      if ltb depth o.min_stack
      then done stack_underflow [] m
      else if ltb o.max_stack depth
      then done stack_overflow [] m
      else if ltb m.gas o.constant_gas
      then done out_of_gas [] m
      else paid o o.dynamic_gas (record m { gas = m.gas - o.constant_gas })

  module _ (t : JumpTable) where
    -- The index into the table is a byte.
    abbrev pub operation_at : Machine → Operation
    operation_at m = t (get_op m.scope.contract m.scope.pc % 256)

    unfoldable pub step : Machine → Round
    step m = step_operation (operation_at m) m

    -- The loop of Run; its rounds are bounded by the fuel, and `none` is fuel that ran out.
    unfoldable pub loop : ℕ → Machine → Option Round
    loop zero m = none
    loop (suc fuel) m = elim (step m) [
      | next m' ↦ loop fuel m'
      | done x ret m' ↦ some (done x ret m')
      | panic ↦ some panic
    ]

    -- What Run starts with.
    unfoldable pub entered : StateDb → Contract → ℕ → ℕ → Machine
    entered db c gas call_gas_temp = record {
      scope = record {
        stack = [];
        mem = new_memory;
        db = db;
        pc = 0;
        return_data = [];
        contract = c;
      };
      gas = gas;
      call_gas_temp = call_gas_temp;
    }

    -- Run, where the caller takes the stop token for no error; the depth and the read-only flag, which
    -- Run sets for its length, stand in the host.
    unfoldable pub run : ℕ → StateDb → Contract → Bytes → ℕ → ℕ → Option Round
    unfolding loop entered
    run fuel db c input gas call_gas_temp =
        if length c.code == 0
        then some (done stop_token [] (entered db c gas call_gas_temp))
        else loop fuel (entered db (record c { input = input }) gas call_gas_temp)
