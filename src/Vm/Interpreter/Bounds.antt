-- ===== src/Vm/Interpreter/Bounds.antt =====
-- The depth of the stack across the rounds of the loop.
use cardinal_evm.Prelude.{
  ℕ, ◌+◌, ◌-◌, ◌≤◌, ◌≡◌, arith, length, List, Bool, true, false, Option, none, some,
}
use cardinal_evm.Vm.Stack
use cardinal_evm.Vm.Params
use cardinal_evm.Vm.Scope.{Host}
use cardinal_evm.Vm.Frame
use cardinal_evm.Vm.Frame.{Frame, Outcome}
use cardinal_evm.Vm.Interpreter.{
  Machine, Round, next, done, panic, execute, charged, grow, after_frame, frame_of, memory_size_of,
  metered, paid, step_operation, step, operation_at,
}
use cardinal_evm.Vm.JumpTable.Operation.{Operation, Execute, simple, calling, GasFunc}
use cardinal_evm.Vm.JumpTable.Validate.{ChainRules, jump_table}
use cardinal_evm.Vm.Interpreter.Dispatch.{gas_of}
use cardinal_evm.Vm.Interpreter.Calls.{Evm}
use cardinal_evm.Vm.Interpreter.Effect.{removed, added}
use cardinal_evm.Vm.Interpreter.Depth.{execute_simple-Shifts, execute_calling-Shifts}
use cardinal_evm.Vm.Interpreter.Sound.{fits, IsSound-parts, jump_table-IsSound}

abbrev Moves : ℕ → ℕ → ℕ → Round → Type 0
Moves n i j (next m) = length m.scope.stack + i ≡ n + j
Moves n i j (done x ret m) = Unit {0}
Moves n i j panic = Unit {0}

module _ (h : Host) (e : Evm) where
  execute-Moves :
      (x : Execute) (m : Machine)
      → Moves (length m.scope.stack) (removed x) (added x) (execute h e x m)
  unfolding execute removed added
  execute-Moves (simple x) m = ground (arith, execute_simple-Shifts h m.gas x m.scope)
  execute-Moves (calling x) m =
      ground (arith, execute_calling-Shifts h e m.gas m.call_gas_temp x m.scope)

  charged-Moves :
      (o : Operation) (size : ℕ) (m : Machine) (r : Outcome ℕ × Frame)
      → Moves (length m.scope.stack) (removed o.execute) (added o.execute) (charged h e o size m r)
  unfolding charged grow after_frame
  charged-Moves o size m (Frame.ok cost, f) = grind (arith, execute-Moves)
  charged-Moves o size m (Frame.err x, f) = tt
  charged-Moves o size m (Frame.panic, f) = tt

  metered-Moves :
      (o : Operation) (g : GasFunc) (m : Machine) (r : Option (ℕ × Bool))
      → Moves (length m.scope.stack) (removed o.execute) (added o.execute) (metered h e o g m r)
  unfolding metered
  metered-Moves o g m none = tt
  metered-Moves o g m (some (size, true)) = tt
  metered-Moves o g m (some (size, false)) =
      charged-Moves o size m (gas_of h.words h.backend g size (frame_of h e m))

  paid-Moves :
      (o : Operation) (g : Option GasFunc) (m : Machine)
      → Moves (length m.scope.stack) (removed o.execute) (added o.execute) (paid h e o g m)
  unfolding paid
  paid-Moves o none m = execute-Moves o.execute m
  paid-Moves o (some g) m = metered-Moves o g m (memory_size_of h e o.memory_size m)

  step_operation-bounds :
      (o : Operation) (m m' : Machine)
      → fits o ≡ true
      → step_operation h e o m ≡ next m'
      → (removed o.execute ≤ length m.scope.stack)
        × (length m'.scope.stack + removed o.execute ≡ length m.scope.stack + added o.execute)
        × (length m'.scope.stack ≤ Params.stack_limit)
  unfolding step_operation Stack.len
  step_operation-bounds o m m' s q =
      ground (arith, paid-Moves o o.dynamic_gas (record m { gas = m.gas - o.constant_gas }))

  -- On every table that NewEVMInterpreter chooses, whatever opcodes the chain disables: a round of the
  -- loop that goes on had on the stack the items that its instruction takes, changes the depth by
  -- what the instruction takes and puts, and leaves no more than 1024 items.
  pub step-bounds :
      (r : ChainRules) (disabled : List ℕ) (m m' : Machine)
      → step h e (jump_table r disabled) m ≡ next m'
      → (removed (operation_at h e (jump_table r disabled) m).execute ≤ length m.scope.stack)
        × (length m'.scope.stack + removed (operation_at h e (jump_table r disabled) m).execute
            ≡ length m.scope.stack + added (operation_at h e (jump_table r disabled) m).execute)
        × (length m'.scope.stack ≤ Params.stack_limit)
  unfolding step
  step-bounds r disabled m m' q =
      step_operation-bounds _ m m'
        (IsSound-parts _ _ (jump_table-IsSound r disabled _ (omega arith))).0 q
