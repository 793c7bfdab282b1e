-- ===== src/Vm/Interpreter/Kept.antt =====
-- The state after a run (vm/interpreter.go), seen from a snapshot taken before it.
pub mod Gas
pub mod Simple
pub mod Calling
use cardinal_evm.Prelude.{
  ℕ, zero, suc, ◌-◌, ◌%◌, ◌==◌, ltb, ◌≡◌, refl, Bool, true, false, Bool-cases, inl, inr, Option,
  none, some, [], length, if◌then◌else◌,
}
use cardinal_evm.State.Account.{Bytes, Backend}
use cardinal_evm.State.Db.{StateDb}
use cardinal_evm.State.Db.Kept.{Kept, Kept-refl, Kept-same, Kept-trans}
use cardinal_evm.Vm.Contract.{Contract}
use cardinal_evm.Vm.Stack
use cardinal_evm.Vm.Scope
use cardinal_evm.Vm.Scope.{Host}
use cardinal_evm.Vm.Frame
use cardinal_evm.Vm.Frame.{Frame, Outcome}
use cardinal_evm.Vm.JumpTable.Operation.{Operation, JumpTable, Execute, simple, calling, GasFunc}
use cardinal_evm.Vm.Interpreter.{
  Machine, Round, next, done, panic, execute, executed_simple, executed_calling, charged, grow,
  after_frame, frame_of, memory_size_of, metered, paid, step_operation, step, loop, run, entered,
  operation_at,
}
use cardinal_evm.Vm.Interpreter.Dispatch.{gas_of, execute_simple}
use cardinal_evm.Vm.Interpreter.Calls.{Evm, execute_calling}
use cardinal_evm.Vm.Interpreter.Kept.Gas.{gas_of-KeepsDb, at_frame}
use cardinal_evm.Vm.Interpreter.Kept.Simple.{KeptBy, at_scope, execute_simple-KeepsState}
use cardinal_evm.Vm.Interpreter.Kept.Calling.{IsKeeping, execute_calling-KeepsState}

-- The state that a round leaves, and that a run leaves, when it ends.
abbrev pub Leaves : Backend → StateDb → Round → Type 0
Leaves b db (next m) = Kept b db m.scope.db
Leaves b db (done x ret m) = Kept b db m.scope.db
Leaves b db panic = Unit {0}

abbrev pub Ends : Backend → StateDb → Option Round → Type 0
Ends b db none = Unit {0}
Ends b db (some r) = Leaves b db r

module _ (h : Host) (e : Evm) (keeping : IsKeeping h.backend e) where
  Leaves-trans :
      (s t : StateDb) (r : Round) → Kept h.backend s t → Leaves h.backend t r → Leaves h.backend s r
  Leaves-trans s t (next m) k l = Kept-trans h.backend s t m.scope.db k l
  Leaves-trans s t (done x ret m) k l = Kept-trans h.backend s t m.scope.db k l
  Leaves-trans s t panic k l = tt

  executed_simple-Leaves :
      (m : Machine) (r : Scope.Step (Unit {0}))
      → KeptBy h.backend m.scope.db r
      → Leaves h.backend m.scope.db (executed_simple h e m r)
  unfolding executed_simple
  executed_simple-Leaves m (Scope.ok a s) k = k
  executed_simple-Leaves m (Scope.exit x ret s) k = k
  executed_simple-Leaves m Scope.crash k = tt

  executed_calling-Leaves :
      (m : Machine) (r : Scope.Step ℕ)
      → KeptBy h.backend m.scope.db r
      → Leaves h.backend m.scope.db (executed_calling h e m r)
  unfolding executed_calling
  executed_calling-Leaves m (Scope.ok a s) k = k
  executed_calling-Leaves m (Scope.exit x ret s) k = k
  executed_calling-Leaves m Scope.crash k = tt

  execute-Leaves : (x : Execute) (m : Machine) → Leaves h.backend m.scope.db (execute h e x m)
  unfolding execute
  execute-Leaves (simple x) m =
      executed_simple-Leaves m _
        (at_scope h.backend _ (execute_simple-KeepsState h m.gas x) m.scope)
  execute-Leaves (calling x) m = executed_calling-Leaves m _ (
      at_scope h.backend _ (execute_calling-KeepsState h e keeping m.gas m.call_gas_temp x) m.scope)

  grow-db : (size : ℕ) (m : Machine) → (grow h e size m).scope.db ≡ m.scope.db
  unfolding grow
  grow-db size m = elim (Bool-cases (ltb 0 size)) [ inl q ↦ rw q refl | inr q ↦ rw q refl ]

  charged-Leaves :
      (o : Operation) (size : ℕ) (m : Machine) (r : Outcome ℕ × Frame)
      → Kept h.backend m.scope.db r.1.db
      → Leaves h.backend m.scope.db (charged h e o size m r)
  unfolding charged after_frame
  charged-Leaves o size m (Frame.ok cost, f) k = elim (Bool-cases (ltb f.gas cost)) [
    | inl short ↦ rw short k
    | inr enough ↦
        let left : Machine = after_frame h e m (record f { gas = f.gas - cost }) in
        rw enough (
          Leaves-trans m.scope.db f.db _ k (
            Leaves-trans f.db (grow h e size left).scope.db _
              (Kept-same h.backend f.db _ (grow-db size left))
              (execute-Leaves o.execute (grow h e size left))))
  ]
  charged-Leaves o size m (Frame.err x, f) k = k
  charged-Leaves o size m (Frame.panic, f) k = tt

  metered-Leaves :
      (o : Operation) (g : GasFunc) (m : Machine) (r : Option (ℕ × Bool))
      → Leaves h.backend m.scope.db (metered h e o g m r)
  unfolding metered frame_of
  metered-Leaves o g m none = tt
  metered-Leaves o g m (some (size, true)) = Kept-refl h.backend m.scope.db
  metered-Leaves o g m (some (size, false)) =
      charged-Leaves o size m (gas_of h.words h.backend g size (frame_of h e m))
        (at_frame h.backend _ (gas_of-KeepsDb h.backend h.words g size) (frame_of h e m))

  paid-Leaves :
      (o : Operation) (g : Option GasFunc) (m : Machine)
      → Leaves h.backend m.scope.db (paid h e o g m)
  unfolding paid
  paid-Leaves o none m = execute-Leaves o.execute m
  paid-Leaves o (some g) m = metered-Leaves o g m (memory_size_of h e o.memory_size m)

  either-Leaves :
      (db : StateDb) (t : Bool) (r q : Round)
      → Leaves h.backend db r
      → Leaves h.backend db q
      → Leaves h.backend db (if t then r else q)
  either-Leaves db true r q k l = k
  either-Leaves db false r q k l = l

  step_operation-Leaves :
      (o : Operation) (m : Machine) → Leaves h.backend m.scope.db (step_operation h e o m)
  unfolding step_operation
  step_operation-Leaves o m =
      let kept = Kept-refl h.backend m.scope.db in
      either-Leaves m.scope.db (ltb (Stack.len m.scope.stack) o.min_stack) _ _ kept (
        either-Leaves m.scope.db (ltb o.max_stack (Stack.len m.scope.stack)) _ _ kept (
          either-Leaves m.scope.db (ltb m.gas o.constant_gas) _ _ kept
            (paid-Leaves o o.dynamic_gas (record m { gas = m.gas - o.constant_gas }))))

  module _ (t : JumpTable) where
    pub loop-Ends : (fuel : ℕ) (m : Machine) → Ends h.backend m.scope.db (loop h e t fuel m)
    unfolding loop step
    loop-Ends zero m = tt
    loop-Ends (suc fuel) m =
        after (loop-Ends fuel) (step h e t m) (step_operation-Leaves (operation_at h e t m) m)
      where
        further :
            (s u : StateDb) (r : Option Round)
            → Kept h.backend s u
            → Ends h.backend u r
            → Ends h.backend s r
        further s u none k l = tt
        further s u (some r) k l = Leaves-trans s u r k l

        after :
            ((m' : Machine) → Ends h.backend m'.scope.db (loop h e t fuel m'))
            → (q : Round) → Leaves h.backend m.scope.db q
            → Ends h.backend m.scope.db (elim q [
              | next m' ↦ loop h e t fuel m'
              | done x ret m' ↦ some (done x ret m')
              | panic ↦ some panic
            ])
        after again (next m') k = further m.scope.db m'.scope.db _ k (again m')
        after again (done x ret m') k = k
        after again panic k = tt

    pub run-Ends :
        (fuel : ℕ) (db : StateDb) (c : Contract) (input : Bytes) (gas temp : ℕ)
        → Ends h.backend db (run h e t fuel db c input gas temp)
    unfolding run entered
    run-Ends fuel db c input gas temp = elim (Bool-cases (length c.code == 0)) [
      | inl q ↦ rw q (Kept-refl h.backend db)
      | inr q ↦ rw q (loop-Ends fuel (entered h e t db (record c { input = input }) gas temp))
    ]
