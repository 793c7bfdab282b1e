-- ===== src/Vm/Interpreter/Progress.antt =====
-- Every round of the loop that goes on lowers the gas, so the gas bounds the rounds.
use cardinal_evm.Prelude.{
  ℕ, zero, suc, ◌+◌, ◌-◌, ◌%◌, ◌≤◌, ◌<◌, ◌≡◌, ◌≢◌, refl, arith, ltb, Bool, true, false, not, ◌||◌,
  ◌==◌, Bool-cases, inl, inr, Option, none, some, List, length, IsU64,
}
use cardinal_evm.State.Account.{Bytes}
use cardinal_evm.State.Db.{StateDb}
use cardinal_evm.Vm.Contract.{Contract}
use cardinal_evm.Vm.Math.{safe_mul}
use cardinal_evm.Vm.Memory
use cardinal_evm.Vm.Memory.{Memory, new_memory}
use cardinal_evm.Vm.Scope
use cardinal_evm.Vm.Scope.{Exit, Host}
use cardinal_evm.Vm.Frame
use cardinal_evm.Vm.Frame.{Frame, Outcome}
use cardinal_evm.Vm.JumpTable.Operation.{
  Operation, Execute, simple, calling, Simple, Calling, GasFunc, MemoryFunc,
}
use cardinal_evm.Vm.JumpTable.Validate.{ChainRules, fork_of, jump_table}
use cardinal_evm.Vm.Interpreter.{
  Machine, Round, next, done, panic, execute, executed_simple, executed_calling, charged, grow,
  after_frame, frame_of, sized, memory_size_of, metered, paid, step_operation, step, loop, run,
  entered, operation_at,
}
use cardinal_evm.Vm.Interpreter.Dispatch.{gas_of, memory_of}
use cardinal_evm.Vm.Interpreter.Calls.{Evm}
use cardinal_evm.Vm.Interpreter.Sound.{
  halts, prices, priced, adds_cold, from_berlin, IsSound-parts, jump_table-IsSound,
}
use cardinal_evm.Vm.Interpreter.Affords.{Affords, prices-Affords, unmetered-Affords}
use cardinal_evm.Vm.Interpreter.Cost.{Costs, gas_of-Costs}
use cardinal_evm.Vm.Interpreter.Charged.{Within, gas_of-KeepsMemory}
use cardinal_evm.Vm.Interpreter.Paid.{
  IsCovered, grown_cost, grown_cost_bounds, resize-IsCovered, memory_fee-IsSmallFee,
}
use cardinal_evm.Vm.Interpreter.Spent.{
  IsAs, GoesOn, Returns, keeps_gas, IsFrugal, returned, execute_simple-GoesOn,
  execute_calling-Returns,
}

IsAs-IsCovered : (m n : Memory) → IsAs m n → IsCovered m → IsCovered n
IsAs-IsCovered m n (size, last) c = rw (size, last) c

-- The gas after the last round, where the caller keeps it.
abbrev pub Keeps : ℕ → Exit → ℕ → Type 0
Keeps n x gas = keeps_gas x ≡ true → gas ≤ n

abbrev Lowers : ℕ → Round → Type 0
Lowers n (next m) = (m.gas < n) × IsCovered m.scope.mem
Lowers n (done x ret m) = Keeps n x m.gas
Lowers n panic = Unit {0}

abbrev pub Finishes : ℕ → Option Round → Type 0
Finishes n none = Unit {0}
Finishes n (some (next m)) = Unit {0}
Finishes n (some panic) = Unit {0}
Finishes n (some (done x ret m)) = Keeps n x m.gas

abbrev IsWhole : Option (ℕ × Bool) → Type 0
IsWhole (some (size, false)) = size % 32 ≡ 0
IsWhole (some (size, true)) = Unit {0}
IsWhole none = Unit {0}

module _ (h : Host) (e : Evm) (frugal : IsFrugal e) where
  simple-Lowers :
      (x : Simple) (m : Machine) (n : ℕ) (r : Scope.Step (Unit {0}))
      → IsCovered m.scope.mem
      → m.gas ≤ n
      → (halts x ≡ false → m.gas < n)
      → GoesOn x m.scope r
      → Lowers n (executed_simple h e m r)
  unfolding executed_simple
  simple-Lowers x m n (Scope.ok a s) c at l (goes, kept) =
      (l goes, IsAs-IsCovered m.scope.mem s.mem kept c)
  simple-Lowers x m n (Scope.exit q ret s) c at l g = λ k. at
  simple-Lowers x m n Scope.crash c at l g = tt

  calling-Lowers :
      (x : Calling) (m : Machine) (n : ℕ) (r : Scope.Step ℕ)
      → IsCovered m.scope.mem
      → m.gas + returned h.words x m.call_gas_temp m.scope.stack < n
      → Returns m.gas (returned h.words x m.call_gas_temp m.scope.stack) m.scope r
      → Lowers n (executed_calling h e m r)
  unfolding executed_calling
  calling-Lowers x m n (Scope.ok a s) c l (most, kept) =
      (omega (arith, l, most), IsAs-IsCovered m.scope.mem s.mem kept c)
  calling-Lowers x m n (Scope.exit q ret s) c l g = λ k. absurd (ground arith)
  calling-Lowers x m n Scope.crash c l g = tt

  execute-Lowers :
      (x : Execute) (m : Machine) (n : ℕ)
      → IsCovered m.scope.mem
      → m.gas ≤ n
      → IsU64 n
      → Affords h.words x m.gas m.call_gas_temp m.scope.stack n
      → Lowers n (execute h e x m)
  unfolding execute
  execute-Lowers (simple x) m n c l u a =
      simple-Lowers x m n _ c l a (execute_simple-GoesOn h m.gas x m.scope)
  execute-Lowers (calling x) m n c l u a =
      calling-Lowers x m n _ c a
        (execute_calling-Returns h e m.gas m.call_gas_temp x m.scope frugal (omega (arith, u, a)))

  grow-Affords :
      (x : Execute) (size : ℕ) (m : Machine) (n : ℕ)
      → Affords h.words x m.gas m.call_gas_temp m.scope.stack n
      → Affords h.words x
          (grow h e size m).gas
          (grow h e size m).call_gas_temp
          (grow h e size m).scope.stack
          n
  unfolding grow
  grow-Affords x size m n a = elim (Bool-cases (ltb 0 size)) [ inl q ↦ rw q a | inr q ↦ rw q a ]

  grow-mem : (size : ℕ) (m : Machine) → (grow h e size m).scope.mem ≡ Memory.resize m.scope.mem size
  unfolding grow Memory.resize
  grow-mem size m = ground arith

  grow-gas : (size : ℕ) (m : Machine) → (grow h e size m).gas ≡ m.gas
  unfolding grow
  grow-gas size m = ground arith

  charged-Lowers :
      (o : Operation) (g : GasFunc) (size : ℕ) (m : Machine) (n : ℕ) (r : Outcome ℕ × Frame)
      → prices o.execute o.constant_gas (some g) ≡ true
      → m.gas + o.constant_gas ≤ n
      → IsU64 n
      → Costs h.words g (frame_of h e m) r
      → Within (grown_cost m.scope.mem size) m.scope.mem.store r.1.mem
      → Lowers n (charged h e o size m r)
  unfolding charged after_frame frame_of
  charged-Lowers o g size m n (Frame.ok cost, f) p l u (kept, least) w =
      elim (Bool-cases (ltb f.gas cost)) [
        | inl short ↦ rw short (λ k. absurd (ground arith))
        | inr enough ↦
            let left : Machine = after_frame h e m (record f { gas = f.gas - cost }) in
            rw enough (
              execute-Lowers o.execute (grow h e size left) n
                (rw (grow-mem size left) (resize-IsCovered m.scope.mem f.mem size w))
                (rw (grow-gas size left) (omega (arith, kept, l))) u
                (grow-Affords o.execute size left n (
                  prices-Affords h.words o.execute o.constant_gas cost (f.gas - cost) n
                    f.call_gas_temp g m.scope.stack p least (ground arith))))
      ]
  charged-Lowers o g size m n (Frame.err x, f) p l u c w = λ k. absurd (ground arith)
  charged-Lowers o g size m n (Frame.panic, f) p l u c w = tt

  sized-IsWhole : (r : ℕ × Bool) → IsWhole (some (sized h e r))
  unfolding sized safe_mul
  sized-IsWhole (size, true) = tt
  sized-IsWhole (size, false) = ground arith

  memory_size_of-IsWhole : (f : Option MemoryFunc) (m : Machine) → IsWhole (memory_size_of h e f m)
  unfolding memory_size_of
  memory_size_of-IsWhole none m = refl
  memory_size_of-IsWhole (some f) m = of_size (memory_of h.words f m.scope.stack)
    where
      of_size :
          (r : Option (ℕ × Bool)) → IsWhole (elim r [ none ↦ none | some r ↦ some (sized h e r) ])
      of_size none = tt
      of_size (some r) = sized-IsWhole r

  metered-Lowers :
      (o : Operation) (g : GasFunc) (m : Machine) (n : ℕ) (r : Option (ℕ × Bool))
      → prices o.execute o.constant_gas (some g) ≡ true
      → (adds_cold (some g) ≡ true → h.rules.is_eip150 ≡ true)
      → m.gas + o.constant_gas ≤ n
      → IsU64 n
      → IsCovered m.scope.mem
      → IsWhole r
      → Lowers n (metered h e o g m r)
  unfolding metered frame_of
  metered-Lowers o g m n none p q l u c w = tt
  metered-Lowers o g m n (some (size, true)) p q l u c w = λ k. absurd (ground arith)
  metered-Lowers o g m n (some (size, false)) p q l u c w =
      let (at_size, before) = grown_cost_bounds m.scope.mem size c in
      charged-Lowers o g size m n (gas_of h.words h.backend g size (frame_of h e m)) p l u
        (gas_of-Costs h.words h.backend g size (frame_of h e m) (omega (arith, l, u))
          (memory_fee-IsSmallFee size m.scope.mem w c) q)
        (gas_of-KeepsMemory size (grown_cost m.scope.mem size) at_size w m.scope.mem.store h.words
          h.backend g (frame_of h e m) (refl, before))

  paid-Lowers :
      (o : Operation) (g : Option GasFunc) (m : Machine) (n : ℕ)
      → prices o.execute o.constant_gas g ≡ true
      → (adds_cold g ≡ true → h.rules.is_eip150 ≡ true)
      → m.gas + o.constant_gas ≤ n
      → IsU64 n
      → IsCovered m.scope.mem
      → Lowers n (paid h e o g m)
  unfolding paid
  paid-Lowers o none m n p q l u c =
      execute-Lowers o.execute m n c (omega (arith, l)) u (
        unmetered-Affords h.words o.execute o.constant_gas m.gas n m.call_gas_temp m.scope.stack p
          l)
  paid-Lowers o (some g) m n p q l u c =
      metered-Lowers o g m n (memory_size_of h e o.memory_size m) p q l u c
        (memory_size_of-IsWhole o.memory_size m)

  step_operation-Lowers :
      (o : Operation) (m : Machine)
      → priced o ≡ true
      → (adds_cold o.dynamic_gas ≡ true → h.rules.is_eip150 ≡ true)
      → IsU64 m.gas
      → IsCovered m.scope.mem
      → Lowers m.gas (step_operation h e o m)
  unfolding step_operation
  step_operation-Lowers o m p q u c = ground (
    arith,
    λ (fits : ltb m.gas o.constant_gas ≡ false).
        paid-Lowers o o.dynamic_gas (record m { gas = m.gas - o.constant_gas }) m.gas p q
          (ground arith) u c,
  )

  module _ (r : ChainRules) (disabled : List ℕ)
      (since : from_berlin (fork_of r) ≡ true → h.rules.is_eip150 ≡ true) where
    cold_rule :
        (cold : Bool) (g : Option GasFunc)
        → (cold || not (adds_cold g)) ≡ true
        → (cold ≡ true → h.rules.is_eip150 ≡ true)
        → adds_cold g ≡ true
        → h.rules.is_eip150 ≡ true
    cold_rule true g q k a = k refl
    cold_rule false g q k a = absurd (ground arith)

    pub step-Lowers :
        (m : Machine)
        → IsU64 m.gas
        → IsCovered m.scope.mem
        → Lowers m.gas (step h e (jump_table r disabled) m)
    unfolding step
    step-Lowers m u c =
        let o : Operation = operation_at h e (jump_table r disabled) m in
        let (fits, price, cold) =
          IsSound-parts (from_berlin (fork_of r)) o
            (jump_table-IsSound r disabled _ (omega arith)) in
        step_operation-Lowers o m price
          (cold_rule (from_berlin (fork_of r)) o.dynamic_gas cold since) u c

    pub loop-ne-none :
        (fuel : ℕ) (m : Machine)
        → m.gas < fuel
        → IsU64 m.gas
        → IsCovered m.scope.mem
        → loop h e (jump_table r disabled) fuel m ≢ none
    unfolding loop
    loop-ne-none zero m l u c = absurd (omega arith)
    loop-ne-none (suc fuel) m l u c =
        after (loop-ne-none fuel) (step h e (jump_table r disabled) m) (step-Lowers m u c)
      where
        after :
            ((m' : Machine)
              → m'.gas < fuel
              → IsU64 m'.gas
              → IsCovered m'.scope.mem
              → loop h e (jump_table r disabled) fuel m' ≢ none)
            → (q : Round) → Lowers m.gas q
            → elim q [
              | next m' ↦ loop h e (jump_table r disabled) fuel m'
              | done x ret m' ↦ some (done x ret m')
              | panic ↦ some panic
            ]
              ≢ none
        after again (next m') (less, covered) =
            again m' (omega (arith, less, l)) (omega (arith, less, u)) covered
        after again (done x ret m') q = λ e. cc
        after again panic q = λ e. cc

    Finishes-le : (k n : ℕ) (r : Option Round) → k ≤ n → Finishes k r → Finishes n r
    Finishes-le k n none l f = tt
    Finishes-le k n (some (next m)) l f = tt
    Finishes-le k n (some panic) l f = tt
    Finishes-le k n (some (done x ret m)) l f = λ e. omega (arith, l, f e)

    pub loop-Finishes :
        (fuel : ℕ) (m : Machine)
        → IsU64 m.gas
        → IsCovered m.scope.mem
        → Finishes m.gas (loop h e (jump_table r disabled) fuel m)
    unfolding loop
    loop-Finishes zero m u c = tt
    loop-Finishes (suc fuel) m u c =
        after (loop-Finishes fuel) (step h e (jump_table r disabled) m) (step-Lowers m u c)
      where
        after :
            ((m' : Machine)
              → IsU64 m'.gas
              → IsCovered m'.scope.mem
              → Finishes m'.gas (loop h e (jump_table r disabled) fuel m'))
            → (q : Round) → Lowers m.gas q
            → Finishes m.gas (elim q [
              | next m' ↦ loop h e (jump_table r disabled) fuel m'
              | done x ret m' ↦ some (done x ret m')
              | panic ↦ some panic
            ])
        after again (next m') (less, covered) =
            Finishes-le m'.gas m.gas _ (omega (arith, less))
              (again m' (omega (arith, less, u)) covered)
        after again (done x ret m') q = q
        after again panic q = tt

    pub run-Finishes :
        (fuel : ℕ) (db : StateDb) (c : Contract) (input : Bytes) (gas call_gas_temp : ℕ)
        → IsU64 gas
        → Finishes gas (run h e (jump_table r disabled) fuel db c input gas call_gas_temp)
    unfolding run entered new_memory
    run-Finishes fuel db c input gas call_gas_temp u = elim (Bool-cases (length c.code == 0)) [
      | inl q ↦ rw q (λ k. omega arith)
      | inr q ↦ rw q (
          loop-Finishes fuel
            (entered h e (jump_table r disabled) db (record c { input = input }) gas call_gas_temp)
            u (omega arith))
    ]

    -- On every table that NewEVMInterpreter chooses, whatever opcodes the chain disables: Run of any
    -- code on a uint64 of gas ends within one round more than the gas it has, so it always returns or
    -- panics. The EVM is any whose calls and creations leave over no more gas than they are given, and
    -- from Berlin on the rules include EIP-150.
    pub run-ne-none :
        (db : StateDb) (c : Contract) (input : Bytes) (gas call_gas_temp : ℕ)
        → IsU64 gas
        → run h e (jump_table r disabled) (gas + 1) db c input gas call_gas_temp ≢ none
    unfolding run entered new_memory
    run-ne-none db c input gas call_gas_temp u = elim (Bool-cases (length c.code == 0)) [
      | inl q ↦ rw q (λ e. cc)
      | inr q ↦ rw q (
          loop-ne-none (gas + 1)
            (entered h e (jump_table r disabled) db (record c { input = input }) gas call_gas_temp)
            (omega arith) u (omega arith))
    ]
