-- ===== src/Vm/Interpreter/Kept/Calling.antt =====
-- The state after an instruction that calls or creates, from what the methods of EVM promise.
use cardinal_evm.Prelude.{
  ℕ, ◌-◌, ◌/◌, ◌≡◌, refl, arith, Bool, true, false, not, ◌&&◌, if◌then◌else◌, Option, none, some,
  [],
}
use cardinal_evm.State.Account.{Address, Bytes, Backend}
use cardinal_evm.State.Db.Kept.{Kept}
use cardinal_evm.Vm.Memory
use cardinal_evm.Vm.Memory.{Memory}
use cardinal_evm.Vm.Scope
use cardinal_evm.Vm.Scope.{
  Scope, Host, Step, ok, exit, crash, X, ◌>>=◌, ◌>>◌, pop, push, write_protection, from_memory,
}
use cardinal_evm.Vm.JumpTable.Operation.{
  Calling, op_create, op_create2, op_call, op_call_code, op_delegate_call, op_static_call,
}
use cardinal_evm.Vm.Interpreter.Calls
use cardinal_evm.Vm.Interpreter.Calls.{
  Answer, Evm, execute_calling, ask_evm, after_call, after_create, with_stipend, without,
}
use cardinal_evm.Vm.Interpreter.Kept.Simple.{
  KeptBy, KeepsState, still, by_scope, bind-KeepsState, if-KeepsState, pop-KeepsState,
}

-- What an answer of a method promises of the state.
pub record IsKeeping (b : Backend) (e : Evm) : Type 0 where
  pub call :
      (s : Scope) (input : Bytes) (a : Address) (gas value : ℕ) (r : Answer)
      → e.call s input a gas value ≡ some r
      → Kept b s.db r.db
  pub call_code :
      (s : Scope) (input : Bytes) (a : Address) (gas value : ℕ) (r : Answer)
      → e.call_code s input a gas value ≡ some r
      → Kept b s.db r.db
  pub delegate_call :
      (s : Scope) (input : Bytes) (a : Address) (gas : ℕ) (r : Answer)
      → e.delegate_call s input a gas ≡ some r
      → Kept b s.db r.db
  pub static_call :
      (s : Scope) (input : Bytes) (a : Address) (gas : ℕ) (r : Answer)
      → e.static_call s input a gas ≡ some r
      → Kept b s.db r.db
  pub create :
      (s : Scope) (input : Bytes) (gas value : ℕ) (r : Answer)
      → e.create s input gas value ≡ some r
      → Kept b s.db r.db
  pub create2 :
      (s : Scope) (input : Bytes) (gas value salt : ℕ) (r : Answer)
      → e.create2 s input gas value salt ≡ some r
      → Kept b s.db r.db

module _ (h : Host) (e : Evm) (keeping : IsKeeping h.backend e) (gas temp : ℕ) where
  ask_evm-KeepsState :
      (f : Scope → Option Answer)
      → ((s : Scope) (r : Answer) → f s ≡ some r → Kept h.backend s.db r.db)
      → KeepsState h.backend (ask_evm f)
  unfolding ask_evm
  ask_evm-KeepsState f k = by_scope h.backend _ (λ s. asked s (f s) (k s))
    where
      asked :
          (s : Scope) (q : Option Answer)
          → ((r : Answer) → q ≡ some r → Kept h.backend s.db r.db)
          → KeptBy h.backend s.db (Calls.answered q s)
      asked s none l = tt
      asked s (some r) l = l r refl

  after_call-KeepsState :
      (ret_offset ret_size : ℕ) (r : Answer)
      → KeepsState h.backend (after_call h gas ret_offset ret_size r)
  unfolding after_call push Scope.on_memory
  after_call-KeepsState ret_offset ret_size r = still h.backend _ (λ s. ground arith)

  after_create-KeepsState :
      (left : ℕ) (failed : Bool) (r : Answer) → KeepsState h.backend (after_create left failed r)
  unfolding after_create push
  after_create-KeepsState left failed r = still h.backend _ (λ s. ground arith)

  from_memory-KeepsState : (f : Memory → Option Bytes) → KeepsState h.backend (from_memory f)
  unfolding from_memory
  from_memory-KeepsState f = still h.backend _ (λ s. ground arith)

  args_of-KeepsState :
      (offset size : ℕ) → KeepsState h.backend (Calls.args_of h e gas temp offset size)
  unfolding Calls.args_of
  args_of-KeepsState offset size = from_memory-KeepsState _

  item :
      {A : Type 0} (k : ℕ → X A)
      → ((n : ℕ) → KeepsState h.backend (k n))
      → KeepsState h.backend (pop >>= k)
  item k l = bind-KeepsState h.backend pop k (pop-KeepsState h.backend) l

  with_value-KeepsState :
      (method : Scope → Bytes → Address → ℕ → ℕ → Option Answer) (guarded : Bool)
      → ((s : Scope) (input : Bytes) (a : Address) (g value : ℕ) (r : Answer)
          → method s input a g value ≡ some r
          → Kept h.backend s.db r.db)
      → KeepsState h.backend (Calls.with_value h e gas temp method guarded)
  unfolding Calls.with_value
  with_value-KeepsState method guarded k = item _ (λ unused. item _ (λ addr. item _ (λ value.
      item _ (λ in_offset. item _ (λ in_size. item _ (λ ret_offset. item _ (λ ret_size.
        bind-KeepsState h.backend _ _ (args_of-KeepsState in_offset in_size) (λ args.
          if-KeepsState h.backend (guarded && h.read_only && not (h.words.is_zero value)) _ _
            (still h.backend (λ s. exit write_protection [] s) (λ s. refl))
            (bind-KeepsState h.backend _ _
              (ask_evm-KeepsState
                (λ s.
                  method s args (h.words.bytes20 addr) (with_stipend (h.words.is_zero value) temp)
                    value)
                (λ s. k s args _ _ value))
              (after_call-KeepsState ret_offset ret_size))))))))))

  without_value-KeepsState :
      (method : Scope → Bytes → Address → ℕ → Option Answer)
      → ((s : Scope) (input : Bytes) (a : Address) (g : ℕ) (r : Answer)
          → method s input a g ≡ some r
          → Kept h.backend s.db r.db)
      → KeepsState h.backend (Calls.without_value h e gas temp method)
  unfolding Calls.without_value
  without_value-KeepsState method k = item _ (λ unused. item _ (λ addr. item _ (λ in_offset.
      item _ (λ in_size. item _ (λ ret_offset. item _ (λ ret_size.
        bind-KeepsState h.backend _ _ (args_of-KeepsState in_offset in_size) (λ args.
          bind-KeepsState h.backend _ _
            (ask_evm-KeepsState (λ s. method s args (h.words.bytes20 addr) temp)
              (λ s. k s args _ temp))
            (after_call-KeepsState ret_offset ret_size))))))))

  unless_read_only-KeepsState :
      (m : X ℕ)
      → KeepsState h.backend m
      → KeepsState h.backend (Calls.unless_read_only h e gas temp m)
  unfolding Calls.unless_read_only
  unless_read_only-KeepsState m k =
      if-KeepsState h.backend h.read_only _ _
        (still h.backend (λ s. exit write_protection [] s) (λ s. refl)) k

  exec_create-KeepsState : KeepsState h.backend (Calls.exec_create h e gas temp)
  unfolding Calls.exec_create
  exec_create-KeepsState = unless_read_only-KeepsState _ (
      item _ (λ value. item _ (λ offset. item _ (λ size.
        bind-KeepsState h.backend _ _
          (from_memory-KeepsState
            (λ m. Memory.get_copy m (h.words.uint64 offset) (h.words.uint64 size)))
          (λ input.
            bind-KeepsState h.backend _ _
              (ask_evm-KeepsState
                (λ s. e.create s input (if h.rules.is_eip150 then gas - gas / 64 else gas) value)
                (λ s. keeping.create s input _ value))
              (λ r. after_create-KeepsState _ _ r))))))

  exec_create2-KeepsState : KeepsState h.backend (Calls.exec_create2 h e gas temp)
  unfolding Calls.exec_create2
  exec_create2-KeepsState = unless_read_only-KeepsState _ (
      item _ (λ endowment. item _ (λ offset. item _ (λ size. item _ (λ salt.
        bind-KeepsState h.backend _ _
          (from_memory-KeepsState
            (λ m. Memory.get_copy m (h.words.uint64 offset) (h.words.uint64 size)))
          (λ input.
            bind-KeepsState h.backend _ _
              (ask_evm-KeepsState (λ s. e.create2 s input (gas - gas / 64) endowment salt)
                (λ s. keeping.create2 s input _ endowment salt))
              (λ r. after_create-KeepsState _ _ r)))))))

  pub execute_calling-KeepsState :
      (x : Calling) → KeepsState h.backend (execute_calling h e gas temp x)
  unfolding execute_calling
  execute_calling-KeepsState op_create = exec_create-KeepsState
  execute_calling-KeepsState op_create2 = exec_create2-KeepsState
  execute_calling-KeepsState op_call = with_value-KeepsState e.call true keeping.call
  execute_calling-KeepsState op_call_code =
      with_value-KeepsState e.call_code false keeping.call_code
  execute_calling-KeepsState op_delegate_call =
      without_value-KeepsState e.delegate_call keeping.delegate_call
  execute_calling-KeepsState op_static_call =
      without_value-KeepsState e.static_call keeping.static_call
