-- ===== src/Vm/Interpreter/Calls.antt =====
-- The instructions that call another contract or create one (vm/instructions.go), and the methods of
-- EVM that they call, as an interface.
use cardinal_evm.Prelude.{
  ℕ, ◌-◌, ◌/◌, Bool, true, false, not, ◌&&◌, ◌||◌, if◌then◌else◌, Option, none, some, [], Map,
  add64, ltb,
}
use cardinal_evm.State.Account.{Address, Bytes}
use cardinal_evm.State.Db.{StateDb}
use cardinal_evm.Vm.Memory
use cardinal_evm.Vm.Analysis.{Bitvec}
use cardinal_evm.Vm.Scope.{
  Scope, Host, Exit, write_protection, Step, ok, exit, crash, X, ◌>>=◌, ◌>>◌, pure, modify, pop,
  push, on_memory, from_memory,
}
use cardinal_evm.Vm.JumpTable.Gas
use cardinal_evm.Vm.JumpTable.Operation.{
  Calling, op_create, op_create2, op_call, op_call_code, op_delegate_call, op_static_call,
}

-- The error of a call: ErrExecutionReverted, the errors of EVM's methods, of a precompiled contract,
-- and any other error that a run ends with.
pub data CallError : Type 0 where
  reverted code_store_out_of_gas : CallError
  depth insufficient_balance contract_address_collision max_code_size_exceeded : CallError
  invalid_code precompile_failed : CallError
  ended_with : Exit → CallError

-- What a call answers: the return data, the address of a creation, the gas left over, the error, the
-- state, and the jump analyses, which the contracts share.
pub record Answer : Type 0 where
  pub ret : Bytes
  pub created : Address
  pub left : ℕ
  pub error : Option CallError
  pub db : StateDb
  pub jumpdests : Map Bitvec

-- EVM's methods, each with the calling scope; `none` is a panic. The numbers are, for a call, the
-- address, the gas and the value; for a creation, the gas, the value and the salt.
pub record Evm : Type 0 where
  pub call : Scope → Bytes → Address → ℕ → ℕ → Option Answer
  pub call_code : Scope → Bytes → Address → ℕ → ℕ → Option Answer
  pub delegate_call : Scope → Bytes → Address → ℕ → Option Answer
  pub static_call : Scope → Bytes → Address → ℕ → Option Answer
  pub create : Scope → Bytes → ℕ → ℕ → Option Answer
  pub create2 : Scope → Bytes → ℕ → ℕ → ℕ → Option Answer

abbrev is_reverted : Option CallError → Bool
is_reverted (some reverted) = true
is_reverted e = false

abbrev succeeded : Option CallError → Bool
succeeded none = true
succeeded (some e) = false

abbrev pub answered : Option Answer → Scope → Step Answer
answered none s = crash
answered (some r) s =
    ok r (record s { db = r.db; contract = record s.contract { jumpdests = r.jumpdests } })

unfoldable pub ask_evm : (Scope → Option Answer) → X Answer
ask_evm f s = answered (f s) s

-- The end of the four calls: whether the call succeeded is pushed, and the return data of a call that
-- succeeded or reverted goes to memory. The answer is the gas that the contract has then.
unfoldable pub after_call : Host → ℕ → ℕ → ℕ → Answer → X ℕ
after_call h gas ret_offset ret_size r = do
  push (if succeeded r.error then 1 else 0)
  (if succeeded r.error || is_reverted r.error
      then on_memory (λ m. Memory.set m (h.words.uint64 ret_offset) (h.words.uint64 ret_size) r.ret)
      else pure tt)
  modify (λ s. record s { return_data = r.ret })
  pure (add64 gas r.left)

-- The end of the two creations, with the test of the error that clears the address.
unfoldable pub after_create : ℕ → Bool → Answer → X ℕ
after_create gas failed r = do
  push (if failed then 0 else r.created)
  modify (λ s. record s { return_data = if is_reverted r.error then r.ret else [] })
  pure (add64 gas r.left)

-- A call's gas with the stipend for a value.
abbrev pub with_stipend : Bool → ℕ → ℕ
with_stipend no_value gas = if no_value then gas else add64 gas Gas.call_stipend

-- `UseGas(gas)`, whose answer the creations ignore.
abbrev pub without : ℕ → ℕ → ℕ
without have gas = if ltb have gas then have else have - gas

module _ (h : Host) (e : Evm) (gas call_gas_temp : ℕ) where
  unfoldable pub args_of : ℕ → ℕ → X Bytes
  args_of offset size =
      from_memory (λ m. Memory.get_ptr m (h.words.uint64 offset) (h.words.uint64 size))

  unfoldable pub with_value : (Scope → Bytes → Address → ℕ → ℕ → Option Answer) → Bool → X ℕ
  with_value method guarded = do
    temp ← pop
    addr ← pop
    value ← pop
    in_offset ← pop
    in_size ← pop
    ret_offset ← pop
    ret_size ← pop
    args ← args_of in_offset in_size
    if guarded && h.read_only && not (h.words.is_zero value)
        then (λ s. exit write_protection [] s)
        else (ask_evm (λ s.
              method s args (h.words.bytes20 addr)
                (with_stipend (h.words.is_zero value) call_gas_temp) value)
            >>= after_call h gas ret_offset ret_size)

  unfoldable pub without_value : (Scope → Bytes → Address → ℕ → Option Answer) → X ℕ
  without_value method = do
    temp ← pop
    addr ← pop
    in_offset ← pop
    in_size ← pop
    ret_offset ← pop
    ret_size ← pop
    args ← args_of in_offset in_size
    ask_evm (λ s. method s args (h.words.bytes20 addr) call_gas_temp)
        >>= after_call h gas ret_offset ret_size

  -- The error that clears the address of a Create: not the one for the code's gas before Homestead.
  abbrev create_failed : Option CallError → Bool
  create_failed none = false
  create_failed (some code_store_out_of_gas) = h.is_homestead
  create_failed (some e') = true

  unfoldable pub unless_read_only : X ℕ → X ℕ
  unless_read_only m = if h.read_only then (λ s. exit write_protection [] s) else m

  unfoldable pub exec_create : X ℕ
  exec_create = unless_read_only do
    value ← pop
    offset ← pop
    size ← pop
    input ← from_memory (λ m. Memory.get_copy m (h.words.uint64 offset) (h.words.uint64 size))
    let passed = if h.rules.is_eip150 then gas - gas / 64 else gas
    r ← ask_evm (λ s. e.create s input passed value)
    after_create (without gas passed) (create_failed r.error) r

  unfoldable pub exec_create2 : X ℕ
  exec_create2 = unless_read_only do
    endowment ← pop
    offset ← pop
    size ← pop
    salt ← pop
    input ← from_memory (λ m. Memory.get_copy m (h.words.uint64 offset) (h.words.uint64 size))
    let passed = gas - gas / 64
    r ← ask_evm (λ s. e.create2 s input passed endowment salt)
    after_create (without gas passed) (not (succeeded r.error)) r

  -- The answer is the contract's gas afterwards.
  unfoldable pub execute_calling : Calling → X ℕ
  unfolding with_value without_value exec_create exec_create2 args_of unless_read_only
  execute_calling op_create = exec_create
  execute_calling op_create2 = exec_create2
  execute_calling op_call = with_value e.call true
  execute_calling op_call_code = with_value e.call_code false
  execute_calling op_delegate_call = without_value e.delegate_call
  execute_calling op_static_call = without_value e.static_call
