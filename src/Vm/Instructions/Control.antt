-- ===== src/Vm/Instructions/Control.antt =====
-- The instructions that move the program counter, read code, or end the run.
use cardinal_evm.Prelude.{
  ℕ, ◌+◌, Bool, if◌then◌else◌, [], Option, none, some, get_elem?, take, drop, add64, sub64,
}
use cardinal_evm.State.Account.{Bytes}
use cardinal_evm.State.Db.Ops
use cardinal_evm.Vm.Common.{right_pad_bytes}
use cardinal_evm.Vm.Memory
use cardinal_evm.Vm.Memory.{Memory}
use cardinal_evm.Vm.Stack
use cardinal_evm.Vm.Contract
use cardinal_evm.Vm.Contract.{Contract}
use cardinal_evm.Vm.Scope.{
  Scope, Host, stop_token, execution_reverted, invalid_jump, invalid_op_code, X, ◌>>=◌, ◌>>◌, pure,
  leave, gets, modify, pop, push, on_stack, from_memory, ask, tell, crash, Step, ok, exit,
}
use cardinal_evm.Vm.Instructions.Access.{unless_read_only}

module _ (h : Host) where
  -- validJumpdest, which may fill the caches of the contract.
  abbrev pub checked : Scope → Option (Bool × Contract) → Step Bool
  checked s none = crash
  checked s (some (valid, c)) = ok valid (record s { contract = c })

  unfoldable pub valid_jumpdest : ℕ → X Bool
  valid_jumpdest pos s = checked s (Contract.valid_jumpdest h.words s.contract pos)

  -- `*pc = pos.Uint64() - 1`: the loop of the interpreter adds one.
  unfoldable pub jump_to : ℕ → X (Unit {0})
  jump_to pos = do
    valid ← valid_jumpdest pos
    if valid
        then modify (λ s. record s { pc = sub64 (h.words.uint64 pos) 1 })
        else leave invalid_jump []

  -- `gas` is the gas that is left, by which the abort flag is read.
  unfoldable pub op_jump : ℕ → X (Unit {0})
  unfolding jump_to
  op_jump gas = if h.abort gas then leave stop_token [] else (pop >>= jump_to)

  unfoldable pub op_jumpi : ℕ → X (Unit {0})
  unfolding jump_to
  op_jumpi gas =
      if h.abort gas
      then leave stop_token []
      else do pos ← pop; cond ← pop; if h.words.is_zero cond then pure tt else jump_to pos

  unfoldable pub op_jumpdest : X (Unit {0})
  op_jumpdest = pure tt

  unfoldable pub op_gas : ℕ → X (Unit {0})
  op_gas gas = push gas

  abbrev byte_or_zero : Option ℕ → ℕ
  byte_or_zero none = 0
  byte_or_zero (some x) = x

  unfoldable pub op_push1 : X (Unit {0})
  op_push1 = do
    modify (λ s. record s { pc = add64 s.pc 1 })
    x ← gets (λ s. byte_or_zero (get_elem? s.contract.code s.pc))
    push x

  -- The bytes after `pc`, as far as the code goes, padded to the size.
  abbrev immediate : Bytes → ℕ → ℕ → ℕ
  immediate code pc size = h.arith.set_bytes (right_pad_bytes (take size (drop (pc + 1) code)) size)

  unfoldable pub make_push : ℕ → X (Unit {0})
  make_push size = do
    x ← gets (λ s. immediate s.contract.code s.pc size)
    push x
    modify (λ s. record s { pc = add64 s.pc size })

  unfoldable pub make_dup : ℕ → X (Unit {0})
  make_dup size = on_stack (λ st. Stack.dup st size)

  -- `size++` before the swap
  unfoldable pub make_swap : ℕ → X (Unit {0})
  make_swap size = on_stack (λ st. Stack.swap st (size + 1))

  -- The two items that RETURN and REVERT pop, and the memory between them.
  unfoldable pub output : X Bytes
  output = do
    offset ← pop
    size ← pop
    from_memory (λ m. Memory.get_ptr m (h.words.uint64 offset) (h.words.uint64 size))

  unfoldable pub op_return : X (Unit {0})
  unfolding output
  op_return = output >>= leave stop_token

  unfoldable pub op_revert : X (Unit {0})
  unfolding output
  op_revert = do
    ret ← output
    modify (λ s. record s { return_data = ret })
    leave execution_reverted ret

  abbrev undefined_at : Option ℕ → X (Unit {0})
  undefined_at none s = crash
  undefined_at (some op) s = exit (invalid_op_code op) [] s

  unfoldable pub op_undefined : X (Unit {0})
  op_undefined s = undefined_at (get_elem? s.contract.code s.pc) s

  unfoldable pub op_stop : X (Unit {0})
  op_stop = leave stop_token []

  unfoldable pub op_selfdestruct : X (Unit {0})
  op_selfdestruct = unless_read_only h do
    beneficiary ← pop
    a ← gets (λ s. s.contract.address)
    balance ← ask (λ db. Ops.get_balance h.backend db a)
    tell (λ db. Ops.add_balance db (h.words.bytes20 beneficiary) balance)
    tell (λ db. (Ops.suicide db a).1)
    leave stop_token []

  unfoldable pub op_selfdestruct6780 : X (Unit {0})
  op_selfdestruct6780 = unless_read_only h do
    beneficiary ← pop
    a ← gets (λ s. s.contract.address)
    balance ← ask (λ db. Ops.get_balance h.backend db a)
    tell (λ db. Ops.sub_balance db a balance)
    tell (λ db. Ops.add_balance db (h.words.bytes20 beneficiary) balance)
    tell (λ db. Ops.self_destruct_6780 db a)
    leave stop_token []
