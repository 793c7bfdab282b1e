-- ===== src/Vm/Interpreter/Kept/Simple.antt =====
-- The state after an instruction (vm/instructions.go).
use cardinal_evm.Prelude.{ℕ, zero, suc, ◌≡◌, refl, arith, Bool, true, false, if◌then◌else◌, [], ℤ}
use cardinal_evm.State.Account.{Address, Bytes, Backend}
use cardinal_evm.State.Db.{StateDb}
use cardinal_evm.State.Db.Kept.{Kept, Kept-same, Kept-trans}
use cardinal_evm.State.Db.Kept.Methods.{
  get_balance-Kept, get_code-Kept, get_code_hash-Kept, get_state-Kept, empty-Kept, set_state-Kept,
  set_transient_state-Kept, add_balance-Kept, sub_balance-Kept, suicide-Kept,
  self_destruct_6780-Kept,
}
use cardinal_evm.State.Db.Ops
use cardinal_evm.Vm.Stack
use cardinal_evm.Vm.Scope
use cardinal_evm.Vm.Scope.{
  Scope, Host, Exit, Step, ok, exit, crash, X, ◌>>=◌, ◌>>◌, ask, tell, gets, pop, peek, push,
  put_top, leave, stop_token, write_protection,
}
use cardinal_evm.Vm.Instructions.Words
use cardinal_evm.Vm.Instructions.Context
use cardinal_evm.Vm.Instructions.Access
use cardinal_evm.Vm.Instructions.Control
use cardinal_evm.Vm.JumpTable.Operation.{
  Simple, make_push, make_dup, make_swap, make_log, op_balance, op_self_balance, op_ext_code_size,
  op_ext_code_hash, op_ext_code_copy, op_sload, op_sstore, op_tstore, op_selfdestruct,
  op_selfdestruct6780,
}
use cardinal_evm.Vm.Interpreter.Dispatch.{execute_simple}

-- The instruction leaves the state alone.
abbrev pub SameDb : {A : Type 0} → StateDb → Step A → Type 0
SameDb db (ok a s') = s'.db ≡ db
SameDb db (exit e ret s') = s'.db ≡ db
SameDb db crash = Unit {0}

drop_topics-SameDb : (n : ℕ) (s : Scope) → SameDb s.db (Access.drop_topics n s)
unfolding Access.drop_topics Scope.pop
drop_topics-SameDb zero s = refl
drop_topics-SameDb (suc n) s = grind (arith, drop_topics-SameDb n)

module _ (b : Backend) where
  abbrev pub KeptBy : {A : Type 0} → StateDb → Step A → Type 0
  KeptBy db (ok a s') = Kept b db s'.db
  KeptBy db (exit e ret s') = Kept b db s'.db
  KeptBy db crash = Unit {0}

  SameDb-KeptBy : {A : Type 0} (db : StateDb) (r : Step A) → SameDb db r → KeptBy db r
  SameDb-KeptBy db (ok a s') e = Kept-same b db s'.db e
  SameDb-KeptBy db (exit x ret s') e = Kept-same b db s'.db e
  SameDb-KeptBy db crash e = tt

  pub KeepsState : {A : Type 0} → X A → Type 0
  KeepsState m = (s : Scope) → KeptBy s.db (m s)

  pub by_scope : {A : Type 0} (m : X A) → ((s : Scope) → KeptBy s.db (m s)) → KeepsState m
  unfolding KeepsState
  by_scope m h = h

  pub at_scope : {A : Type 0} (m : X A) → KeepsState m → (s : Scope) → KeptBy s.db (m s)
  unfolding KeepsState
  at_scope m h = h

  pub still : {A : Type 0} (m : X A) → ((s : Scope) → SameDb s.db (m s)) → KeepsState m
  unfolding KeepsState
  still m h s = SameDb-KeptBy s.db (m s) (h s)

  pub bind-KeepsState :
      {A B : Type 0} (m : X A) (k : A → X B)
      → KeepsState m
      → ((a : A) → KeepsState (k a))
      → KeepsState (m >>= k)
  unfolding KeepsState
  bind-KeepsState {A} {B} m k hm hk s = continued (m s) (hm s)
    where
      further : (t u : StateDb) (r : Step B) → Kept b t u → KeptBy u r → KeptBy t r
      further t u (ok a s') h l = Kept-trans b t u s'.db h l
      further t u (exit e ret s') h l = Kept-trans b t u s'.db h l
      further t u crash h l = tt

      continued : (r : Step A) → KeptBy s.db r → KeptBy s.db (((λ g. r) >>= k) s)
      continued (ok a s') h = further s.db s'.db (k a s') h (hk a s')
      continued (exit e ret s') h = h
      continued crash h = tt

  pub if-KeepsState :
      {A : Type 0} (t : Bool) (m n : X A)
      → KeepsState m
      → KeepsState n
      → KeepsState (if t then m else n)
  if-KeepsState true m n h k = h
  if-KeepsState false m n h k = k

  pub gets-KeepsState : {A : Type 0} (g : Scope → A) → KeepsState (gets g)
  gets-KeepsState g = still (gets g) (λ s. refl)

  pub leave-KeepsState : (e : Exit) (ret : Bytes) → KeepsState (leave e ret)
  leave-KeepsState e ret = still (leave e ret) (λ s. refl)

  pub pop-KeepsState : KeepsState pop
  unfolding pop Stack.pop
  pop-KeepsState = still pop (λ s. ground arith)

  pub peek-KeepsState : KeepsState peek
  unfolding peek Stack.peek
  peek-KeepsState = still peek (λ s. ground arith)

  pub push-KeepsState : (x : ℕ) → KeepsState (push x)
  unfolding push
  push-KeepsState x = still (push x) (λ s. refl)

  put_top-KeepsState : (x : ℕ) → KeepsState (put_top x)
  unfolding put_top
  put_top-KeepsState x = still (put_top x) (λ s. ground arith)

  ask-KeepsState :
      {A : Type 0} (g : StateDb → A × StateDb)
      → ((db : StateDb) → Kept b db (g db).1)
      → KeepsState (ask g)
  unfolding KeepsState
  ask-KeepsState g h s = h s.db

  tell-KeepsState :
      (g : StateDb → StateDb) → ((db : StateDb) → Kept b db (g db)) → KeepsState (tell g)
  unfolding KeepsState
  tell-KeepsState g h s = h s.db

module _ (h : Host) where
  unless_read_only-KeepsState :
      (m : X (Unit {0}))
      → KeepsState h.backend m
      → KeepsState h.backend (Access.unless_read_only h m)
  unfolding Access.unless_read_only
  unless_read_only-KeepsState m k =
      if-KeepsState h.backend h.read_only _ _ (leave-KeepsState h.backend write_protection []) k

  copy_data-KeepsState :
      (bytes : Bytes) (mem_offset data_offset len : ℕ)
      → KeepsState h.backend (Access.copy_data h bytes mem_offset data_offset len)
  unfolding Access.copy_data Scope.on_memory
  copy_data-KeepsState bytes mem_offset data_offset len = still h.backend _ (λ s. ground arith)

  balance-KeepsState :
      (a : Address) → KeepsState h.backend (ask (λ db. Ops.get_balance h.backend db a))
  balance-KeepsState a = ask-KeepsState h.backend _ (λ db. get_balance-Kept h.backend db a)

  credit-KeepsState :
      (a : Address) (x : ℤ) → KeepsState h.backend (tell (λ db. Ops.add_balance db a x))
  credit-KeepsState a x = tell-KeepsState h.backend _ (λ db. add_balance-Kept h.backend db a x)

  op_balance-KeepsState : KeepsState h.backend (Access.op_balance h)
  unfolding Access.op_balance
  op_balance-KeepsState = bind-KeepsState h.backend _ _ (peek-KeepsState h.backend) (λ slot.
      bind-KeepsState h.backend _ _ (balance-KeepsState (h.words.bytes20 slot))
        (λ balance. put_top-KeepsState h.backend (h.arith.from_big balance)))

  op_self_balance-KeepsState : KeepsState h.backend (Access.op_self_balance h)
  unfolding Access.op_self_balance
  op_self_balance-KeepsState =
      bind-KeepsState h.backend _ _ (gets-KeepsState h.backend (λ s. s.contract.address)) (λ a.
        bind-KeepsState h.backend _ _ (balance-KeepsState a)
          (λ balance. push-KeepsState h.backend (h.arith.from_big balance)))

  op_ext_code_size-KeepsState : KeepsState h.backend (Access.op_ext_code_size h)
  unfolding Access.op_ext_code_size Ops.get_code_size
  op_ext_code_size-KeepsState = bind-KeepsState h.backend _ _ (peek-KeepsState h.backend) (λ slot.
      bind-KeepsState h.backend _ _
        (ask-KeepsState h.backend (λ db. Ops.get_code_size h.backend db (h.words.bytes20 slot))
          (λ db. get_code-Kept h.backend db (h.words.bytes20 slot)))
        (λ size. put_top-KeepsState h.backend size))

  op_ext_code_hash-KeepsState : KeepsState h.backend (Access.op_ext_code_hash h)
  unfolding Access.op_ext_code_hash
  op_ext_code_hash-KeepsState = bind-KeepsState h.backend _ _ (peek-KeepsState h.backend) (λ slot.
      bind-KeepsState h.backend _ _
        (ask-KeepsState h.backend (λ db. Ops.empty h.backend db (h.words.bytes20 slot))
          (λ db. empty-Kept h.backend db (h.words.bytes20 slot)))
        (λ empty. if-KeepsState h.backend empty _ _ (put_top-KeepsState h.backend 0) (
          bind-KeepsState h.backend _ _
            (ask-KeepsState h.backend (λ db. Ops.get_code_hash h.backend db (h.words.bytes20 slot))
              (λ db. get_code_hash-Kept h.backend db (h.words.bytes20 slot)))
            (put_top-KeepsState h.backend))))

  op_ext_code_copy-KeepsState : KeepsState h.backend (Access.op_ext_code_copy h)
  unfolding Access.op_ext_code_copy
  op_ext_code_copy-KeepsState = bind-KeepsState h.backend _ _ (pop-KeepsState h.backend) (λ a.
      bind-KeepsState h.backend _ _ (pop-KeepsState h.backend) (λ mem_offset.
        bind-KeepsState h.backend _ _ (pop-KeepsState h.backend) (λ code_offset.
          bind-KeepsState h.backend _ _ (pop-KeepsState h.backend) (λ len.
            bind-KeepsState h.backend _ _
              (ask-KeepsState h.backend (λ db. Ops.get_code h.backend db (h.words.bytes20 a))
                (λ db. get_code-Kept h.backend db (h.words.bytes20 a)))
              (λ code. copy_data-KeepsState code mem_offset code_offset len)))))

  op_sload-KeepsState : KeepsState h.backend (Access.op_sload h)
  unfolding Access.op_sload
  op_sload-KeepsState = bind-KeepsState h.backend _ _ (peek-KeepsState h.backend) (λ loc.
      bind-KeepsState h.backend _ _ (gets-KeepsState h.backend (λ s. s.contract.address)) (λ a.
        bind-KeepsState h.backend _ _
          (ask-KeepsState h.backend (λ db. Ops.get_state h.backend db a (h.words.bytes32 loc))
            (λ db. get_state-Kept h.backend db a (h.words.bytes32 loc)))
          (λ val. put_top-KeepsState h.backend val)))

  op_sstore-KeepsState : KeepsState h.backend (Access.op_sstore h)
  unfolding Access.op_sstore
  op_sstore-KeepsState = unless_read_only-KeepsState _ (
      bind-KeepsState h.backend _ _ (pop-KeepsState h.backend) (λ loc.
        bind-KeepsState h.backend _ _ (pop-KeepsState h.backend) (λ val.
          bind-KeepsState h.backend _ _ (gets-KeepsState h.backend (λ s. s.contract.address)) (λ a.
            tell-KeepsState h.backend
              (λ db. Ops.set_state h.backend db a (h.words.bytes32 loc) (h.words.bytes32 val))
              (λ db. set_state-Kept h.backend db a (h.words.bytes32 loc) (h.words.bytes32 val))))))

  op_tstore-KeepsState : KeepsState h.backend (Access.op_tstore h)
  unfolding Access.op_tstore
  op_tstore-KeepsState = unless_read_only-KeepsState _ (
      bind-KeepsState h.backend _ _ (pop-KeepsState h.backend) (λ loc.
        bind-KeepsState h.backend _ _ (pop-KeepsState h.backend) (λ val.
          bind-KeepsState h.backend _ _ (gets-KeepsState h.backend (λ s. s.contract.address)) (λ a.
            tell-KeepsState h.backend
              (λ db. Ops.set_transient_state db a (h.words.bytes32 loc) (h.words.bytes32 val))
              (λ db.
                set_transient_state-Kept h.backend db a (h.words.bytes32 loc)
                  (h.words.bytes32 val))))))

  op_selfdestruct-KeepsState : KeepsState h.backend (Control.op_selfdestruct h)
  unfolding Control.op_selfdestruct
  op_selfdestruct-KeepsState = unless_read_only-KeepsState _ (
      bind-KeepsState h.backend _ _ (pop-KeepsState h.backend) (λ beneficiary.
        bind-KeepsState h.backend _ _ (gets-KeepsState h.backend (λ s. s.contract.address)) (λ a.
          bind-KeepsState h.backend _ _ (balance-KeepsState a) (λ balance.
            bind-KeepsState h.backend _ _ (credit-KeepsState (h.words.bytes20 beneficiary) balance)
              (λ done.
                bind-KeepsState h.backend _ _
                  (tell-KeepsState h.backend (λ db. (Ops.suicide db a).1)
                    (λ db. suicide-Kept h.backend db a))
                  (λ done'. leave-KeepsState h.backend stop_token []))))))

  op_selfdestruct6780-KeepsState : KeepsState h.backend (Control.op_selfdestruct6780 h)
  unfolding Control.op_selfdestruct6780
  op_selfdestruct6780-KeepsState = unless_read_only-KeepsState _ (
      bind-KeepsState h.backend _ _ (pop-KeepsState h.backend) (λ beneficiary.
        bind-KeepsState h.backend _ _ (gets-KeepsState h.backend (λ s. s.contract.address)) (λ a.
          bind-KeepsState h.backend _ _ (balance-KeepsState a) (λ balance.
            bind-KeepsState h.backend _ _
              (tell-KeepsState h.backend (λ db. Ops.sub_balance db a balance)
                (λ db. sub_balance-Kept h.backend db a balance))
              (λ done.
                bind-KeepsState h.backend _ _
                  (credit-KeepsState (h.words.bytes20 beneficiary) balance)
                  (λ done'.
                    bind-KeepsState h.backend _ _
                      (tell-KeepsState h.backend (λ db. Ops.self_destruct_6780 db a)
                        (λ db. self_destruct_6780-Kept h.backend db a))
                      (λ done''. leave-KeepsState h.backend stop_token [])))))))

  pub execute_simple-KeepsState :
      (gas : ℕ) (x : Simple) → KeepsState h.backend (execute_simple h gas x)
  unfolding execute_simple Words.binary Words.unary Words.ternary Scope.pop Scope.push Scope.peek
      Scope.put_top Scope.on_stack Scope.on_memory Scope.from_memory Stack.pop Stack.push Stack.peek
      Access.copy_data Access.unless_read_only Control.jump_to Control.valid_jumpdest Control.output
      Words.op_add Words.op_sub Words.op_mul Words.op_div Words.op_sdiv Words.op_mod Words.op_smod
      Words.op_exp Words.op_sign_extend Words.op_not Words.op_lt Words.op_gt Words.op_slt
      Words.op_sgt Words.op_eq Words.op_iszero Words.op_and Words.op_or Words.op_xor Words.op_byte
      Words.op_addmod Words.op_mulmod Words.op_shl Words.op_shr Words.op_sar Words.op_clz
      Context.op_origin Context.op_gasprice Context.op_coinbase Context.op_timestamp
      Context.op_number Context.op_difficulty Context.op_random Context.op_gas_limit
      Context.op_base_fee Context.op_blob_base_fee Context.op_chain_id Context.op_push0
      Context.op_address Context.op_caller Context.op_call_value Context.op_call_data_size
      Context.op_return_data_size Context.op_code_size Context.op_msize Context.op_pc
      Context.op_blockhash Context.op_blob_hash Context.op_call_data_load Access.op_pop
      Access.op_keccak256 Access.op_mload Access.op_mstore Access.op_mstore8 Access.op_mcopy
      Access.op_call_data_copy Access.op_code_copy Access.op_return_data_copy Access.op_tload
      Control.op_jump Control.op_jumpi Control.op_jumpdest Control.op_gas Control.op_push1
      Control.op_return Control.op_revert Control.op_undefined Control.op_stop Control.make_push
      Control.make_dup Control.make_swap Access.make_log Stack.dup Stack.swap
  execute_simple-KeepsState gas op_balance = op_balance-KeepsState
  execute_simple-KeepsState gas op_self_balance = op_self_balance-KeepsState
  execute_simple-KeepsState gas op_ext_code_size = op_ext_code_size-KeepsState
  execute_simple-KeepsState gas op_ext_code_hash = op_ext_code_hash-KeepsState
  execute_simple-KeepsState gas op_ext_code_copy = op_ext_code_copy-KeepsState
  execute_simple-KeepsState gas op_sload = op_sload-KeepsState
  execute_simple-KeepsState gas op_sstore = op_sstore-KeepsState
  execute_simple-KeepsState gas op_tstore = op_tstore-KeepsState
  execute_simple-KeepsState gas op_selfdestruct = op_selfdestruct-KeepsState
  execute_simple-KeepsState gas op_selfdestruct6780 = op_selfdestruct6780-KeepsState
  execute_simple-KeepsState gas (make_push n) = still h.backend _ (λ s. ground arith)
  execute_simple-KeepsState gas (make_dup n) = still h.backend _ (λ s. ground arith)
  execute_simple-KeepsState gas (make_swap n) = still h.backend _ (λ s. ground arith)
  execute_simple-KeepsState gas (make_log n) =
      still h.backend _ (λ s. grind (arith, drop_topics-SameDb))
  execute_simple-KeepsState gas x = still h.backend _ (λ s. ground arith)
