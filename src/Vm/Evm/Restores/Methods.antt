-- ===== src/Vm/Evm/Restores/Methods.antt =====
-- The state after each method of EVM, where it fails and where it does not.
use cardinal_evm.Prelude.{
  ℕ, zero, suc, ◌+◌, ◌-◌, ◌==◌, ◌≡◌, refl, arith, Bool, true, false, if◌then◌else◌, Bool-cases, inl,
  inr, Option, none, some, ◌>>=◌, pos,
}
use cardinal_evm.State.Account.{Address, Hash, Bytes}
use cardinal_evm.State.Db.{StateDb, snapshot}
use cardinal_evm.State.Db.Kept.{
  Kept, Kept-refl, Kept-trans, Kept-IsValid, Kept-if, Kept-if_pair, Unchanged, Unchanged-refl,
}
use cardinal_evm.State.Db.Kept.Methods.{
  get_code_hash-Kept, get_nonce-Kept, exist-Kept, create_account-Kept, set_nonce-Kept,
  set_code-Kept, add_balance-Kept, add_address-Kept,
}
use cardinal_evm.State.Db.Ops
use cardinal_evm.Vm.Contracts.{precompile}
use cardinal_evm.Vm.Contracts.Prices
use cardinal_evm.Vm.Interpreter.Calls.{Answer, CallError, Evm, reverted, code_store_out_of_gas}
use cardinal_evm.Vm.Interpreter.Kept.Calling.{IsKeeping}
use cardinal_evm.Vm.Evm.{
  Setup, ContractRef, contract_ref, address_of, evm_at, call_entered, call, call_code,
  delegate_call, static_call, end_create, check_code, store_code, finish_create, create_entered,
  create_funded, create_at, create, create2, before_create, init_state, methods, no_evm, too_deep,
  can_transfer, transfer, end_of,
}
use cardinal_evm.Vm.Evm.Restores.{
  Stays, Undone, Stays-some, kept_answer, none-Stays, some-Stays, some-Undone, fine-Undone,
  Stays-trans, reverted_to-Stays, none-Undone, reverted_to-Undone, end_call-Undone, end_call-Stays,
  ended-Stays, ended-Undone, Undone-from, backend, either, can_transfer-Kept,
  can_transfer-Unchanged, transfer-Kept, interpret-Stays, call_body-Stays, call_code_body-Stays,
  delegate_call_body-Stays, static_call_body-Stays,
}

-- Both at once.
abbrev Settles : (x : Setup) → StateDb → Option Answer → Type 0
Settles x s o = Stays (backend x) s o × Undone (backend x) s o

module _ (x : Setup) (level : ℕ) (inner : Bool → Evm) (read_only : Bool)
    (keeping : (r : Bool) → IsKeeping (backend x) (inner r)) (caller : ContractRef) where
  pair :
      (s : StateDb) (t : Bool) (o q : Option Answer)
      → Settles x s o
      → Settles x s q
      → Settles x s (if t then o else q)
  pair s t o q h k =
      (either x (Stays (backend x) s) t o q h.0 k.0, either x (Undone (backend x) s) t o q h.1 k.1)

  untouched :
      (s : StateDb) (r : Answer)
      → Kept (backend x) s r.db
      → Unchanged (backend x) s r.db
      → Settles x s (some r)
  untouched s r k u = (some-Stays (backend x) s r k, some-Undone (backend x) s r u)

  refused : (s : StateDb) (r : Answer) → r.db ≡ s → Settles x s (some r)
  refused s r e =
      untouched s r (rw e (Kept-refl (backend x) s)) (rw e (Unchanged-refl (backend x) s))

  ended :
      (s t : StateDb) (o : Option Answer)
      → Kept (backend x) s t
      → Stays (backend x) t o
      → Settles x s (o >>= λ r. end_of (snapshot s) r)
  ended s t o k h = (ended-Stays (backend x) s t o k h, ended-Undone (backend x) s t o k h)

  -- After a check that only reads.
  after_read :
      (s t : StateDb) (o : Option Answer)
      → Kept (backend x) s t
      → Unchanged (backend x) s t
      → Settles x t o
      → Settles x s o
  after_read s t o k u h = (
    Stays-trans (backend x) s t o k h.0,
    Undone-from (backend x) s t o u (Kept-IsValid (backend x) s t k) h.1,
  )

  entered_state :
      (db : StateDb) (a : Address) (value : ℕ)
      → Kept (backend x) db (
          transfer x
            (if (Ops.exist (backend x) db a).0
              then (Ops.exist (backend x) db a).1
              else Ops.create_account (backend x) (Ops.exist (backend x) db a).1 a)
            (address_of caller)
            a
            value)
  entered_state db a value =
      Kept-trans (backend x) db _ _
        (Kept-trans (backend x) db _ _ (exist-Kept (backend x) db a) (
          Kept-if (backend x) _ _ _ _ (Kept-refl (backend x) _)
            (create_account-Kept (backend x) _ a)))
        (transfer-Kept x _ (address_of caller) a value)

  call_entered-Settles :
      (db : StateDb) (input : Bytes) (a : Address) (gas value : ℕ)
      → Settles x db (call_entered x level inner read_only caller db input a gas value)
  unfolding call_entered
  call_entered-Settles db input a gas value =
      pair db _ _ _
        (
          some-Stays (backend x) db _ (exist-Kept (backend x) db a),
          fine-Undone (backend x) db _ refl,
        )
        (ended db _ _ (entered_state db a value) (
          call_body-Stays x level inner read_only keeping caller (precompile x.rules a) _ input a
            gas value))

  call-Settles :
      (db : StateDb) (input : Bytes) (a : Address) (gas value : ℕ)
      → Settles x db (call x level inner read_only caller db input a gas value)
  unfolding call
  call-Settles db input a gas value =
      let check = if value == 0 then (true, db) else can_transfer x db (address_of caller) value in
      let kept : Kept (backend x) db check.1 =
        Kept-if_pair (backend x) (value == 0) db _ _ (Kept-refl (backend x) db)
          (can_transfer-Kept x db (address_of caller) value) in
      let same : Unchanged (backend x) db check.1 = elim (Bool-cases (value == 0)) [
        | inl q ↦ rw q (Unchanged-refl (backend x) db)
        | inr q ↦ rw q (can_transfer-Unchanged x db (address_of caller) value)
      ] in
      pair db (too_deep x level inner read_only) _ _ (refused db _ refl) (
        after_read db check.1 _ kept same (
          pair check.1 _ _ _ (refused check.1 _ refl)
            (call_entered-Settles check.1 input a gas value)))

  call_code-Settles :
      (db : StateDb) (input : Bytes) (a : Address) (gas value : ℕ)
      → Settles x db (call_code x level inner read_only caller db input a gas value)
  unfolding call_code
  call_code-Settles db input a gas value =
      let db1 = (can_transfer x db (address_of caller) value).1 in
      pair db (too_deep x level inner read_only) _ _ (refused db _ refl) (
        after_read db db1 _ (can_transfer-Kept x db (address_of caller) value)
          (can_transfer-Unchanged x db (address_of caller) value)
          (pair db1 _ _ _ (refused db1 _ refl) (
            ended db1 db1 _ (Kept-refl (backend x) db1) (
              call_code_body-Stays x level inner read_only keeping caller (precompile x.rules a) db1
                input a gas value))))

  delegate_call-Settles :
      (db : StateDb) (input : Bytes) (a : Address) (gas : ℕ)
      → Settles x db (delegate_call x level inner read_only caller db input a gas)
  unfolding delegate_call
  delegate_call-Settles db input a gas = pair db _ _ _ (refused db _ refl) (
      ended db db _ (Kept-refl (backend x) db) (
        delegate_call_body-Stays x level inner read_only keeping caller (precompile x.rules a) db
          input a gas))

  static_call-Settles :
      (db : StateDb) (input : Bytes) (a : Address) (gas : ℕ)
      → Settles x db (static_call x level inner read_only caller db input a gas)
  unfolding static_call
  static_call-Settles db input a gas = pair db _ _ _ (refused db _ refl) (
      ended db (Ops.add_balance db a (pos 0)) _ (add_balance-Kept (backend x) db a (pos 0)) (
        static_call_body-Stays x level inner read_only keeping caller (precompile x.rules a) _ input
          a gas))

  -- The creations.
  check_code-db : (r : Answer) → (check_code x level inner read_only caller r).db ≡ r.db
  unfolding check_code
  check_code-db r = ground arith

  store_code-Kept :
      (a : Address) (r : Answer)
      → Kept (backend x) r.db (store_code x level inner read_only caller a r).db
  unfolding store_code
  store_code-Kept a r =
      ground (arith, Kept-refl (backend x) r.db, set_code-Kept (backend x) r.db a r.ret)

  end_create-Stays :
      (s : StateDb) (e : Option CallError) (r : Answer)
      → Kept (backend x) s r.db
      → Stays (backend x) s (end_create x level inner read_only caller (snapshot s) e r)
  unfolding end_create
  end_create-Stays s (some code_store_out_of_gas) r k =
      either x (Stays (backend x) s) x.rules.is_homestead _ _
        (reverted_to-Stays (backend x) s r 0 k) (some-Stays (backend x) s r k)
  end_create-Stays s none r k = end_call-Stays (backend x) s none r k
  end_create-Stays s (some e) r k = ground (arith, end_call-Stays (backend x) s (some e) r k)

  finish_create-Stays :
      (s : StateDb) (a : Address) (r : Answer)
      → Kept (backend x) s r.db
      → Stays (backend x) s (finish_create x level inner read_only caller (snapshot s) a r)
  unfolding finish_create
  finish_create-Stays s a r k =
      let checked = check_code x level inner read_only caller r in
      end_create-Stays s _ _
        (Kept-trans (backend x) s checked.db _ (rw (check_code-db r) k) (store_code-Kept a checked))

  end_create-Undone :
      (s : StateDb) (e : Option CallError) (r : Answer)
      → x.rules.is_homestead ≡ true
      → r.error ≡ e
      → Kept (backend x) s r.db
      → Undone (backend x) s (end_create x level inner read_only caller (snapshot s) e r)
  unfolding end_create
  end_create-Undone s (some code_store_out_of_gas) r o q k =
      rw o (reverted_to-Undone (backend x) s r 0 k)
  end_create-Undone s none r o q k = end_call-Undone (backend x) s none r q k
  end_create-Undone s (some reverted) r o q k = end_call-Undone (backend x) s (some reverted) r q k
  end_create-Undone s (some e) r o q k =
      ground (arith, end_call-Undone (backend x) s (some e) r q k)

  finish_create-Undone :
      (s : StateDb) (a : Address) (r : Answer)
      → x.rules.is_homestead ≡ true
      → Kept (backend x) s r.db
      → Undone (backend x) s (finish_create x level inner read_only caller (snapshot s) a r)
  unfolding finish_create
  finish_create-Undone s a r o k =
      let checked = check_code x level inner read_only caller r in
      let stored = store_code x level inner read_only caller a checked in
      end_create-Undone s stored.error (record stored { created = a }) o refl
        (Kept-trans (backend x) s checked.db _ (rw (check_code-db r) k) (store_code-Kept a checked))

  init_state-Kept :
      (db : StateDb) (a : Address) (value : ℕ)
      → Kept (backend x) db (init_state x level inner read_only caller db a value)
  unfolding init_state
  init_state-Kept db a value =
      Kept-trans (backend x) db _ _
        (Kept-trans (backend x) db _ _ (create_account-Kept (backend x) db a) (
          Kept-if (backend x) x.rules.is_eip158 _ _ _ (set_nonce-Kept (backend x) _ a 1)
            (Kept-refl (backend x) _)))
        (transfer-Kept x _ (address_of caller) a value)

  before_create-Kept :
      (db : StateDb) (a : Address)
      → Kept (backend x) db (before_create x level inner read_only caller db a)
  unfolding before_create
  before_create-Kept db a =
      Kept-trans (backend x) db _ _
        (Kept-trans (backend x) db _ _ (get_nonce-Kept (backend x) db (address_of caller))
          (set_nonce-Kept (backend x) _ (address_of caller) _))
        (Kept-if (backend x) x.rules.is_berlin _ _ _ (add_address-Kept (backend x) _ a)
          (Kept-refl (backend x) _))

  bind-Stays :
      (s t : StateDb) (o : Option Answer) (f : Answer → Option Answer)
      → Kept (backend x) s t
      → Stays (backend x) t o
      → ((r : Answer) → Kept (backend x) s r.db → Stays (backend x) s (f r))
      → Stays (backend x) s (o >>= f)
  bind-Stays s t none f k h g = none-Stays (backend x) s
  bind-Stays s t (some r) f k h g =
      g r (Kept-trans (backend x) s t r.db k (Stays-some (backend x) t r h))

  create_entered-Stays :
      (db : StateDb) (code : Bytes) (hash : Hash) (gas value : ℕ) (a : Address)
      → Stays
          (backend x)
          db
          (create_entered x level inner read_only caller db code hash gas value a)
  unfolding create_entered
  create_entered-Stays db code hash gas value a =
      bind-Stays db (init_state x level inner read_only caller db a value) _ _
        (init_state-Kept db a value)
        (interpret-Stays x level inner read_only keeping false _ _ _ gas) (finish_create-Stays db a)

  bind-Undone :
      (s t : StateDb) (o : Option Answer) (f : Answer → Option Answer)
      → Kept (backend x) s t
      → Stays (backend x) t o
      → ((r : Answer) → Kept (backend x) s r.db → Undone (backend x) s (f r))
      → Undone (backend x) s (o >>= f)
  bind-Undone s t none f k h g = none-Undone (backend x) s
  bind-Undone s t (some r) f k h g =
      g r (Kept-trans (backend x) s t r.db k (Stays-some (backend x) t r h))

  create_entered-Undone :
      (db : StateDb) (code : Bytes) (hash : Hash) (gas value : ℕ) (a : Address)
      → x.rules.is_homestead ≡ true
      → Undone
          (backend x)
          db
          (create_entered x level inner read_only caller db code hash gas value a)
  unfolding create_entered
  create_entered-Undone db code hash gas value a o =
      bind-Undone db (init_state x level inner read_only caller db a value) _ _
        (init_state-Kept db a value)
        (interpret-Stays x level inner read_only keeping false _ _ _ gas)
        (λ r. finish_create-Undone db a r o)

  create_funded-Stays :
      (db : StateDb) (code : Bytes) (hash : Hash) (gas value : ℕ) (a : Address)
      → Stays (backend x) db (create_funded x level inner read_only caller db code hash gas value a)
  unfolding create_funded
  create_funded-Stays db code hash gas value a =
      let db1 = before_create x level inner read_only caller db a in
      let kept = Kept-trans (backend x) db db1 _ (before_create-Kept db a) (
        Kept-trans (backend x) db1 _ _ (get_code_hash-Kept (backend x) db1 a)
          (get_nonce-Kept (backend x) (Ops.get_code_hash (backend x) db1 a).1 a)) in
      either x (Stays (backend x) db) _ _ _ (some-Stays (backend x) db _ kept)
        (Stays-trans (backend x) db _ _ kept (create_entered-Stays _ code hash gas value a))

  create_at-Stays :
      (db : StateDb) (code : Bytes) (hash : Hash) (gas value : ℕ) (a : Address)
      → Stays (backend x) db (create_at x level inner read_only caller db code hash gas value a)
  unfolding create_at
  create_at-Stays db code hash gas value a =
      let kept = can_transfer-Kept x db (address_of caller) value in
      either x (Stays (backend x) db) (too_deep x level inner read_only) _ _
        (some-Stays (backend x) db _ (Kept-refl (backend x) db))
        (either x (Stays (backend x) db) _ _ _ (some-Stays (backend x) db _ kept)
          (Stays-trans (backend x) db _ _ kept (create_funded-Stays _ code hash gas value a)))

module _ (x : Setup) where
  methods-IsKeeping :
      (level : ℕ) (inner : Bool → Evm) (read_only : Bool)
      → ((r : Bool) → IsKeeping (backend x) (inner r))
      → IsKeeping (backend x) (methods x level inner read_only)
  unfolding methods create create2
  methods-IsKeeping level inner read_only k = record {
    call = λ s input a gas value r e.
        kept_answer (backend x) s.db r _
          (call-Settles x level inner read_only k (contract_ref s.contract) s.db input a gas
            value).0
          e;
    call_code = λ s input a gas value r e.
        kept_answer (backend x) s.db r _
          (call_code-Settles x level inner read_only k (contract_ref s.contract) s.db input a gas
            value).0
          e;
    delegate_call = λ s input a gas r e.
        kept_answer (backend x) s.db r _
          (delegate_call-Settles x level inner read_only k (contract_ref s.contract) s.db input a
            gas).0
          e;
    static_call = λ s input a gas r e.
        kept_answer (backend x) s.db r _
          (static_call-Settles x level inner read_only k (contract_ref s.contract) s.db input a
            gas).0
          e;
    create = λ s input gas value r e.
        kept_answer (backend x) s.db r _
          (Stays-trans (backend x) s.db _ _
            (get_nonce-Kept (backend x) s.db (address_of (contract_ref s.contract)))
            (create_at-Stays x level inner read_only k (contract_ref s.contract) _ input 0 gas value
              _))
          e;
    create2 = λ s input gas value salt r e.
        kept_answer (backend x) s.db r _
          (create_at-Stays x level inner read_only k (contract_ref s.contract) s.db input _ gas
            value _)
          e;
  }

  no_evm-IsKeeping : IsKeeping (backend x) (no_evm x)
  unfolding no_evm
  no_evm-IsKeeping = record {
    call = λ s input a gas value r e. absurd (ground arith);
    call_code = λ s input a gas value r e. absurd (ground arith);
    delegate_call = λ s input a gas r e. absurd (ground arith);
    static_call = λ s input a gas r e. absurd (ground arith);
    create = λ s input gas value r e. absurd (ground arith);
    create2 = λ s input gas value salt r e. absurd (ground arith);
  }

  -- Whatever a call or a creation does, at every depth, the snapshot before it can be restored after it,
  -- and the state that it leaves is valid.
  pub evm_at-IsKeeping : (n : ℕ) (read_only : Bool) → IsKeeping (backend x) (evm_at x n read_only)
  unfolding evm_at
  evm_at-IsKeeping zero read_only =
      methods-IsKeeping (Prices.call_create_depth + 1) (λ r. no_evm x) read_only
        (λ r. no_evm-IsKeeping)
  evm_at-IsKeeping (suc n) read_only =
      methods-IsKeeping (Prices.call_create_depth - n) (evm_at x n) read_only (evm_at-IsKeeping n)

  pub calls-Undone :
      (n level : ℕ) (read_only : Bool) (caller : ContractRef) (db : StateDb) (input : Bytes)
      (a : Address) (gas value : ℕ)
      → Undone (backend x) db (call x level (evm_at x n) read_only caller db input a gas value)
        × Undone
            (backend x)
            db
            (call_code x level (evm_at x n) read_only caller db input a gas value)
        × Undone (backend x) db (delegate_call x level (evm_at x n) read_only caller db input a gas)
        × Undone (backend x) db (static_call x level (evm_at x n) read_only caller db input a gas)
  calls-Undone n level read_only caller db input a gas value =
      let k = evm_at-IsKeeping n in
      (
        (call-Settles x level (evm_at x n) read_only k caller db input a gas value).1,
        (call_code-Settles x level (evm_at x n) read_only k caller db input a gas value).1,
        (delegate_call-Settles x level (evm_at x n) read_only k caller db input a gas).1,
        (static_call-Settles x level (evm_at x n) read_only k caller db input a gas).1,
      )

  pub creation-Undone :
      (n level : ℕ) (read_only : Bool) (caller : ContractRef) (db : StateDb) (code : Bytes)
      (hash : Hash) (gas value : ℕ) (a : Address)
      → x.rules.is_homestead ≡ true
      → Undone
          (backend x)
          db
          (create_entered x level (evm_at x n) read_only caller db code hash gas value a)
  creation-Undone n level read_only caller db code hash gas value a o =
      create_entered-Undone x level (evm_at x n) read_only (evm_at-IsKeeping n) caller db code hash
        gas value a o
