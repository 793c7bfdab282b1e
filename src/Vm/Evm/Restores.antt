-- ===== src/Vm/Evm/Restores.antt =====
-- The state that a body of a call leaves, and what reverting it gives (vm/evm.go).
pub mod Methods
use cardinal_evm.Prelude.{
  ℕ, zero, suc, ◌+◌, ◌-◌, ◌==◌, ◌≡◌, refl, sym, subst, arith, length, not, Bool, true, false, ◌&&◌,
  ◌||◌, if◌then◌else◌, ap, Option, none, some, [], ◌>>=◌, ℤ, pos,
}
use cardinal_evm.State.Account.{Address, Hash, Bytes, Backend}
use cardinal_evm.State.Db.{StateDb, snapshot, revert_to_snapshot}
use cardinal_evm.State.Db.Kept.{
  Kept, Kept-refl, Kept-trans, Kept-IsValid, Kept-if, Kept-if_pair, Unchanged, Unchanged-refl,
  Unchanged-trans, get_balance-Unchanged, Restored, revert-Restored, revert-Kept,
}
use cardinal_evm.State.Db.Kept.Methods.{
  get_balance-Kept, get_code-Kept, get_code_hash-Kept, get_nonce-Kept, exist-Kept,
  create_account-Kept, set_nonce-Kept, set_code-Kept, add_balance-Kept, sub_balance-Kept,
  add_address-Kept,
}
use cardinal_evm.State.Db.Ops
use cardinal_evm.State.Db.Undo.{IsValid}
use cardinal_evm.Vm.Contract.{Contract, new_contract}
use cardinal_evm.Vm.Contracts.{Precompiled, precompile}
use cardinal_evm.Vm.Contracts.Prices
use cardinal_evm.Vm.Contracts.Runs.{run_precompiled_contract}
use cardinal_evm.Vm.GasTable.Calls.Cold.{parse_delegation}
use cardinal_evm.Vm.JumpTable.Validate.{jump_table}
use cardinal_evm.Vm.Interpreter.{Round}
use cardinal_evm.Vm.Interpreter.Calls.{Answer, CallError, Evm, reverted, code_store_out_of_gas}
use cardinal_evm.Vm.Interpreter.Kept.{Ends, run-Ends}
use cardinal_evm.Vm.Interpreter.Kept.Calling.{IsKeeping}
use cardinal_evm.Vm.Evm.{
  Setup, ContractRef, contract_ref, address_of, parent, result_of, end_call, end_of, reverted_to,
  answer, precompiled_answer, delegating, evm_at, interpret, run_code_of, run_precompile,
  run_account, call_body, call_entered, call, call_code_body, call_code, delegate_call_body,
  delegate_call, static_call_body, static_call, end_create, check_code, store_code, finish_create,
  create_entered, create_funded, create_at, create, create2, before_create, init_state, methods,
  no_evm, oversized, too_deep, can_transfer, transfer, resolve_code, resolve_code_hash,
}

module _ (b : Backend) where
  -- The answer's state is kept; and where the answer has an error, the state is as before.
  Stays : StateDb → Option Answer → Type 0
  Stays s none = Unit {0}
  Stays s (some r) = Kept b s r.db

  abbrev OnError : Option CallError → Type 0 → Type 0
  OnError none P = Unit {0}
  OnError (some e) P = P

  pub Undone : StateDb → Option Answer → Type 0
  Undone s none = Unit {0}
  Undone s (some r) = OnError r.error (IsValid s → Unchanged b s r.db)

  none-Stays : (s : StateDb) → Stays s none
  unfolding Stays
  none-Stays s = tt

  some-Stays : (s : StateDb) (r : Answer) → Kept b s r.db → Stays s (some r)
  unfolding Stays
  some-Stays s r k = k

  none-Undone : (s : StateDb) → Undone s none
  unfolding Undone
  none-Undone s = tt

  some-Undone : (s : StateDb) (r : Answer) → Unchanged b s r.db → Undone s (some r)
  unfolding Undone
  some-Undone s r u = elim r.error as (λ e. OnError e (IsValid s → Unchanged b s r.db)) [
    | none ↦ tt
    | some e ↦ λ v. u
  ]

  Stays-some : (s : StateDb) (r : Answer) → Stays s (some r) → Kept b s r.db
  unfolding Stays
  Stays-some s r h = h

  kept_answer :
      (s : StateDb) (r : Answer) (o : Option Answer) → Stays s o → o ≡ some r → Kept b s r.db
  kept_answer s r o h e = Stays-some s r (subst (Stays s) e h)

  fine-Undone : (s : StateDb) (r : Answer) → r.error ≡ none → Undone s (some r)
  unfolding Undone
  fine-Undone s r e = rw e tt

  pub Undone-Unchanged :
      (s : StateDb) (o : Option Answer) (r : Answer) (e : CallError)
      → Undone s o
      → IsValid s
      → o ≡ some r
      → r.error ≡ some e
      → Unchanged b s r.db
  unfolding Undone
  Undone-Unchanged s o r e u v h q =
      subst (λ e. OnError e (IsValid s → Unchanged b s r.db)) q (subst (Undone s) h u) v

  -- An answer with an error has the state as before.
  pub FailsClean : StateDb → Option Answer → Type 0
  FailsClean s none = Unit {0}
  FailsClean s (some r) = OnError r.error (Unchanged b s r.db)

  pub Undone-FailsClean :
      (s : StateDb) (o : Option Answer) → Undone s o → IsValid s → FailsClean s o
  unfolding Undone FailsClean
  Undone-FailsClean s none u v = tt
  Undone-FailsClean s (some r) u v =
      elim r.error
          as (λ e. OnError e (IsValid s → Unchanged b s r.db) → OnError e (Unchanged b s r.db)) [
            | none ↦ λ w. tt
            | some e ↦ λ w. w v
          ]
        u

  Stays-trans : (s t : StateDb) (o : Option Answer) → Kept b s t → Stays t o → Stays s o
  unfolding Stays
  Stays-trans s t none k h = tt
  Stays-trans s t (some r) k h = Kept-trans b s t r.db k h

  result_of-Stays : (s : StateDb) (r : Option Round) → Ends b s r → Stays s (result_of r)
  unfolding Stays
  result_of-Stays s r h = ground (arith, h)

  reverted_to-Stays :
      (s : StateDb) (r : Answer) (left : ℕ)
      → Kept b s r.db
      → Stays s (reverted_to (snapshot s) r left)
  unfolding Stays
  reverted_to-Stays s r left k =
      found (revert_to_snapshot (snapshot s) r.db) (λ u. revert-Kept b s r.db u k)
    where
      found :
          (o : Option StateDb)
          → ((u : StateDb) → o ≡ some u → Kept b s u)
          → Stays s (o >>= λ db. some (record r { db = db; left = left }))
      found none h = tt
      found (some u) h = h u refl

  from_some : StateDb → Option StateDb → StateDb
  from_some d none = d
  from_some d (some x) = x

  reverted_to-Undone :
      (s : StateDb) (r : Answer) (left : ℕ)
      → Kept b s r.db
      → Undone s (reverted_to (snapshot s) r left)
  unfolding Undone from_some
  reverted_to-Undone s r left k =
      found (revert_to_snapshot (snapshot s) r.db) (λ v. revert-Restored b s r.db v k)
    where
      found :
          (o : Option StateDb)
          → (IsValid s → Restored b s o)
          → Undone s (o >>= λ db. some (record r { db = db; left = left }))
      found none h = tt
      found (some u) h = elim r.error as (λ e. OnError e (IsValid s → Unchanged b s u)) [
        | none ↦ tt
        | some e ↦
            λ v. let (t, same, un) = h v in subst (Unchanged b s) (sym (ap (from_some s) same)) un
      ]

  end_call-Stays :
      (s : StateDb) (e : Option CallError) (r : Answer)
      → Kept b s r.db
      → Stays s (end_call (snapshot s) e r)
  unfolding end_call
  end_call-Stays s none r k = some-Stays s r k
  end_call-Stays s (some reverted) r k = reverted_to-Stays s r r.left k
  end_call-Stays s (some e) r k = ground (arith, reverted_to-Stays s r 0 k)

  end_call-Undone :
      (s : StateDb) (e : Option CallError) (r : Answer)
      → r.error ≡ e
      → Kept b s r.db
      → Undone s (end_call (snapshot s) e r)
  unfolding end_call Undone
  end_call-Undone s none r q k = rw q tt
  end_call-Undone s (some reverted) r q k = reverted_to-Undone s r r.left k
  end_call-Undone s (some e) r q k = ground (arith, reverted_to-Undone s r 0 k)

  ended-Stays :
      (s t : StateDb) (o : Option Answer)
      → Kept b s t
      → Stays t o
      → Stays s (o >>= λ r. end_of (snapshot s) r)
  unfolding end_of Stays
  ended-Stays s t none k h = tt
  ended-Stays s t (some r) k h = end_call-Stays s r.error r (Kept-trans b s t r.db k h)

  ended-Undone :
      (s t : StateDb) (o : Option Answer)
      → Kept b s t
      → Stays t o
      → Undone s (o >>= λ r. end_of (snapshot s) r)
  unfolding end_of Stays Undone
  ended-Undone s t none k h = tt
  ended-Undone s t (some r) k h = end_call-Undone s r.error r refl (Kept-trans b s t r.db k h)

  Undone-from :
      (s t : StateDb) (o : Option Answer)
      → Unchanged b s t
      → (IsValid s → IsValid t)
      → Undone t o
      → Undone s o
  unfolding Undone
  Undone-from s t none u v h = tt
  Undone-from s t (some r) u v h = carried r.error h
    where
      carried :
          (e : Option CallError)
          → OnError e (IsValid t → Unchanged b t r.db)
          → OnError e (IsValid s → Unchanged b s r.db)
      carried none k = tt
      carried (some e) k = λ w. Unchanged-trans b s t r.db u (k (v w))

module _ (x : Setup) where
  abbrev backend : Backend
  backend = x.host.backend

  either :
      (P : Option Answer → Type 0) (t : Bool) (r s : Option Answer)
      → P r
      → P s
      → P (if t then r else s)
  either P true r s p q = p
  either P false r s p q = q

  can_transfer-Kept :
      (db : StateDb) (a : Address) (value : ℕ) → Kept backend db (can_transfer x db a value).1
  unfolding can_transfer
  can_transfer-Kept db a value = get_balance-Kept backend db a

  can_transfer-Unchanged :
      (db : StateDb) (a : Address) (value : ℕ) → Unchanged backend db (can_transfer x db a value).1
  unfolding can_transfer
  can_transfer-Unchanged db a value = get_balance-Unchanged backend db a

  transfer-Kept :
      (db : StateDb) (sender recipient : Address) (value : ℕ)
      → Kept backend db (transfer x db sender recipient value)
  unfolding transfer
  transfer-Kept db sender recipient value =
      Kept-trans backend db _ _ (sub_balance-Kept backend db sender (pos value))
        (add_balance-Kept backend _ recipient (pos value))

  resolve_code-Kept : (db : StateDb) (a : Address) → Kept backend db (resolve_code x db a).1
  unfolding resolve_code
  resolve_code-Kept db a =
      Kept-if_pair backend x.rules.is_prague db _ _ (resolved (parse_delegation _))
        (get_code-Kept backend db a)
    where
      resolved :
          (target : Option Address)
          → Kept backend db
              (elim target as (λ q. Bytes × StateDb) [
                | none ↦ Ops.get_code backend db a
                | some t ↦ Ops.get_code backend (Ops.get_code backend db a).1 t
              ]).1
      resolved none = get_code-Kept backend db a
      resolved (some t) =
          Kept-trans backend db _ _ (get_code-Kept backend db a) (get_code-Kept backend _ t)

  resolve_code_hash-Kept :
      (db : StateDb) (a : Address) → Kept backend db (resolve_code_hash x db a).1
  unfolding resolve_code_hash
  resolve_code_hash-Kept db a =
      Kept-if_pair backend x.rules.is_prague db _ _ (resolved (parse_delegation _))
        (get_code_hash-Kept backend db a)
    where
      resolved :
          (target : Option Address)
          → Kept backend db
              (elim target as (λ q. Hash × StateDb) [
                | none ↦ Ops.get_code_hash backend (Ops.get_code backend db a).1 a
                | some t ↦ Ops.get_code_hash backend (Ops.get_code backend db a).1 t
              ]).1
      resolved none =
          Kept-trans backend db _ _ (get_code-Kept backend db a) (get_code_hash-Kept backend _ a)
      resolved (some t) =
          Kept-trans backend db _ _ (get_code-Kept backend db a) (get_code_hash-Kept backend _ t)

  module _ (level : ℕ) (inner : Bool → Evm) (read_only : Bool)
      (keeping : (r : Bool) → IsKeeping backend (inner r)) where
    interpret-Stays :
        (static : Bool) (db : StateDb) (c : Contract) (input : Bytes) (gas : ℕ)
        → Stays backend db (result_of (interpret x level inner read_only static db c input gas))
    unfolding interpret
    interpret-Stays static db c input gas = result_of-Stays backend db _ (
        run-Ends (record x.host { read_only = read_only || static }) (inner (read_only || static))
          (keeping (read_only || static)) (jump_table x.rules x.disabled) (gas + 1) db c input gas
          0)

    run_code_of-Stays :
        (db : StateDb) (a : Address) (c : Contract) (input : Bytes) (gas : ℕ)
        → Stays backend db (run_code_of x level inner read_only db a c input gas)
    unfolding run_code_of
    run_code_of-Stays db a c input gas =
        Stays-trans backend db _ _
          (Kept-trans backend db _ _ (resolve_code_hash-Kept db a)
            (resolve_code-Kept (resolve_code_hash x db a).1 a))
          (interpret-Stays false _ _ input gas)

    module _ (caller : ContractRef) where
      run_precompile-Stays :
          (p : Precompiled) (db : StateDb) (input : Bytes) (gas : ℕ)
          → Stays backend db (some (run_precompile x level inner read_only caller p db input gas))
      unfolding run_precompile
      run_precompile-Stays p db input gas = same (run_precompiled_contract x.crypto p input gas)
        where
          same : (q : Option Bytes × ℕ) → Stays backend db (some (precompiled_answer caller db q))
          same (some ret, left) = some-Stays backend db _ (Kept-refl backend db)
          same (none, left) = some-Stays backend db _ (Kept-refl backend db)

      run_account-Stays :
          (db : StateDb) (input : Bytes) (a : Address) (gas value : ℕ)
          → Stays backend db (run_account x level inner read_only caller db input a gas value)
      unfolding run_account
      run_account-Stays db input a gas value =
          either (Stays backend db) _ _ _ (some-Stays backend db _ (resolve_code-Kept db a)) (
            Stays-trans backend db _ _
              (Kept-trans backend db _ _ (resolve_code-Kept db a)
                (resolve_code_hash-Kept (resolve_code x db a).1 a))
              (interpret-Stays false _ _ input gas))

      call_body-Stays :
          (p : Option Precompiled) (db : StateDb) (input : Bytes) (a : Address) (gas value : ℕ)
          → Stays backend db (call_body x level inner read_only caller p db input a gas value)
      unfolding call_body
      call_body-Stays (some p) db input a gas value = run_precompile-Stays p db input gas
      call_body-Stays none db input a gas value = run_account-Stays db input a gas value

      call_code_body-Stays :
          (p : Option Precompiled) (db : StateDb) (input : Bytes) (a : Address) (gas value : ℕ)
          → Stays backend db (call_code_body x level inner read_only caller p db input a gas value)
      unfolding call_code_body new_contract
      call_code_body-Stays (some p) db input a gas value = run_precompile-Stays p db input gas
      call_code_body-Stays none db input a gas value =
          run_code_of-Stays db a
            (new_contract (address_of caller) (parent caller) (address_of caller) value) input gas

      delegate_call_body-Stays :
          (p : Option Precompiled) (db : StateDb) (input : Bytes) (a : Address) (gas : ℕ)
          → Stays backend db (delegate_call_body x level inner read_only caller p db input a gas)
      unfolding delegate_call_body new_contract
      delegate_call_body-Stays (some p) db input a gas = run_precompile-Stays p db input gas
      delegate_call_body-Stays none db input a gas = delegated (
          delegating caller
            (new_contract (address_of caller) (parent caller) (address_of caller) 0))
        where
          delegated :
              (c : Option Contract)
              → Stays backend db (c >>= λ c'. run_code_of x level inner read_only db a c' input gas)
          delegated none = none-Stays backend db
          delegated (some c) = run_code_of-Stays db a c input gas

      static_call_body-Stays :
          (p : Option Precompiled) (db : StateDb) (input : Bytes) (a : Address) (gas : ℕ)
          → Stays backend db (static_call_body x level inner read_only caller p db input a gas)
      unfolding static_call_body
      static_call_body-Stays (some p) db input a gas = run_precompile-Stays p db input gas
      static_call_body-Stays none db input a gas =
          Stays-trans backend db _ _
            (Kept-trans backend db _ _ (get_code_hash-Kept backend db a)
              (get_code-Kept backend (Ops.get_code_hash backend db a).1 a))
            (interpret-Stays true _ _ input gas)
