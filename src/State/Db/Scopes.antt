-- ===== src/State/Db/Scopes.antt =====
-- Scripts of stateDB calls never panic, and reverting to the snapshot before one brings back a state
-- that answers as the one before.
use cardinal_evm.Prelude.{◌≡◌, refl, Bool, true, false, ◌>>=◌}
use cardinal_evm.Prelude.{Option, some, not, ◌||◌}
use cardinal_evm.State.Account.{Backend}
use cardinal_evm.State.Object.{StateObject}
use cardinal_evm.State.Object.Views.{Same, Same-refl}
use cardinal_evm.State.Object.Load
use cardinal_evm.State.Object.Caches
use cardinal_evm.State.Db.{StateDb, snapshot, revert_to_snapshot}
use cardinal_evm.State.Db.Agree.{Agree}
use cardinal_evm.State.Db.Undo.{IsValid, Undo-of_Agree, Undo-trans, Agree-IsValid}
use cardinal_evm.State.Db.Undo.{revert_to_snapshot-Undo}
use cardinal_evm.State.Db.Restore.{Restores, Restores-refl, Restores-read, set_nonce-Restores}
use cardinal_evm.State.Db.Restore.{set_balance-Restores, set_storage-Restores, set_code-Restores}
use cardinal_evm.State.Db.Restore.{add_balance-Restores, sub_balance-Restores, set_state-Restores}
use cardinal_evm.State.Db.Globals.{add_refund-Restores, sub_refund-Restores, suicide-Restores}
use cardinal_evm.State.Db.Globals.{self_destruct_6780-Restores, set_transient_state-Restores}
use cardinal_evm.State.Db.Globals.{create_account-Restores, add_address-Restores, add_slot-Restores}
use cardinal_evm.State.Db.Run.{Op, Script, done, op, scope, step, run, end_scope}
use cardinal_evm.State.Db.Ops
use cardinal_evm.State.Db.Answers.{SameCoreAnswers, Agree-SameCoreAnswers}

module _ (b : Backend) where
  pub Restores-trans : {s t u : StateDb} → Restores b s t → Restores b t u → Restores b s u
  Restores-trans h k = record { undo = Undo-trans b h.undo k.undo; valid = k.valid }

  -- A call answers a state, which it can be undone from.
  pub record Answers (s : StateDb) (r : Option StateDb) : Type 0 where
    pub out : StateDb
    pub returns : r ≡ some out
    pub restores : Restores b s out

  answer : {s : StateDb} (t : StateDb) → Restores b s t → Answers s (some t)
  answer t h = record { out = t; returns = refl; restores = h }

  Answers-bind :
      (s : StateDb) (r : Option StateDb) (f : StateDb → Option StateDb)
      → Answers s r
      → ((t : StateDb) → IsValid t → Answers t (f t))
      → Answers s (r >>= f)
  Answers-bind s r f h k =
      let next = k h.out h.restores.valid in
      record {
        out = next.out;
        returns = rw h.returns next.returns;
        restores = Restores-trans h.restores next.restores;
      }

  pub balance_of-Same : (o : StateObject) → Same b o (Ops.balance_of b o).1
  unfolding Ops.balance_of
  balance_of-Same o = Caches.load_account-Same b o

  exists-Same : (o : StateObject) → Same b o (Ops.exists_object b o).1
  unfolding Ops.exists_object
  exists-Same o =
      let e = Load.is_empty b o in
      Caches.Same-if b {A = Bool} o o.deleted (false, o) (not e.0, e.1) (Same-refl b o)
        (Caches.is_empty-Same b o)

  empty-Same : (o : StateObject) → Same b o (Ops.empty_object b o).1
  unfolding Ops.empty_object
  empty-Same o =
      Caches.Same-if b {A = Bool} o (o.deleted || o.suicided) (true, o) (Load.is_empty b o)
        (Same-refl b o) (Caches.is_empty-Same b o)

  pub step-Answers : (o : Op) (s : StateDb) → IsValid s → Answers s (step b o s)
  unfolding step Ops.get_balance Ops.get_nonce Ops.get_code Ops.get_code_hash Ops.has_suicided
      Ops.exist Ops.empty Ops.get_state Ops.get_committed_state
  step-Answers (Op.create_account a) s v = answer _ (create_account-Restores b s a v)
  step-Answers (Op.self_destruct_6780 a) s v = answer _ (self_destruct_6780-Restores b s a v)
  step-Answers (Op.suicide a) s v = answer _ (suicide-Restores b s a v)
  step-Answers (Op.add_address a) s v = answer _ (add_address-Restores b s a v)
  step-Answers (Op.sub_balance a x) s v = answer _ (sub_balance-Restores b s a x v)
  step-Answers (Op.add_balance a x) s v = answer _ (add_balance-Restores b s a x v)
  step-Answers (Op.set_balance a x) s v = answer _ (set_balance-Restores b s a x v)
  step-Answers (Op.set_nonce a n) s v = answer _ (set_nonce-Restores b s a n v)
  step-Answers (Op.set_code a code) s v = answer _ (set_code-Restores b s a code v)
  step-Answers (Op.add_refund n) s v = answer _ (add_refund-Restores b s n v)
  step-Answers (Op.sub_refund n) s v = answer _ (sub_refund-Restores b s n v)
  step-Answers (Op.set_state a slot x) s v = answer _ (set_state-Restores b s a slot x v)
  step-Answers (Op.set_transient_state a slot x) s v =
      answer _ (set_transient_state-Restores b s a slot x v)
  step-Answers (Op.set_storage a m) s v = answer _ (set_storage-Restores b s a m v)
  step-Answers (Op.add_slot a slot) s v =
      let (t, e, h) = add_slot-Restores b s a slot v in
      record { out = t; returns = e; restores = h }
  step-Answers (Op.get_balance a) s v =
      answer _ (Restores-read b (Ops.balance_of b) s a balance_of-Same v)
  step-Answers (Op.get_nonce a) s v =
      answer _ (Restores-read b (Load.get_nonce b) s a (Caches.get_nonce-Same b) v)
  step-Answers (Op.get_code a) s v =
      answer _ (Restores-read b (Load.get_code b) s a (Caches.get_code-Same b) v)
  step-Answers (Op.get_code_hash a) s v =
      answer _ (Restores-read b (Load.get_code_hash b) s a (Caches.get_code_hash-Same b) v)
  step-Answers (Op.has_suicided a) s v =
      answer _ (Restores-read b {A = Bool} (λ o. (o.suicided, o)) s a (λ o. Same-refl b o) v)
  step-Answers (Op.exist a) s v = answer _ (Restores-read b (Ops.exists_object b) s a exists-Same v)
  step-Answers (Op.empty a) s v = answer _ (Restores-read b (Ops.empty_object b) s a empty-Same v)
  step-Answers (Op.get_state a slot) s v = answer _ (
      Restores-read b (λ o. Load.get_state b o (Ops.slot_key b slot)) s a
        (λ o. Caches.get_state-Same b o (Ops.slot_key b slot)) v)
  step-Answers (Op.get_committed_state a slot) s v = answer _ (
      Restores-read b (λ o. Load.get_committed_state b o (Ops.slot_key b slot)) s a
        (λ o. Caches.get_committed_state-Same b o (Ops.slot_key b slot)) v)

  -- The journal is not among what states agree on: the state that a revert leaves has the old one.
  pub Agree-journal : (s t : StateDb) → Agree b s t → Agree b s (record t { journal = s.journal })
  Agree-journal s t h = record {
    object_at = h.object_at;
    refund = h.refund;
    access_list = h.access_list;
    alcalc = h.alcalc;
    transient = h.transient;
    kept = h.kept;
  }

  pub end_scope-Answers :
      (s t : StateDb) (failed : Bool)
      → IsValid s
      → Restores b s t
      → Answers s (end_scope b (snapshot s) failed t)
  unfolding end_scope
  end_scope-Answers s t false v h = answer t h
  end_scope-Answers s t true v h =
      let agree = Agree-journal s h.undo.back h.undo.agree in
      record {
        out = record h.undo.back { journal = s.journal };
        returns = revert_to_snapshot-Undo b s t h.undo;
        restores = record { undo = Undo-of_Agree b refl agree; valid = Agree-IsValid b agree v };
      }

  run-Answers : (x : Script) (s : StateDb) → IsValid s → Answers s (run b x s)
  unfolding run
  run-Answers done s v = answer s (Restores-refl b s v)
  run-Answers (op o rest) s v =
      Answers-bind s (step b o s) (run b rest) (step-Answers o s v) (run-Answers rest)
  run-Answers (scope inner failed rest) s v =
      let h = run-Answers inner s v in
      let ended = end_scope-Answers s h.out failed v h.restores in
      let next = run-Answers rest ended.out ended.restores.valid in
      record {
        out = next.out;
        returns = rw (h.returns, ended.returns) next.returns;
        restores = Restores-trans ended.restores next.restores;
      }

  -- From a valid state, a script of stateDB calls and nested scopes runs without a panic; reverting
  -- to the snapshot before it then succeeds, and leaves a state with the old journal in which each
  -- getter of the stateDB but GetCodeHash, Exist and Empty answers as in the state before.
  pub revert_to_snapshot-run :
      (x : Script) (s : StateDb)
      → IsValid s
      → (t : StateDb) × (u : StateDb) × (run b x s ≡ some t)
        × (revert_to_snapshot (snapshot s) t ≡ some u)
        × (u.journal ≡ s.journal)
        × SameCoreAnswers b s u
  revert_to_snapshot-run x s v =
      let h = run-Answers x s v in
      (
        h.out,
        record h.restores.undo.back { journal = s.journal },
        h.returns,
        revert_to_snapshot-Undo b s h.out h.restores.undo,
        refl,
        Agree-SameCoreAnswers b _ _ (Agree-journal s h.restores.undo.back h.restores.undo.agree),
      )
