-- ===== src/State/Db/Kept.antt =====
-- What a use of the StateDB interface promises its caller: from a valid state, a valid one, from which
-- the snapshot before the use can be restored.
pub mod Methods
use cardinal_evm.Prelude.{
  ℕ, ◌≡◌, ◌∙◌, ap, refl, sym, subst, Bool, true, false, if◌then◌else◌, Option, none, some, ℤ,
}
use cardinal_evm.State.Account.{Address, Hash, Bytes, Backend}
use cardinal_evm.State.Object.Caches
use cardinal_evm.State.Object.Load
use cardinal_evm.State.Object.Views.{Same-refl}
use cardinal_evm.State.Db.{StateDb, object, snapshot, revert_to_snapshot}
use cardinal_evm.State.Db.Agree.{Agree-refl}
use cardinal_evm.State.Db.Undo.{IsValid, Agree-put-Same, revert_to_snapshot-Undo}
use cardinal_evm.State.Db.Restore.{Restores, Restores-refl}
use cardinal_evm.State.Db.Run.{Op, step, end_scope}
use cardinal_evm.State.Db.Scopes.{
  balance_of-Same, Answers, Restores-trans, step-Answers, end_scope-Answers, Agree-journal,
}
use cardinal_evm.State.Db.Ops
use cardinal_evm.State.Db.Answers.{SameCoreAnswers, Agree-SameCoreAnswers}

module _ (b : Backend) where
  pub Kept : StateDb → StateDb → Type 0
  Kept s t = IsValid s → Restores b s t

  pub Kept-refl : (s : StateDb) → Kept s s
  unfolding Kept
  Kept-refl s v = Restores-refl b s v

  pub Kept-same : (s t : StateDb) → t ≡ s → Kept s t
  Kept-same s t e = subst (Kept s) (sym e) (Kept-refl s)

  pub Kept-trans : (s t u : StateDb) → Kept s t → Kept t u → Kept s u
  unfolding Kept
  Kept-trans s t u h k v = Restores-trans b (h v) (k (h v).valid)

  pub Kept-IsValid : (s t : StateDb) → Kept s t → IsValid s → IsValid t
  unfolding Kept
  Kept-IsValid s t h v = (h v).valid

  pub Kept-if : (t : Bool) (s a c : StateDb) → Kept s a → Kept s c → Kept s (if t then a else c)
  Kept-if true s a c h k = h
  Kept-if false s a c h k = k

  pub Kept-if_pair :
      {A : Type 0} (t : Bool) (s : StateDb) (r q : A × StateDb)
      → Kept s r.1
      → Kept s q.1
      → Kept s (if t then r else q).1
  Kept-if_pair true s r q h k = h
  Kept-if_pair false s r q h k = k

  from_some : StateDb → Option StateDb → StateDb
  from_some d none = d
  from_some d (some x) = x

  Answers-Kept :
      (s t : StateDb) (r : Option StateDb) → (IsValid s → Answers b s r) → r ≡ some t → Kept s t
  unfolding Kept from_some
  Answers-Kept s t r h e v =
      subst (Restores b s) (ap (from_some s) (sym (h v).returns ∙ e)) (h v).restores

  -- A method of the interface that returns.
  pub step-Kept : (o : Op) (s t : StateDb) → step b o s ≡ some t → Kept s t
  step-Kept o s t = Answers-Kept s t (step b o s) (step-Answers b o s)

  -- The end of a scope that fails: the snapshot is found again, and every query has the answer that it
  -- had before the scope.
  pub Unchanged : StateDb → StateDb → Type 0
  Unchanged s u = (u.journal ≡ s.journal) × SameCoreAnswers b s u

  abbrev pub Restored : StateDb → Option StateDb → Type 0
  Restored s r = (u : StateDb) × (r ≡ some u) × Unchanged s u

  pub Unchanged-refl : (s : StateDb) → Unchanged s s
  unfolding Unchanged
  Unchanged-refl s = (refl, Agree-SameCoreAnswers b s s (Agree-refl b s))

  pub Unchanged-trans : (s t u : StateDb) → Unchanged s t → Unchanged t u → Unchanged s u
  unfolding Unchanged
  Unchanged-trans s t u (j, a) (k, c) = (
    k ∙ j,
    record {
      balance = λ x. a.balance x ∙ c.balance x;
      nonce = λ x. a.nonce x ∙ c.nonce x;
      code = λ x. a.code x ∙ c.code x;
      suicided = λ x. a.suicided x ∙ c.suicided x;
      storage = λ x k'. a.storage x k' ∙ c.storage x k';
      committed = λ x k'. a.committed x k' ∙ c.committed x k';
      transient = λ x k'. a.transient x k' ∙ c.transient x k';
      refund = a.refund ∙ c.refund;
      address_listed = λ x. a.address_listed x ∙ c.address_listed x;
      slot_listed = λ x k'. a.slot_listed x k' ∙ c.slot_listed x k';
    },
  )

  -- A query of a balance fills caches only.
  pub get_balance-Unchanged : (s : StateDb) (a : Address) → Unchanged s (Ops.get_balance b s a).1
  unfolding Unchanged Ops.get_balance
  get_balance-Unchanged s a =
      (refl, Agree-SameCoreAnswers b _ _ (Agree-put-Same b s a _ (balance_of-Same b (object s a))))

  pub revert-Restored :
      (s t : StateDb) → IsValid s → Kept s t → Restored s (revert_to_snapshot (snapshot s) t)
  unfolding Kept Unchanged
  revert-Restored s t v h =
      let r = h v in
      (
        record r.undo.back { journal = s.journal },
        revert_to_snapshot-Undo b s t r.undo,
        (refl, Agree-SameCoreAnswers b _ _ (Agree-journal b s r.undo.back r.undo.agree)),
      )

  pub revert-Kept :
      (s t u : StateDb) → Kept s t → revert_to_snapshot (snapshot s) t ≡ some u → Kept s u
  unfolding Kept end_scope
  revert-Kept s t u h e =
      Answers-Kept s u (revert_to_snapshot (snapshot s) t)
        (λ v. end_scope-Answers b s t true v (h v)) e
