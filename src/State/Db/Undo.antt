-- ===== src/State/Db/Undo.antt =====
-- A run of the state can be undone when the entries that it added to the journal lead back to a
-- state that agrees with the one before.
use cardinal_evm.Prelude.{◌+◌, ◌-◌, ◌==◌, ◌≡◌, refl, sym, ap, subst, ◌∙◌, arith, true}
use cardinal_evm.Prelude.{some, List, [], ◌∷◌, ◌++◌, length, length-append, take, drop}
use cardinal_evm.Prelude.{inl, inr, Bool-cases, leb}
use cardinal_evm.State.Account.{Address, Backend}
use cardinal_evm.State.AccessList.Laws
use cardinal_evm.State.Object.{StateObject}
use cardinal_evm.State.Object.Change.{Revert}
use cardinal_evm.State.Object.Views.{Same, Same-refl}
use cardinal_evm.State.Db.{StateDb, object, put, push, revert, revert_entries, revert_to_snapshot}
use cardinal_evm.State.Db.{cut_journal, snapshot}
use cardinal_evm.State.Db.Agree.{Agree, Agree-refl, Agree-trans, object-put}
use cardinal_evm.State.Db.Agree.{revert_entries-Agree, revert_entries-append}
use mathlib.Core.List.{append_assoc}

-- Each object stands under its own address, and the access list is sound.
pub record IsValid (s : StateDb) : Type 0 where
  pub keyed : (a : Address) → (object s a).address ≡ a
  pub access : Laws.IsValid s.access_list

take-append {ℓ} : {A : Type ℓ} (xs ys : List A) → take (length xs) (xs ++ ys) ≡ xs
take-append [] ys = refl
take-append (x ∷ xs) ys = ap (◌∷◌ x) (take-append xs ys)

drop-append {ℓ} : {A : Type ℓ} (xs ys : List A) → drop (length xs) (xs ++ ys) ≡ ys
drop-append [] ys = refl
drop-append (x ∷ xs) ys = drop-append xs ys

module _ (b : Backend) where
  pub record Undo (s t : StateDb) : Type 0 where
    pub entries : List Revert
    pub back : StateDb
    pub extends : t.journal ≡ entries ++ s.journal
    pub returns : revert_entries entries t ≡ some back
    pub agree : Agree b s back

  pub Agree-IsValid : {s t : StateDb} → Agree b s t → IsValid s → IsValid t
  Agree-IsValid {s} {t} h v = record {
    keyed = λ a. sym ((h.object_at a).address) ∙ v.keyed a;
    access = subst Laws.IsValid h.access_list v.access;
  }

  pub Undo-refl : (s : StateDb) → Undo s s
  unfolding revert_entries
  Undo-refl s = record {
    entries = [];
    back = s;
    extends = refl;
    returns = refl;
    agree = Agree-refl b s;
  }

  -- A state that agrees, with the same journal: what a method that fills caches leaves.
  pub Undo-of_Agree : {s t : StateDb} → t.journal ≡ s.journal → Agree b s t → Undo s t
  unfolding revert_entries
  Undo-of_Agree {s} {t} e h = record {
    entries = [];
    back = t;
    extends = e;
    returns = refl;
    agree = h;
  }

  pub Undo-trans : {s t u : StateDb} → Undo s t → Undo t u → Undo s u
  Undo-trans {s} {t} {u} h k =
      let (out, e, agree) = follow in
      record {
        entries = k.entries ++ h.entries;
        back = out;
        extends =
            k.extends
            ∙ ap (◌++◌ k.entries) h.extends
            ∙ sym (append_assoc k.entries h.entries s.journal);
        returns = revert_entries-append k.entries h.entries u ∙ rw k.returns e;
        agree = Agree-trans b h.agree agree;
      }
    where
      follow : (out : StateDb) × (revert_entries h.entries k.back ≡ some out) × Agree b h.back out
      follow = rw h.returns at (revert_entries-Agree b h.entries t k.back k.agree)

  -- The entries lead to the snapshot that was taken before them.
  pub revert_to_snapshot-Undo :
      (s t : StateDb) (h : Undo s t)
      → revert_to_snapshot (snapshot s) t ≡ some (record h.back { journal = s.journal })
  unfolding revert_to_snapshot snapshot cut_journal
  revert_to_snapshot-Undo s t h = rw (within, added, took, h.returns, dropped) refl
    where
      longer : length t.journal ≡ length h.entries + length s.journal
      longer = ap length h.extends ∙ length-append h.entries s.journal

      within : leb (length s.journal) (length t.journal) ≡ true
      within = ground (arith, longer)

      added : length t.journal - length s.journal ≡ length h.entries
      added = omega (arith, longer)

      took : take (length h.entries) t.journal ≡ h.entries
      took = ap (take (length h.entries)) h.extends ∙ take-append h.entries s.journal

      dropped : drop (length h.entries) t.journal ≡ s.journal
      dropped = ap (drop (length h.entries)) h.extends ∙ drop-append h.entries s.journal

  -- One entry, run on the state that it was pushed on, leads back.
  pub Undo-push :
      (s t : StateDb) (e : Revert) (u : StateDb)
      → t.journal ≡ s.journal
      → revert e (push t e) ≡ some u
      → Agree b s u
      → Undo s (push t e)
  unfolding revert_entries
  Undo-push s t e u same returns agree = record {
    entries = e ∷ [];
    back = u;
    extends = ap (◌∷◌ e) same;
    returns = rw returns refl;
    agree = agree;
  }

  -- An object that was replaced and put back.
  pub Agree-put_back :
      (s : StateDb) (a : Address) (o p : StateObject)
      → Same b (object s a) p
      → Agree b s (put (put s a o) a p)
  Agree-put_back s a o p h = record {
    object_at = λ c. elim (Bool-cases (a == c)) [
      | inl same ↦
          let e : a ≡ c = ground arith in rw (object-put (put s a o) a c p, same) (rw (← e) h)
      | inr other ↦
          rw (object-put (put s a o) a c p, object-put s a c o, other) (Same-refl b (object s c))
    ];
    refund = refl;
    access_list = refl;
    alcalc = refl;
    transient = λ _ _. refl;
    kept = λ _ h. h;
  }

  pub Agree-put-Same :
      (s : StateDb) (a : Address) (p : StateObject) → Same b (object s a) p → Agree b s (put s a p)
  Agree-put-Same s a p h = record {
    object_at = λ c. rw (object-put s a c p) (elim (Bool-cases (a == c)) [
      | inl same ↦ let e : a ≡ c = ground arith in rw same (rw (← e) h)
      | inr other ↦ rw other (Same-refl b (object s c))
    ]);
    refund = refl;
    access_list = refl;
    alcalc = refl;
    transient = λ _ _. refl;
    kept = λ _ h. h;
  }
