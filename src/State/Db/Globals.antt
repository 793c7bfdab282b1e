-- ===== src/State/Db/Globals.antt =====
-- The calls that change more than one field of one object: CreateAccount, self-destruction, the
-- refund counter, transient storage and the access list.
use cardinal_evm.Prelude.{
  ℕ, ◌==◌, ◌≡◌, refl, sym, ap, ◌∙◌, arith, Bool, true, false, not, ◌&&◌, ◌||◌,
}
use cardinal_evm.Prelude.{Option, none, some, List, [], ◌∷◌, insert, if◌then◌else◌, ◌>>=◌}
use cardinal_evm.Prelude.{inl, inr, Bool-cases, ℤ, pos, Map}
use cardinal_evm.State.Account.{Address, Hash, Backend}
use cardinal_evm.State.AccessList
use cardinal_evm.State.AccessList.Laws
use cardinal_evm.State.Object
use cardinal_evm.State.Object.{StateObject, Storage, new_object, or_zero}
use cardinal_evm.State.Object.Load
use cardinal_evm.State.Object.Change.{Revert}
use cardinal_evm.State.Object.Views.{Same, Same-refl}
use cardinal_evm.State.Object.Caches
use cardinal_evm.State.Db.{StateDb, object, put, push, revert, revert_entries}
use cardinal_evm.State.Db.{put_transient_at}
use cardinal_evm.State.Db.Agree.{Agree, transient_value, present}
use cardinal_evm.State.Db.Undo.{IsValid, Undo-push, Undo-of_Agree}
use cardinal_evm.State.Db.Undo.{Agree-IsValid}
use cardinal_evm.State.Db.Restore.{Restores, Restores-read, Restores-write, Restores-if}
use cardinal_evm.State.Db.Restore.{on_object-back}
use cardinal_evm.State.Db.Ops
use mathlib.Core.Option.{some-injective}

bind-some {ℓ} : {A : Type ℓ} (x : Option A) → (x >>= λ y. some y) ≡ x
bind-some none = refl
bind-some (some y) = refl

module _ (b : Backend) where
  refund-Restores :
      (s : StateDb) (n : ℕ)
      → IsValid s
      → Restores b s (push (record s { refund = n }) (Revert.put_refund s.refund))
  unfolding revert
  refund-Restores s n v = record {
    undo =
        Undo-push b s (record s { refund = n }) (Revert.put_refund s.refund) _ refl refl
          (record {
            object_at = λ a. Same-refl b (object s a);
            refund = refl;
            access_list = refl;
            alcalc = refl;
            transient = λ _ _. refl;
            kept = λ a h. h;
          });
    valid = record { keyed = v.keyed; access = v.access };
  }

  pub add_refund-Restores : (s : StateDb) (n : ℕ) → IsValid s → Restores b s (Ops.add_refund s n)
  unfolding Ops.add_refund
  add_refund-Restores s n v = refund-Restores s _ v

  pub sub_refund-Restores : (s : StateDb) (n : ℕ) → IsValid s → Restores b s (Ops.sub_refund s n)
  unfolding Ops.sub_refund
  sub_refund-Restores s n v = refund-Restores s _ v

  live_of_or : (x y : Bool) → (x || y) ≡ false → x ≡ false
  live_of_or x y h = ground arith

  suicide_with-Restores :
      (s : StateDb) (a : Address) (test : Bool)
      → ((object s a).suicided || (object s a).deleted) ≡ test
      → IsValid s
      → Restores b s
          (Ops.suicide_with s a (
            if test
            then none
            else some (
              Revert.clear_suicided (object s a).address,
              record (object s a) { suicided = true },
            ))).1
  unfolding Ops.suicide_with revert
  suicide_with-Restores s a true h v =
      Restores-read b {A = Unit {0}} (λ o. (tt, o)) s a (λ o. Same-refl b o) v
  suicide_with-Restores s a false h v =
      let o = object s a in
      let live = live_of_or o.suicided o.deleted h in
      Restores-write b s a (record o { suicided = true }) o _ v (v.keyed a) (Same-refl b o)
        (on_object-back b s a o.address _ o _ (λ q. record q { suicided = false }) (v.keyed a)
          (λ i. record o { suicided = sym live i }))

  pub suicide-Restores : (s : StateDb) (a : Address) → IsValid s → Restores b s (Ops.suicide s a).1
  unfolding Ops.suicide
  suicide-Restores s a v = suicide_with-Restores s a _ refl v

  pub self_destruct_6780-Restores :
      (s : StateDb) (a : Address) → IsValid s → Restores b s (Ops.self_destruct_6780 s a)
  unfolding Ops.self_destruct_6780
  self_destruct_6780-Restores s a v =
      Restores-if b s (object s a).created (Ops.suicide s a).1 _ (suicide-Restores s a v)
        (Restores-read b {A = Unit {0}} (λ o. (tt, o)) s a (λ o. Same-refl b o) v)

  transient_back :
      (a c : Address) (slot j : Hash) (v : Hash) (m : Map Storage)
      → let n = Ops.transient_or_new (m a) in
        transient_value (m c) j
        ≡ transient_value
            (if a == c
              then some (insert (insert n slot v) slot (or_zero (n slot)))
              else insert m a (insert n slot v) c)
            j
  unfolding Ops.transient_or_new
  transient_back a c slot j v m = elim (Bool-cases (a == c)) [
    | inl same ↦ let e : a ≡ c = ground arith in rw (same, e) (go (m c))
    | inr other ↦ rw other refl
  ]
    where
      go :
          (x : Option Storage)
          → transient_value x j
            ≡ or_zero (
                insert
                  (insert (Ops.transient_or_new x) slot v)
                  slot
                  (or_zero (Ops.transient_or_new x slot))
                  j)
      go none = ground arith
      go (some n) = ground arith

  insert_self : (m : Map Storage) (k : ℕ) (v : Storage) → insert m k v k ≡ some v
  insert_self m k v = ground arith

  kept_back :
      (test : Bool) (m n : Storage) (x : Option Storage)
      → present x ≡ true
      → present (if test then some m else (if test then some n else x)) ≡ true
  kept_back true m n x h = refl
  kept_back false m n x h = h

  pub set_transient_state-Restores :
      (s : StateDb) (a : Address) (slot value : Hash)
      → IsValid s
      → Restores b s (Ops.set_transient_state s a slot value)
  unfolding Ops.set_transient_state revert put_transient_at
  set_transient_state-Restores s a slot value v =
      let n = Ops.transient_or_new (s.transient a) in
      let m = insert n slot value in
      let e = Revert.put_transient a slot (or_zero (n slot)) in
      record {
        undo =
            Undo-push b s (record s { transient = insert s.transient a m }) e
              (record (push (record s { transient = insert s.transient a m }) e) {
                transient = insert (insert s.transient a m) a (insert m slot (or_zero (n slot)));
              })
              refl
              (ap
                (put_transient_at (push (record s { transient = insert s.transient a m }) e) a slot
                  (or_zero (n slot)))
                (insert_self s.transient a m))
              (record {
                object_at = λ c. Same-refl b (object s c);
                refund = refl;
                access_list = refl;
                alcalc = refl;
                transient = λ c j. transient_back a c slot j value s.transient;
                kept = λ c h. kept_back (a == c) _ _ (s.transient c) h;
              });
        valid = record { keyed = v.keyed; access = v.access };
      }

  -- CreateAccount puts the loaded object back, which agrees with the one before.
  create_with :
      (s : StateDb) (a : Address) (prev' o : StateObject)
      → o.address ≡ a
      → Same b (object s a) prev'
      → IsValid s
      → Restores b s (push (put s a o) (Revert.put_object a prev'))
  unfolding revert
  create_with s a prev' o keyed same v = Restores-write b s a o prev' _ v keyed same refl

  created-address :
      (a : Address) (x : ℤ) (carried : Bool) → (Ops.created_object b a x carried).address ≡ a
  unfolding Ops.created_object
  created-address a x true = refl
  created-address a x false = refl

  pub create_account-Restores :
      (s : StateDb) (a : Address) → IsValid s → Restores b s (Ops.create_account b s a)
  unfolding Ops.create_account
  create_account-Restores s a v =
      let prev = object s a in
      let prev' = (Load.load_account b prev).1 in
      Restores-if b s (not prev.deleted && not prev.suicided) _ _
        (create_with s a prev'
          (Ops.created_object b a (Object.get_balance prev') (Load.load_account b prev).0)
          (created-address a (Object.get_balance prev') (Load.load_account b prev).0)
          (Caches.load_account-Same b prev) v)
        (create_with s a prev (Ops.created_object b a (pos 0) false)
          (created-address a (pos 0) false) (Same-refl b prev) v)

  -- The access list alone changed.
  Agree-list :
      (s : StateDb) (js : List Revert) (al : AccessList.AccessList)
      → s.access_list ≡ al
      → Agree b s (record s { journal = js; access_list = al })
  Agree-list s js al e = record {
    object_at = λ a. Same-refl b (object s a);
    refund = refl;
    access_list = e;
    alcalc = refl;
    transient = λ _ _. refl;
    kept = λ a h. h;
  }

  IsValid-list :
      (s : StateDb) (js : List Revert) (al : AccessList.AccessList)
      → IsValid s
      → Laws.IsValid al
      → IsValid (record s { journal = js; access_list = al })
  IsValid-list s js al v w = record { keyed = v.keyed; access = w }

  -- No entry, the entry for the address, the entry for the slot, and both.
  list_kept :
      (s : StateDb) (al : AccessList.AccessList)
      → s.access_list ≡ al
      → IsValid s
      → Restores b s (record s { access_list = al })
  list_kept s al e v =
      let agree = Agree-list s s.journal al e in
      record { undo = Undo-of_Agree b refl agree; valid = Agree-IsValid b agree v }

  drop_address-Restores :
      (s : StateDb) (a : Address) (al : AccessList.AccessList)
      → AccessList.delete_address al a ≡ s.access_list
      → IsValid s
      → Laws.IsValid al
      → Restores b s (push (record s { access_list = al }) (Revert.drop_address a))
  unfolding revert
  drop_address-Restores s a al e v w =
      let js = Revert.drop_address a ∷ s.journal in
      record {
        undo =
            Undo-push b s (record s { access_list = al }) (Revert.drop_address a) _ refl refl
              (Agree-list s js (AccessList.delete_address al a) (sym e));
        valid = IsValid-list s js al v w;
      }

  drop_slot-Restores :
      (s : StateDb) (a : Address) (slot : Hash) (al : AccessList.AccessList)
      → AccessList.delete_slot al a slot ≡ some s.access_list
      → IsValid s
      → Laws.IsValid al
      → Restores b s (push (record s { access_list = al }) (Revert.drop_slot a slot))
  unfolding revert
  drop_slot-Restores s a slot al e v w =
      let js = Revert.drop_slot a slot ∷ s.journal in
      record {
        undo =
            Undo-push b s (record s { access_list = al }) (Revert.drop_slot a slot) _ refl
              (rw e refl) (Agree-list s js s.access_list refl);
        valid = IsValid-list s js al v w;
      }

  both-Restores :
      (s : StateDb) (a : Address) (slot : Hash) (al : AccessList.AccessList)
      (x : Option AccessList.AccessList)
      → AccessList.delete_slot al a slot ≡ x
      → (x >>= λ al'. some (AccessList.delete_address al' a)) ≡ some s.access_list
      → IsValid s
      → Laws.IsValid al
      → Restores b s (
          push
            (push (record s { access_list = al }) (Revert.drop_address a))
            (Revert.drop_slot a slot))
  unfolding revert revert_entries
  both-Restores s a slot al none h e v w = cc
  both-Restores s a slot al (some al') h e v w =
      let js = Revert.drop_slot a slot ∷ Revert.drop_address a ∷ s.journal in
      record {
        undo = record {
          entries = Revert.drop_slot a slot ∷ Revert.drop_address a ∷ [];
          back = record s { journal = js; access_list = AccessList.delete_address al' a };
          extends = refl;
          returns = rw h refl;
          agree = Agree-list s js (AccessList.delete_address al' a) (sym (some-injective _ _ e));
        };
        valid = IsValid-list s js al v w;
      }

  pub add_address-Restores :
      (s : StateDb) (a : Address) → IsValid s → Restores b s (Ops.add_address_to_access_list s a)
  unfolding Ops.add_address_to_access_list
  add_address-Restores s a v =
      let al = AccessList.add_address s.access_list a in
      elim (Bool-cases al.1) [
        | inl added ↦ rw added (
            drop_address-Restores s a al.0 (Laws.delete_address-add_address s.access_list a added) v
              (Laws.add_address-IsValid s.access_list a v.access))
        | inr old ↦
            rw old (list_kept s al.0 (sym (Laws.add_address_unchanged s.access_list a old)) v)
      ]

  flagged-Restores :
      (s : StateDb) (a : Address) (slot : Hash) (al : AccessList.AccessList) (f g : Bool)
      → Laws.undo_slot al a slot (f, g) ≡ some s.access_list
      → IsValid s
      → Laws.IsValid al
      → Restores b s (
          Ops.push_if g
            (Ops.push_if f (record s { access_list = al }) (Revert.drop_address a))
            (Revert.drop_slot a slot))
  unfolding Ops.push_if Laws.undo_slot
  flagged-Restores s a slot al true true e v w = both-Restores s a slot al _ refl e v w
  flagged-Restores s a slot al true false e v w =
      drop_address-Restores s a al (some-injective _ _ e) v w
  flagged-Restores s a slot al false true e v w =
      drop_slot-Restores s a slot al (sym (bind-some _) ∙ e) v w
  flagged-Restores s a slot al false false e v w = list_kept s al (sym (some-injective _ _ e)) v

  -- AddSlotToAccessList does not panic.
  pub add_slot-Restores :
      (s : StateDb) (a : Address) (slot : Hash)
      → IsValid s
      → (t : StateDb) × (Ops.add_slot_to_access_list s a slot ≡ some t) × Restores b s t
  unfolding Ops.add_slot_to_access_list
  add_slot-Restores s a slot v =
      let h = Laws.add_slot-Undoes s.access_list a slot v.access in
      (_, rw h.returns refl, flagged-Restores s a slot h.out h.flags.0 h.flags.1 h.undone v h.valid)
