-- ===== src/State/Db/Restore.antt =====
-- Every call of a stateDB method can be undone by the entries that it leaves on the journal.
use cardinal_evm.Prelude.{ℕ, ◌==◌, ◌≡◌, refl, sym, ap, ◌∙◌, arith, Bool, true, false}
use cardinal_evm.Prelude.{Option, none, some, insert, delete, if◌then◌else◌}
use cardinal_evm.Prelude.{inl, inr, Bool-cases, ℤ, pos, ◌+ℤ◌, ◌-ℤ◌}
use cardinal_evm.Prelude.{delete-insert, insert-insert, insert_present}
use cardinal_evm.Prelude.Int.{is_zero_ℤ, +ℤ_cancel, -ℤ_cancel}
use cardinal_evm.State.Account.{Address, Hash, Bytes, Backend}
use cardinal_evm.State.Object.{StateObject, Storage}
use cardinal_evm.State.Object.Change
use cardinal_evm.State.Object.Change.{Revert}
use cardinal_evm.State.Object.Views.{Same, Same-refl}
use cardinal_evm.State.Db.{StateDb, object, put, push, read, revert, on_object, move_delta}
use cardinal_evm.State.Db.Agree.{Agree, object-put}
use cardinal_evm.State.Db.Undo.{IsValid, Undo, Undo-push, Undo-of_Agree, Agree-put_back}
use cardinal_evm.State.Db.Undo.{Undo-refl, Agree-put-Same, Agree-IsValid}
use cardinal_evm.State.Db.Ops

module _ (b : Backend) where
  -- What every call promises.
  pub record Restores (s t : StateDb) : Type 0 where
    pub undo : Undo b s t
    pub valid : IsValid t

  pub Restores-refl : (s : StateDb) → IsValid s → Restores s s
  Restores-refl s v = record { undo = Undo-refl b s; valid = v }

  -- A method that fills caches.
  pub Restores-read :
      {A : Type 0} (f : StateObject → A × StateObject) (s : StateDb) (a : Address)
      → ((o : StateObject) → Same b o (f o).1)
      → IsValid s
      → Restores s (read f s a).1
  Restores-read f s a h v =
      let agree = Agree-put-Same b s a (f (object s a)).1 (h (object s a)) in
      record { undo = Undo-of_Agree b refl agree; valid = Agree-IsValid b agree v }

  pub keyed-put :
      (s : StateDb) (a : Address) (o : StateObject)
      → IsValid s
      → o.address ≡ a
      → IsValid (put s a o)
  keyed-put s a o v h = record {
    keyed = λ c. rw (object-put s a c o) (elim (Bool-cases (a == c)) [
      | inl same ↦ let e : a ≡ c = ground arith in rw same (h ∙ e)
      | inr other ↦ rw other (v.keyed c)
    ]);
    access = v.access;
  }

  pub IsValid-push : (s : StateDb) (e : Revert) → IsValid s → IsValid (push s e)
  IsValid-push s e v = record { keyed = v.keyed; access = v.access }

  -- A write whose entry puts back what it changed in the object.
  pub Restores-write :
      (s : StateDb) (a : Address) (o p : StateObject) (e : Revert)
      → IsValid s
      → o.address ≡ a
      → Same b (object s a) p
      → revert e (push (put s a o) e) ≡ some (put (push (put s a o) e) a p)
      → Restores s (push (put s a o) e)
  Restores-write s a o p e v h same returns = record {
    undo = Undo-push b s (put s a o) e _ refl returns (agree_push (Agree-put_back b s a o p same));
    valid = IsValid-push (put s a o) e (keyed-put s a o v h);
  }
    where
      agree_push : Agree b s (put (put s a o) a p) → Agree b s (put (push (put s a o) e) a p)
      agree_push g = record {
        object_at = g.object_at;
        refund = g.refund;
        access_list = g.access_list;
        alcalc = g.alcalc;
        transient = g.transient;
        kept = g.kept;
      }

  object-put_self : (s : StateDb) (a : Address) (o : StateObject) → object (put s a o) a ≡ o
  object-put_self s a o = object-put s a a o ∙ ground arith

  pub on_object-back :
      (s : StateDb) (a c : Address) (o p : StateObject) (e : Revert) (f : StateObject → StateObject)
      → c ≡ a
      → f o ≡ p
      → on_object (push (put s a o) e) c f ≡ some (put (push (put s a o) e) a p)
  unfolding on_object
  on_object-back s a c o p e f at_a back =
      rw at_a (ap (λ q. some (put (push (put s a o) e) a q)) (ap f (object-put_self s a o) ∙ back))

  move_delta-back :
      (s : StateDb) (a c : Address) (o p : StateObject) (e : Revert) (f : ℤ → ℤ) (d : ℤ)
      → c ≡ a
      → o.balance_delta ≡ some d
      → record o { balance_delta = some (f d) } ≡ p
      → move_delta (push (put s a o) e) c f (object (push (put s a o) e) c).balance_delta
        ≡ some (put (push (put s a o) e) a p)
  unfolding move_delta
  move_delta-back s a c o p e f d at_a has back =
      let x = push (put s a o) e in
      let here = object-put_self s a o in
      rw at_a (
        ap (move_delta x a f) (ap (λ (q : StateObject). q.balance_delta) here ∙ has)
        ∙ ap (λ (q : StateObject). some (put x a (record q { balance_delta = some (f d) }))) here
        ∙ ap (λ q. some (put x a q)) back)

  pub set_nonce-Restores :
      (s : StateDb) (a : Address) (n : ℕ) → IsValid s → Restores s (Ops.set_nonce s a n)
  unfolding Ops.set_nonce revert
  set_nonce-Restores s a n v =
      let o = object s a in
      Restores-write s a (record o { nonce = some n }) o _ v (v.keyed a) (Same-refl b o)
        (on_object-back s a o.address _ o _ (λ q. record q { nonce = o.nonce }) (v.keyed a) refl)

  pub set_balance-Restores :
      (s : StateDb) (a : Address) (x : ℤ) → IsValid s → Restores s (Ops.set_balance s a x)
  unfolding Ops.set_balance revert
  set_balance-Restores s a x v =
      let o = object s a in
      Restores-write s a (record o { fake_balance = some x }) o _ v (v.keyed a) (Same-refl b o)
        (on_object-back s a o.address _ o _ (λ q. record q { fake_balance = o.fake_balance })
          (v.keyed a) refl)

  pub set_storage-Restores :
      (s : StateDb) (a : Address) (m : Storage) → IsValid s → Restores s (Ops.set_storage s a m)
  unfolding Ops.set_storage revert
  set_storage-Restores s a m v =
      let o = object s a in
      Restores-write s a (record o { dirty = m }) o _ v (v.keyed a) (Same-refl b o)
        (on_object-back s a o.address _ o _ (λ q. record q { dirty = o.dirty }) (v.keyed a) refl)

  pub set_code-Restores :
      (s : StateDb) (a : Address) (code : Bytes) → IsValid s → Restores s (Ops.set_code b s a code)
  unfolding Ops.set_code revert
  set_code-Restores s a code v =
      let o = object s a in
      Restores-write s a _ o _ v (v.keyed a) (Same-refl b o)
        (on_object-back s a o.address _ o _ (λ q. record q { code = o.code }) (v.keyed a) refl)

  restore_delta :
      (o : StateObject) (x : Option ℤ) → o.balance_delta ≡ x → record o { balance_delta = x } ≡ o
  restore_delta o x h i = record o { balance_delta = sym h i }

  add_delta-Restores :
      (s : StateDb) (a : Address) (x : ℤ) (d : Option ℤ)
      → (object s a).balance_delta ≡ d
      → IsValid s
      → Restores s (let (e, o) = Change.add_delta_of (object s a) x d in push (put s a o) e)
  unfolding Change.add_delta_of revert
  add_delta-Restores s a x none h v =
      let o = object s a in
      Restores-write s a (record o { balance_delta = some x }) o _ v (v.keyed a) (Same-refl b o)
        (on_object-back s a o.address _ o _ (λ q. record q { balance_delta = none }) (v.keyed a)
          (restore_delta o none h))
  add_delta-Restores s a x (some d) h v =
      let o = object s a in
      Restores-write s a (record o { balance_delta = some (d +ℤ x) }) o _ v (v.keyed a)
        (Same-refl b o)
        (move_delta-back s a o.address _ o _ (λ y. y -ℤ x) (d +ℤ x) (v.keyed a) refl
          (rw (+ℤ_cancel d x) (restore_delta o (some d) h)))

  sub_delta-Restores :
      (s : StateDb) (a : Address) (x : ℤ) (d : Option ℤ)
      → (object s a).balance_delta ≡ d
      → IsValid s
      → Restores s (let (e, o) = Change.sub_delta_of (object s a) x d in push (put s a o) e)
  unfolding Change.sub_delta_of revert
  sub_delta-Restores s a x none h v =
      let o = object s a in
      Restores-write s a (record o { balance_delta = some (pos 0 -ℤ x) }) o _ v (v.keyed a)
        (Same-refl b o)
        (on_object-back s a o.address _ o _ (λ q. record q { balance_delta = none }) (v.keyed a)
          (restore_delta o none h))
  sub_delta-Restores s a x (some d) h v =
      let o = object s a in
      Restores-write s a (record o { balance_delta = some (d -ℤ x) }) o _ v (v.keyed a)
        (Same-refl b o)
        (move_delta-back s a o.address _ o _ (λ y. y +ℤ x) (d -ℤ x) (v.keyed a) refl
          (rw (-ℤ_cancel d x) (restore_delta o (some d) h)))

  pub Restores-if :
      (s : StateDb) (test : Bool) (t u : StateDb)
      → Restores s t
      → Restores s u
      → Restores s (if test then t else u)
  Restores-if s true t u h k = h
  Restores-if s false t u h k = k

  pub add_balance-Restores :
      (s : StateDb) (a : Address) (x : ℤ) → IsValid s → Restores s (Ops.add_balance s a x)
  unfolding Ops.add_balance
  add_balance-Restores s a x v =
      Restores-if s (is_zero_ℤ x) s _ (Restores-refl s v)
        (add_delta-Restores s a x (object s a).balance_delta refl v)

  pub sub_balance-Restores :
      (s : StateDb) (a : Address) (x : ℤ) → IsValid s → Restores s (Ops.sub_balance s a x)
  unfolding Ops.sub_balance
  sub_balance-Restores s a x v =
      Restores-if s (is_zero_ℤ x) s _ (Restores-refl s v)
        (sub_delta-Restores s a x (object s a).balance_delta refl v)

  set_state_entry :
      (s : StateDb) (a : Address) (slot value : Hash) (old : Option Hash)
      → (object s a).dirty slot ≡ old
      → IsValid s
      → Restores s (
          push
            (put s a (record (object s a) { dirty = insert (object s a).dirty slot value }))
            (Change.undo_write (object s a).address slot old))
  unfolding Change.undo_write revert
  set_state_entry s a slot value none h v =
      let o = object s a in
      Restores-write s a _ o _ v (v.keyed a) (Same-refl b o) (
        on_object-back s a o.address _ o _ (λ q. record q { dirty = delete q.dirty slot })
          (v.keyed a) (λ i. record o { dirty = delete-insert o.dirty slot value h i }))
  set_state_entry s a slot value (some old) h v =
      let o = object s a in
      Restores-write s a _ o _ v (v.keyed a) (Same-refl b o) (
        on_object-back s a o.address _ o _ (λ q. record q { dirty = insert q.dirty slot old })
          (v.keyed a)
          (λ i. record o {
            dirty = (insert-insert o.dirty slot value old ∙ insert_present o.dirty slot old h) i;
          }))

  pub set_state-Restores :
      (s : StateDb) (a : Address) (slot value : Hash)
      → IsValid s
      → Restores s (Ops.set_state b s a slot value)
  unfolding Ops.set_state
  set_state-Restores s a slot value v = set_state_entry s a (Ops.slot_key b slot) value _ refl v
