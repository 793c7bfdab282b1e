-- ===== src/State/Db/Agree.antt =====
-- When two states answer alike, and the entries of the journal as functions that keep to it.
use cardinal_evm.Prelude.{◌==◌, ◌≡◌, refl, ap, ◌∙◌, Bool, true, false, if◌then◌else◌}
use cardinal_evm.Prelude.{Option, none, some, List, [], ◌∷◌, ◌++◌, insert, delete, ℤ, ◌>>=◌}
use cardinal_evm.Prelude.{inl, inr, Bool-cases, subst, fun_ext, ◌+ℤ◌, ◌-ℤ◌}
use cardinal_evm.State.Account.{Address, Hash, Backend}
use cardinal_evm.State.AccessList
use cardinal_evm.State.Object.{StateObject, Storage, or_zero}
use cardinal_evm.State.Object.Change.{Revert}
use cardinal_evm.State.Object.Views.{Same, Same-refl, Same-trans, Same-set_balance_delta}
use cardinal_evm.State.Object.Views.{Same-set_nonce, Same-set_fake_balance, Same-set_suicided}
use cardinal_evm.State.Object.Views.{Same-set_dirty, Same-set_code}
use cardinal_evm.State.Db.{StateDb, object, put, move_delta, put_transient_at, revert}
use cardinal_evm.State.Db.{revert_entries}

abbrev pub transient_value : Option Storage → Hash → Hash
transient_value none slot = 0
transient_value (some m) slot = or_zero (m slot)

abbrev pub present : Option Storage → Bool
present none = false
present (some m) = true

-- What `put` leaves at an address.
pub object-put :
    (s : StateDb) (a c : Address) (o : StateObject)
    → object (put s a o) c ≡ (if a == c then o else object s c)
object-put s a c o = elim (Bool-cases (a == c)) [
  | inl same ↦ simp same refl
  | inr other ↦ simp other refl
]

module _ (b : Backend) where
  pub record Agree (s t : StateDb) : Type 0 where
    pub object_at : (a : Address) → Same b (object s a) (object t a)
    pub refund : s.refund ≡ t.refund
    pub access_list : s.access_list ≡ t.access_list
    pub alcalc : s.alcalc ≡ t.alcalc
    pub transient :
        (a : Address) (slot : Hash)
        → transient_value (s.transient a) slot ≡ transient_value (t.transient a) slot
    pub kept : (a : Address) → present (s.transient a) ≡ true → present (t.transient a) ≡ true

  pub Agree-refl : (s : StateDb) → Agree s s
  Agree-refl s = record {
    object_at = λ a. Same-refl b (object s a);
    refund = refl;
    access_list = refl;
    alcalc = refl;
    transient = λ _ _. refl;
    kept = λ a h. h;
  }

  pub Agree-trans : {s t u : StateDb} → Agree s t → Agree t u → Agree s u
  Agree-trans h k = record {
    object_at = λ a. Same-trans b (h.object_at a) (k.object_at a);
    refund = h.refund ∙ k.refund;
    access_list = h.access_list ∙ k.access_list;
    alcalc = h.alcalc ∙ k.alcalc;
    transient = λ a slot. h.transient a slot ∙ k.transient a slot;
    kept = λ a p. k.kept a (h.kept a p);
  }

  pub Agree-put :
      {s t : StateDb} (a : Address) (o p : StateObject)
      → Agree s t
      → Same b o p
      → Agree (put s a o) (put t a p)
  Agree-put {s} {t} a o p h k = record {
    object_at = λ c.
        rw (object-put s a c o, object-put t a c p)
          (elim (Bool-cases (a == c)) [
            | inl same ↦ simp same k
            | inr other ↦ simp other (h.object_at c)
          ]);
    refund = h.refund;
    access_list = h.access_list;
    alcalc = h.alcalc;
    transient = h.transient;
    kept = h.kept;
  }

  -- Where the first run answers, the second answers alike.
  abbrev pub Follows : Option StateDb → Option StateDb → Type 0
  Follows none r = Unit {0}
  Follows (some s) r = (out : StateDb) × (r ≡ some out) × Agree s out

  move_delta-Agree :
      (s t : StateDb) (a : Address) (f : ℤ → ℤ) (x : Option ℤ)
      → Agree s t
      → Follows (move_delta s a f x) (move_delta t a f x)
  unfolding move_delta
  move_delta-Agree s t a f none h = tt
  move_delta-Agree s t a f (some d) h =
      (_, refl, Agree-put a _ _ h (Same-set_balance_delta b (some (f d)) (h.object_at a)))

  move-Agree :
      (s t : StateDb) (a : Address) (f : ℤ → ℤ)
      → Agree s t
      → Follows
          (move_delta s a f (object s a).balance_delta)
          (move_delta t a f (object t a).balance_delta)
  move-Agree s t a f h =
      subst (λ y. Follows (move_delta s a f (object s a).balance_delta) (move_delta t a f y))
        ((h.object_at a).balance_delta) (move_delta-Agree s t a f (object s a).balance_delta h)

  transient_entry :
      (a c : Address) (m n : Storage) (slot j old : Hash) (x y : Option Storage)
      → ((k : Hash) → transient_value (some m) k ≡ transient_value (some n) k)
      → transient_value x j ≡ transient_value y j
      → transient_value (if a == c then some (insert m slot old) else x) j
        ≡ transient_value (if a == c then some (insert n slot old) else y) j
  transient_entry a c m n slot j old x y h k = elim (Bool-cases (a == c)) [
    | inl same ↦
        rw same
          (elim (Bool-cases (slot == j)) [ inl here ↦ rw here refl | inr there ↦ rw there (h j) ])
    | inr other ↦ rw other k
  ]

  kept_entry :
      (a c : Address) (m n : Storage) (x y : Option Storage)
      → (present x ≡ true → present y ≡ true)
      → present (if a == c then some m else x) ≡ true
      → present (if a == c then some n else y) ≡ true
  kept_entry a c m n x y h = elim (Bool-cases (a == c)) [
    | inl same ↦ rw same (λ p. refl)
    | inr other ↦ rw other h
  ]

  put_transient-Agree :
      (s t : StateDb) (a : Address) (slot old : Hash) (x y : Option Storage)
      → s.transient a ≡ x
      → t.transient a ≡ y
      → Agree s t
      → Follows (put_transient_at s a slot old x) (put_transient_at t a slot old y)
  unfolding put_transient_at
  put_transient-Agree s t a slot old none y hx hy h = tt
  put_transient-Agree s t a slot old (some m) none hx hy h = cc (rw hy at (h.kept a (rw hx refl)))
  put_transient-Agree s t a slot old (some m) (some n) hx hy h = (
    record t { transient = insert t.transient a (insert n slot old) },
    refl,
    record {
      object_at = h.object_at;
      refund = h.refund;
      access_list = h.access_list;
      alcalc = h.alcalc;
      transient = λ c j.
          transient_entry a c m n slot j old (s.transient c) (t.transient c)
            (λ k. rw (hx, hy) at (h.transient a k)) (h.transient c j);
      kept = λ c. kept_entry a c _ _ (s.transient c) (t.transient c) (h.kept c);
    },
  )

  with_list :
      (s t : StateDb) (x : Option AccessList.AccessList)
      → Agree s t
      → Follows
          (x >>= λ al. some (record s { access_list = al }))
          (x >>= λ al. some (record t { access_list = al }))
  with_list s t none h = tt
  with_list s t (some al) h = (
    record t { access_list = al },
    refl,
    record {
      object_at = h.object_at;
      refund = h.refund;
      access_list = refl;
      alcalc = h.alcalc;
      transient = h.transient;
      kept = h.kept;
    },
  )

  -- An entry of the journal does the same to states that agree.
  pub revert-Agree : (e : Revert) (s t : StateDb) → Agree s t → Follows (revert e s) (revert e t)
  unfolding revert
  revert-Agree (Revert.put_object a o) s t h = (_, refl, Agree-put a o o h (Same-refl b o))
  revert-Agree (Revert.clear_delta a) s t h =
      (_, refl, Agree-put a _ _ h (Same-set_balance_delta b none (h.object_at a)))
  revert-Agree (Revert.add_delta a x) s t h = move-Agree s t a (λ d. d +ℤ x) h
  revert-Agree (Revert.sub_delta a x) s t h = move-Agree s t a (λ d. d -ℤ x) h
  revert-Agree (Revert.put_fake_balance a old) s t h =
      (_, refl, Agree-put a _ _ h (Same-set_fake_balance b old (h.object_at a)))
  revert-Agree (Revert.put_nonce a old) s t h =
      (_, refl, Agree-put a _ _ h (Same-set_nonce b old (h.object_at a)))
  revert-Agree (Revert.put_code a old) s t h =
      (_, refl, Agree-put a _ _ h (Same-set_code b old (h.object_at a)))
  revert-Agree (Revert.put_dirty a slot old) s t h =
      (_, refl, Agree-put a _ _ h (Same-set_dirty b (λ d. insert d slot old) (h.object_at a)))
  revert-Agree (Revert.drop_dirty a slot) s t h =
      (_, refl, Agree-put a _ _ h (Same-set_dirty b (λ d. delete d slot) (h.object_at a)))
  revert-Agree (Revert.put_storage a old) s t h =
      (_, refl, Agree-put a _ _ h (Same-set_dirty b (λ d. old) (h.object_at a)))
  revert-Agree (Revert.clear_suicided a) s t h =
      (_, refl, Agree-put a _ _ h (Same-set_suicided b false (h.object_at a)))
  revert-Agree (Revert.put_refund old) s t h = (
    record t { refund = old },
    refl,
    record {
      object_at = h.object_at;
      refund = refl;
      access_list = h.access_list;
      alcalc = h.alcalc;
      transient = h.transient;
      kept = h.kept;
    },
  )
  revert-Agree (Revert.put_transient a slot old) s t h =
      put_transient-Agree s t a slot old (s.transient a) (t.transient a) refl refl h
  revert-Agree (Revert.drop_address a) s t h =
      rw (← h.access_list) (with_list s t (some (AccessList.delete_address s.access_list a)) h)
  revert-Agree (Revert.drop_slot a slot) s t h =
      rw (← h.access_list) (with_list s t (AccessList.delete_slot s.access_list a slot) h)

  Follows-bind :
      (x y : Option StateDb) (f g : StateDb → Option StateDb)
      → ((s t : StateDb) → Agree s t → Follows (f s) (g t))
      → Follows x y
      → Follows (x >>= f) (y >>= g)
  Follows-bind none y f g h k = tt
  Follows-bind (some s) y f g h (t, e, k) = rw e (h s t k)

  pub revert_entries-Agree :
      (es : List Revert) (s t : StateDb)
      → Agree s t
      → Follows (revert_entries es s) (revert_entries es t)
  unfolding revert_entries
  revert_entries-Agree [] s t h = (t, refl, h)
  revert_entries-Agree (e ∷ es) s t h =
      Follows-bind _ _ _ _ (revert_entries-Agree es) (revert-Agree e s t h)

>>=-assoc :
    (o : Option StateDb) (f g : StateDb → Option StateDb)
    → (o >>= λ s. f s >>= g) ≡ ((o >>= f) >>= g)
>>=-assoc none f g = refl
>>=-assoc (some s) f g = refl

pub revert_entries-append :
    (xs ys : List Revert) (s : StateDb)
    → revert_entries (xs ++ ys) s ≡ (revert_entries xs s >>= revert_entries ys)
unfolding revert_entries
revert_entries-append [] ys s = refl
revert_entries-append (x ∷ xs) ys s =
    ap (λ k. revert x s >>= k) (fun_ext (revert_entries-append xs ys))
    ∙ >>=-assoc (revert x s) (revert_entries xs) (revert_entries ys)
