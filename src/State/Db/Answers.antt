-- ===== src/State/Db/Answers.antt =====
-- What the getters of a stateDB answer, in terms of the object behind them; states that agree answer
-- alike.
use cardinal_evm.Prelude.{◌≡◌, refl, sym, ◌∙◌, Bool, true, false, if◌then◌else◌, ◌||◌}
use cardinal_evm.Prelude.{Option, none, some, ℤ, pos, ◌+ℤ◌, Bool-cases, inl, inr}
use cardinal_evm.State.Account.{Address, Hash, Account, Backend}
use cardinal_evm.State.AccessList
use cardinal_evm.State.Object
use cardinal_evm.State.Object.{StateObject, or_zero, or_zero_ℤ}
use cardinal_evm.State.Object.Load
use cardinal_evm.State.Object.Caches
use cardinal_evm.State.Object.Caches.{nonce_at, state_at}
use cardinal_evm.State.Object.Views.{Same, account_view, committed_view, is_some}
use cardinal_evm.State.Db.{StateDb, object}
use cardinal_evm.State.Db.Agree.{Agree, transient_value}
use cardinal_evm.State.Db.Ops

module _ (b : Backend) where
  -- Each getter of the interface, but GetCodeHash, Exist and Empty. Those three look at the account that
  -- an object has cached, and reverting leaves a loaded account in its cache: GetCodeHash of an account
  -- with changed code answers the stored hash from then on.
  pub record SameCoreAnswers (s t : StateDb) : Type 0 where
    pub balance : (a : Address) → (Ops.get_balance b s a).0 ≡ (Ops.get_balance b t a).0
    pub nonce : (a : Address) → (Ops.get_nonce b s a).0 ≡ (Ops.get_nonce b t a).0
    pub code : (a : Address) → (Ops.get_code b s a).0 ≡ (Ops.get_code b t a).0
    pub suicided : (a : Address) → (Ops.has_suicided s a).0 ≡ (Ops.has_suicided t a).0
    pub storage :
        (a : Address) (slot : Hash) → (Ops.get_state b s a slot).0 ≡ (Ops.get_state b t a slot).0
    pub committed :
        (a : Address) (slot : Hash)
        → (Ops.get_committed_state b s a slot).0 ≡ (Ops.get_committed_state b t a slot).0
    pub transient :
        (a : Address) (slot : Hash)
        → Ops.get_transient_state s a slot ≡ Ops.get_transient_state t a slot
    pub refund : s.refund ≡ t.refund
    pub address_listed :
        (a : Address) → Ops.address_in_access_list s a ≡ Ops.address_in_access_list t a
    pub slot_listed :
        (a : Address) (slot : Hash)
        → Ops.slot_in_access_list s a slot ≡ Ops.slot_in_access_list t a slot

  abbrev pub balance_at : Bool → Option ℤ → Option ℤ → Option Account → ℤ
  balance_at deleted delta fake none = pos 0
  balance_at deleted delta fake (some a) =
      if deleted
      then pos 0
      else let base : Option ℤ = elim fake [ some x ↦ some x | none ↦ a.balance ] in
        or_zero_ℤ delta +ℤ or_zero_ℤ base

  abbrev pub balance_view : StateObject → ℤ
  balance_view o = balance_at o.deleted o.balance_delta o.fake_balance (account_view b o)

  loaded_balance :
      (o p : StateObject) (x : Option Account)
      → p.balance_delta ≡ o.balance_delta
      → p.fake_balance ≡ o.fake_balance
      → p.account ≡ x
      → (if is_some b x then Object.get_balance p else pos 0)
        ≡ balance_at false o.balance_delta o.fake_balance x
  unfolding Object.get_balance Object.account_balance
  loaded_balance o p none hd hf ha = refl
  loaded_balance o p (some a) hd hf ha = λ i.
      let base : Option ℤ = elim (hf i) [
        | some x ↦ some x
        | none ↦ Object.account_balance (ha i)
      ] in
      or_zero_ℤ (hd i) +ℤ or_zero_ℤ base

  pub balance_of_lem : (o : StateObject) → (Ops.balance_of b o).0 ≡ balance_view o
  unfolding Ops.balance_of
  balance_of_lem o = elim (Bool-cases o.deleted) [
    | inl gone ↦ unfold Load.load_account in simp gone (gone_balance _)
    | inr live ↦
        let (h, k) = Caches.load_account_lem b o live in
        let same = Caches.load_account-Same b o in
        rw h (
          loaded_balance o (Load.load_account b o).1 (account_view b o) (sym same.balance_delta)
            (sym same.fake_balance) k
          ∙ simp live refl)
  ]
    where
      gone_balance : (x : Option Account) → pos 0 ≡ balance_at true o.balance_delta o.fake_balance x
      gone_balance none = refl
      gone_balance (some a) = refl

  balance_ext : {o p : StateObject} → Same b o p → balance_view o ≡ balance_view p
  balance_ext h i = balance_at (h.deleted i) (h.balance_delta i) (h.fake_balance i) (h.account i)

  nonce_ext :
      {o p : StateObject}
      → Same b o p
      → nonce_at b o.deleted o.nonce (account_view b o)
        ≡ nonce_at b p.deleted p.nonce (account_view b p)
  nonce_ext h i = nonce_at b (h.deleted i) (h.nonce i) (h.account i)

  state_ext :
      {o p : StateObject} (slot : Hash)
      → Same b o p
      → state_at b (o.dirty slot) (committed_view b o slot)
        ≡ state_at b (p.dirty slot) (committed_view b p slot)
  state_ext slot h i = state_at b (h.dirty i slot) (h.committed slot i)

  transient_lem :
      (s : StateDb) (a : Address) (slot : Hash)
      → Ops.get_transient_state s a slot ≡ transient_value (s.transient a) slot
  unfolding Ops.get_transient_state
  transient_lem s a slot = go (s.transient a)
    where
      go :
          (x : Option Object.Storage)
          → or_zero (Ops.transient_or_new x slot) ≡ transient_value x slot
      go none = refl
      go (some m) = refl

  pub Agree-SameCoreAnswers : (s t : StateDb) → Agree b s t → SameCoreAnswers s t
  unfolding Ops.get_balance Ops.get_nonce Ops.get_code Ops.has_suicided Ops.get_state
      Ops.get_committed_state Ops.address_in_access_list Ops.slot_in_access_list
  Agree-SameCoreAnswers s t h = record {
    balance = λ a.
        balance_of_lem (object s a)
        ∙ balance_ext (h.object_at a)
        ∙ sym (balance_of_lem (object t a));
    nonce = λ a.
        Caches.get_nonce_lem b (object s a)
        ∙ nonce_ext (h.object_at a)
        ∙ sym (Caches.get_nonce_lem b (object t a));
    code = λ a.
        Caches.get_code_lem b (object s a)
        ∙ (h.object_at a).code
        ∙ sym (Caches.get_code_lem b (object t a));
    suicided = λ a. (h.object_at a).suicided;
    storage = λ a slot.
        Caches.get_state_lem b (object s a) (Ops.slot_key b slot)
        ∙ state_ext (Ops.slot_key b slot) (h.object_at a)
        ∙ sym (Caches.get_state_lem b (object t a) (Ops.slot_key b slot));
    committed = λ a slot.
        Caches.get_committed_state_lem b (object s a) (Ops.slot_key b slot)
        ∙ (h.object_at a).committed (Ops.slot_key b slot)
        ∙ sym (Caches.get_committed_state_lem b (object t a) (Ops.slot_key b slot));
    transient =
        λ a slot. transient_lem s a slot ∙ h.transient a slot ∙ sym (transient_lem t a slot);
    refund = h.refund;
    address_listed = λ a i. h.alcalc i || AccessList.contains_address (h.access_list i) a;
    slot_listed = λ a slot i.
        if h.alcalc i then some (true, true) else AccessList.contains (h.access_list i) a slot;
  }
