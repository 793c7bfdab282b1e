-- ===== src/State/Object/Views.antt =====
-- When two state objects answer alike: they may differ in what the caches hold, and in nothing that
-- a method but getCodeHash and empty reads. The methods that fill caches keep to this.
use cardinal_evm.Prelude.{ℕ, ◌≡◌, refl, ap, ◌∙◌, Bool, true, false, if◌then◌else◌}
use cardinal_evm.Prelude.{Option, none, some, [], ℤ}
use cardinal_evm.State.Account.{Address, Hash, Bytes, Account, Backend, account_storage}
use cardinal_evm.State.Account.{stored_account}
use cardinal_evm.State.Object.{StateObject, CodeEntry, Storage}
use cardinal_evm.State.Object.Load.{entry_of, decode_slot}

module _ (b : Backend) where
  -- The account that a load finds or has found.
  abbrev pub resolve : Bool → Option Account → Address → Option Account
  resolve deleted (some a) address = some a
  resolve deleted none address = if deleted then none else stored_account b address

  abbrev pub is_some : Option Account → Bool
  is_some none = false
  is_some (some a) = true

  abbrev pub code_at : Bool → Option CodeEntry → Option Account → Bytes
  code_at deleted (some c) account = if deleted then [] else c.code
  code_at deleted none account = if deleted then [] else (entry_of b (is_some account) account).code

  abbrev pub stored_slot : Option Bytes → Hash
  stored_slot none = 0
  stored_slot (some bytes) = decode_slot b bytes

  abbrev pub committed_at : Address → Hash → Option Hash → Hash
  committed_at address slot (some v) = v
  committed_at address slot none = stored_slot (b.get (account_storage address slot))

  abbrev pub account_view : StateObject → Option Account
  account_view o = resolve o.deleted o.account o.address

  abbrev pub code_view : StateObject → Bytes
  code_view o = code_at o.deleted o.code (account_view o)

  abbrev pub committed_view : StateObject → Hash → Hash
  committed_view o slot = committed_at o.address slot (o.clean slot)

  pub record Same (o p : StateObject) : Type 0 where
    pub address : o.address ≡ p.address
    pub balance_delta : o.balance_delta ≡ p.balance_delta
    pub dirty : o.dirty ≡ p.dirty
    pub created : o.created ≡ p.created
    pub suicided : o.suicided ≡ p.suicided
    pub deleted : o.deleted ≡ p.deleted
    pub nonce : o.nonce ≡ p.nonce
    pub fake_balance : o.fake_balance ≡ p.fake_balance
    pub account : account_view o ≡ account_view p
    pub code : code_view o ≡ code_view p
    pub committed : (slot : Hash) → committed_view o slot ≡ committed_view p slot

  pub Same-refl : (o : StateObject) → Same o o
  Same-refl o = record {
    address = refl;
    balance_delta = refl;
    dirty = refl;
    created = refl;
    suicided = refl;
    deleted = refl;
    nonce = refl;
    fake_balance = refl;
    account = refl;
    code = refl;
    committed = λ _. refl;
  }

  pub Same-trans : {o p q : StateObject} → Same o p → Same p q → Same o q
  Same-trans h k = record {
    address = h.address ∙ k.address;
    balance_delta = h.balance_delta ∙ k.balance_delta;
    dirty = h.dirty ∙ k.dirty;
    created = h.created ∙ k.created;
    suicided = h.suicided ∙ k.suicided;
    deleted = h.deleted ∙ k.deleted;
    nonce = h.nonce ∙ k.nonce;
    fake_balance = h.fake_balance ∙ k.fake_balance;
    account = h.account ∙ k.account;
    code = h.code ∙ k.code;
    committed = λ slot. h.committed slot ∙ k.committed slot;
  }

  -- A field set to one value in both.
  pub Same-set_balance_delta :
      {o p : StateObject} (v : Option ℤ)
      → Same o p
      → Same (record o { balance_delta = v }) (record p { balance_delta = v })
  Same-set_balance_delta v h = record {
    address = h.address;
    balance_delta = refl;
    dirty = h.dirty;
    created = h.created;
    suicided = h.suicided;
    deleted = h.deleted;
    nonce = h.nonce;
    fake_balance = h.fake_balance;
    account = h.account;
    code = h.code;
    committed = h.committed;
  }

  pub Same-set_fake_balance :
      {o p : StateObject} (v : Option ℤ)
      → Same o p
      → Same (record o { fake_balance = v }) (record p { fake_balance = v })
  Same-set_fake_balance v h = record {
    address = h.address;
    balance_delta = h.balance_delta;
    dirty = h.dirty;
    created = h.created;
    suicided = h.suicided;
    deleted = h.deleted;
    nonce = h.nonce;
    fake_balance = refl;
    account = h.account;
    code = h.code;
    committed = h.committed;
  }

  pub Same-set_nonce :
      {o p : StateObject} (v : Option ℕ)
      → Same o p
      → Same (record o { nonce = v }) (record p { nonce = v })
  Same-set_nonce v h = record {
    address = h.address;
    balance_delta = h.balance_delta;
    dirty = h.dirty;
    created = h.created;
    suicided = h.suicided;
    deleted = h.deleted;
    nonce = refl;
    fake_balance = h.fake_balance;
    account = h.account;
    code = h.code;
    committed = h.committed;
  }

  pub Same-set_suicided :
      {o p : StateObject} (v : Bool)
      → Same o p
      → Same (record o { suicided = v }) (record p { suicided = v })
  Same-set_suicided v h = record {
    address = h.address;
    balance_delta = h.balance_delta;
    dirty = h.dirty;
    created = h.created;
    suicided = refl;
    deleted = h.deleted;
    nonce = h.nonce;
    fake_balance = h.fake_balance;
    account = h.account;
    code = h.code;
    committed = h.committed;
  }

  pub Same-set_dirty :
      {o p : StateObject} (f : Storage → Storage)
      → Same o p
      → Same (record o { dirty = f o.dirty }) (record p { dirty = f p.dirty })
  Same-set_dirty f h = record {
    address = h.address;
    balance_delta = h.balance_delta;
    dirty = ap f h.dirty;
    created = h.created;
    suicided = h.suicided;
    deleted = h.deleted;
    nonce = h.nonce;
    fake_balance = h.fake_balance;
    account = h.account;
    code = h.code;
    committed = h.committed;
  }

  code_at-ext :
      (d d' : Bool) (c : Option CodeEntry) (x y : Option Account)
      → d ≡ d'
      → x ≡ y
      → code_at d c x ≡ code_at d' c y
  code_at-ext d d' c x y e h i = code_at (e i) c (h i)

  pub Same-set_code :
      {o p : StateObject} (v : Option CodeEntry)
      → Same o p
      → Same (record o { code = v }) (record p { code = v })
  Same-set_code {o} {p} v h = record {
    address = h.address;
    balance_delta = h.balance_delta;
    dirty = h.dirty;
    created = h.created;
    suicided = h.suicided;
    deleted = h.deleted;
    nonce = h.nonce;
    fake_balance = h.fake_balance;
    account = h.account;
    code = code_at-ext o.deleted p.deleted v (account_view o) (account_view p) h.deleted h.account;
    committed = h.committed;
  }

  -- An object that differs in the caches alone.
  pub recached :
      (o : StateObject) (account : Option Account) (code : Option CodeEntry) (clean : Storage)
      → account_view o ≡ resolve o.deleted account o.address
      → code_view o ≡ code_at o.deleted code (resolve o.deleted account o.address)
      → ((slot : Hash) → committed_view o slot ≡ committed_at o.address slot (clean slot))
      → Same o (record o { account = account; code = code; clean = clean })
  recached o account code clean ha hc hs = record {
    address = refl;
    balance_delta = refl;
    dirty = refl;
    created = refl;
    suicided = refl;
    deleted = refl;
    nonce = refl;
    fake_balance = refl;
    account = ha;
    code = hc;
    committed = hs;
  }
