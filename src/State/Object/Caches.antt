-- ===== src/State/Object/Caches.antt =====
-- The methods of state_object.go that fill caches leave every answer as it was, and what they answer
-- is what the views say.
use cardinal_evm.Prelude.{ℕ, ◌==◌, ◌≡◌, refl, sym, ap, ◌∙◌, arith, Bool, true, false, if◌then◌else◌}
use cardinal_evm.Prelude.{Option, none, some, [], insert}
use cardinal_evm.Prelude.Int.{is_zero_ℤ}
use cardinal_evm.Prelude.{inl, inr, Bool-cases}
use cardinal_evm.State.Account.{Hash, Bytes, Account, Backend, account_storage}
use cardinal_evm.State.Account.{stored_account, empty_code}
use cardinal_evm.State.Object
use cardinal_evm.State.Object.{StateObject, CodeEntry, or_zero, or_zero_ℤ}
use cardinal_evm.State.Object.Load
use cardinal_evm.State.Object.Load.{load_account, load_if_nil, load_stored, load_code, fill_code}
use cardinal_evm.State.Object.Load.{
  entry_of, decode_slot, get_nonce, nonce_of, get_code, code_bytes,
}
use cardinal_evm.State.Object.Load.{hash_of_code, code_hash_of, get_code_hash, is_empty}
use cardinal_evm.State.Object.Load.{
  get_committed_state, committed_of, keep_found, get_state, state_of,
}
use cardinal_evm.State.Object.Views.{
  Same, Same-refl, Same-trans, recached, resolve, code_at, is_some,
}
use cardinal_evm.State.Object.Views.{
  committed_at, account_view, code_view, committed_view, stored_slot,
}

module _ (b : Backend) where
  load_stored-Same :
      (o : StateObject) (x : Option Account)
      → o.deleted ≡ false
      → o.account ≡ none
      → stored_account b o.address ≡ x
      → Same b o (load_stored b o x).1
  unfolding load_stored
  load_stored-Same o none live nil h = Same-refl b o
  load_stored-Same o (some a) live nil h =
      recached b o (some a) o.code o.clean found (ap (code_at b o.deleted o.code) found) (λ _. refl)
    where
      found : account_view b o ≡ some a
      found = rw (nil, live, h) refl

  load_if_nil-Same :
      (o : StateObject) (x : Option Account)
      → o.deleted ≡ false
      → o.account ≡ x
      → Same b o (load_if_nil b o x).1
  unfolding load_if_nil
  load_if_nil-Same o (some a) live h = Same-refl b o
  load_if_nil-Same o none live h = load_stored-Same o _ live h refl

  pub load_account-Same : (o : StateObject) → Same b o (load_account b o).1
  unfolding load_account
  load_account-Same o = elim (Bool-cases o.deleted) [
    | inl gone ↦ simp gone (Same-refl b o)
    | inr live ↦ simp live (load_if_nil-Same o o.account live refl)
  ]

  -- loadAccount answers whether there is an account, and leaves it in the object.
  load_stored_lem :
      (o : StateObject) (x : Option Account)
      → o.account ≡ none
      → ((load_stored b o x).0 ≡ is_some b x) × ((load_stored b o x).1.account ≡ x)
  unfolding load_stored
  load_stored_lem o none h = (refl, h)
  load_stored_lem o (some a) h = (refl, refl)

  load_if_nil_lem :
      (o : StateObject) (x : Option Account)
      → o.account ≡ x
      → ((load_if_nil b o x).0 ≡ is_some b (resolve b false x o.address))
        × ((load_if_nil b o x).1.account ≡ resolve b false x o.address)
  unfolding load_if_nil
  load_if_nil_lem o (some a) h = (refl, h)
  load_if_nil_lem o none h = load_stored_lem o _ h

  pub load_account_lem :
      (o : StateObject)
      → o.deleted ≡ false
      → ((load_account b o).0 ≡ is_some b (account_view b o))
        × ((load_account b o).1.account ≡ account_view b o)
  unfolding load_account
  load_account_lem o live = simp live (load_if_nil_lem o o.account refl)

  -- The entry that loadCode makes is the one that the view computes.
  entry_view :
      (o : StateObject)
      → o.deleted ≡ false
      → o.code ≡ none
      → (entry_of b (load_account b o).0 (load_account b o).1.account).code ≡ code_view b o
  entry_view o live nil = let (h, k) = load_account_lem o live in rw (h, k) (simp (nil, live))

  with_code :
      (o : StateObject) (c : CodeEntry)
      → o.deleted ≡ false
      → code_view b o ≡ c.code
      → Same b o (record o { code = some c })
  with_code o c live h =
      recached b o o.account (some c) o.clean refl (h ∙ simp live refl) (λ _. refl)

  fill_code-Same :
      (o : StateObject) (x : Option CodeEntry)
      → o.deleted ≡ false
      → o.code ≡ x
      → Same b o (fill_code b o x)
  unfolding fill_code
  fill_code-Same o (some c) live h = Same-refl b o
  fill_code-Same o none live h =
      let same = load_account-Same o in
      Same-trans b same (
        with_code (load_account b o).1 _ (sym same.deleted ∙ live)
          (sym same.code ∙ sym (entry_view o live h)))

  pub load_code-Same : (o : StateObject) → Same b o (load_code b o).1
  unfolding load_code
  load_code-Same o = elim (Bool-cases o.deleted) [
    | inl gone ↦ simp gone (Same-refl b o)
    | inr live ↦ simp live (fill_code-Same o o.code live refl)
  ]

  nonce_of-Same : (o : StateObject) (x : Option ℕ) → Same b o (nonce_of b o x).1
  unfolding nonce_of
  nonce_of-Same o (some n) = Same-refl b o
  nonce_of-Same o none = load_account-Same o

  pub get_nonce-Same : (o : StateObject) → Same b o (get_nonce b o).1
  unfolding get_nonce
  get_nonce-Same o = nonce_of-Same o o.nonce

  pub get_code-Same : (o : StateObject) → Same b o (get_code b o).1
  unfolding get_code
  get_code-Same o = load_code-Same o

  hash_of_code-Same :
      (o : StateObject) (x : Option CodeEntry) → o.code ≡ x → Same b o (hash_of_code b o x).1
  unfolding hash_of_code
  hash_of_code-Same o none h = Same-refl b o
  hash_of_code-Same o (some c) h =
      recached b o o.account _ o.clean refl (code_at-rehash o c (Load.get_hash b c) h) (λ _. refl)
    where
      code_at-rehash :
          (o : StateObject) (c : CodeEntry) (n : Hash)
          → o.code ≡ some c
          → code_view b o ≡ code_at b o.deleted (some (record c { hash = n })) (account_view b o)
      code_at-rehash o c n h = simp h refl

  pub Same-if :
      {A : Type 0} (o : StateObject) (test : Bool) (x y : A × StateObject)
      → Same b o x.1
      → Same b o y.1
      → Same b o (if test then x else y).1
  Same-if o true x y h k = h
  Same-if o false x y h k = k

  code_hash_of-Same : (o : StateObject) (x : Option Account) → Same b o (code_hash_of b o x).1
  unfolding code_hash_of
  code_hash_of-Same o (some a) = Same-refl b o
  code_hash_of-Same o none =
      let (loaded, o') = load_code b o in
      Same-if o loaded _ _ (Same-trans b (load_code-Same o) (hash_of_code-Same o' o'.code refl))
        (load_code-Same o)

  pub get_code_hash-Same : (o : StateObject) → Same b o (get_code_hash b o).1
  unfolding get_code_hash
  get_code_hash-Same o = code_hash_of-Same o o.account

  insert_clean :
      (o : StateObject) (slot j : Hash) (v : Hash)
      → committed_view b o slot ≡ v
      → committed_view b o j ≡ committed_at b o.address j (insert o.clean slot v j)
  insert_clean o slot j v h = elim (Bool-cases (slot == j)) [
    | inl same ↦ let e : slot ≡ j = ground arith in simp same (rw (← e) h)
    | inr other ↦ simp other refl
  ]

  keep_found-Same :
      (o : StateObject) (slot : Hash) (x : Option Bytes)
      → o.clean slot ≡ none
      → b.get (account_storage o.address slot) ≡ x
      → Same b o (keep_found b o slot x).1
  unfolding keep_found
  keep_found-Same o slot none nil h = Same-refl b o
  keep_found-Same o slot (some bytes) nil h =
      recached b o o.account o.code _ refl refl
        (λ j. insert_clean o slot j (decode_slot b bytes) (rw (nil, h) refl))

  committed_of-Same :
      (o : StateObject) (slot : Hash) (x : Option Hash)
      → o.clean slot ≡ x
      → Same b o (committed_of b o slot x).1
  unfolding committed_of
  committed_of-Same o slot (some v) h = Same-refl b o
  committed_of-Same o slot none h = keep_found-Same o slot _ h refl

  pub get_committed_state-Same :
      (o : StateObject) (slot : Hash) → Same b o (get_committed_state b o slot).1
  unfolding get_committed_state
  get_committed_state-Same o slot = committed_of-Same o slot (o.clean slot) refl

  state_of-Same :
      (o : StateObject) (slot : Hash) (x : Option Hash) → Same b o (state_of b o slot x).1
  unfolding state_of
  state_of-Same o slot (some v) = Same-refl b o
  state_of-Same o slot none = get_committed_state-Same o slot

  pub get_state-Same : (o : StateObject) (slot : Hash) → Same b o (get_state b o slot).1
  unfolding get_state
  get_state-Same o slot = state_of-Same o slot (o.dirty slot)

  pub is_empty-Same : (o : StateObject) → Same b o (is_empty b o).1
  unfolding is_empty
  is_empty-Same o =
      let h = get_nonce-Same o in
      let s1 = (get_nonce b o).1 in
      let hash = get_code_hash b s1 in
      let last : Bool × StateObject = (hash.0 == empty_code b, hash.1) in
      let stop : Bool × StateObject = (false, s1) in
      let zero_balance = is_zero_ℤ (Object.get_balance s1) in
      Same-if o ((get_nonce b o).0 == 0) (if zero_balance then last else stop) stop
        (Same-if o zero_balance last stop (Same-trans b h (get_code_hash-Same s1)) h) h

  -- What the loads answer, in terms of the views.
  abbrev pub account_nonce : Option Account → ℕ
  account_nonce none = 0
  account_nonce (some a) = a.nonce

  abbrev pub nonce_at : Bool → Option ℕ → Option Account → ℕ
  nonce_at deleted (some n) account = n
  nonce_at deleted none account = if deleted then 0 else account_nonce account

  nonce_of_loaded :
      (x : Option Account)
      → (if is_some b x then elim x [ none ↦ 0 | some a ↦ a.nonce ] else 0) ≡ account_nonce x
  nonce_of_loaded none = refl
  nonce_of_loaded (some a) = refl

  nonce_of_lem :
      (o : StateObject) (x : Option ℕ)
      → (nonce_of b o x).0 ≡ nonce_at o.deleted x (account_view b o)
  unfolding nonce_of
  nonce_of_lem o (some n) = refl
  nonce_of_lem o none = elim (Bool-cases o.deleted) [
    | inl gone ↦ unfold load_account in simp gone refl
    | inr live ↦
        let (h, k) = load_account_lem o live in
        rw (h, k) (nonce_of_loaded (account_view b o) ∙ simp live refl)
  ]

  pub get_nonce_lem :
      (o : StateObject) → (get_nonce b o).0 ≡ nonce_at o.deleted o.nonce (account_view b o)
  unfolding get_nonce
  get_nonce_lem o = nonce_of_lem o o.nonce

  code_after :
      (o : StateObject) (x : Option CodeEntry)
      → o.deleted ≡ false
      → o.code ≡ x
      → code_bytes b (fill_code b o x).code ≡ code_view b o
  unfolding fill_code code_bytes
  code_after o (some c) live h = simp (h, live) refl
  code_after o none live h = entry_view o live h

  pub get_code_lem : (o : StateObject) → (get_code b o).0 ≡ code_view b o
  unfolding get_code load_code
  get_code_lem o = elim (Bool-cases o.deleted) [
    | inl gone ↦ simp gone (gone_code o.code _)
    | inr live ↦ simp live (code_after o o.code live refl ∙ simp live refl)
  ]
    where
      gone_code : (c : Option CodeEntry) (x : Option Account) → [] ≡ code_at b true c x
      gone_code none x = refl
      gone_code (some c) x = refl

  keep_found_lem :
      (o : StateObject) (slot : Hash) (x : Option Bytes)
      → (keep_found b o slot x).0 ≡ stored_slot b x
  unfolding keep_found
  keep_found_lem o slot none = refl
  keep_found_lem o slot (some bytes) = refl

  committed_of_lem :
      (o : StateObject) (slot : Hash) (x : Option Hash)
      → (committed_of b o slot x).0 ≡ committed_at b o.address slot x
  unfolding committed_of
  committed_of_lem o slot (some v) = refl
  committed_of_lem o slot none = keep_found_lem o slot _

  pub get_committed_state_lem :
      (o : StateObject) (slot : Hash) → (get_committed_state b o slot).0 ≡ committed_view b o slot
  unfolding get_committed_state
  get_committed_state_lem o slot = committed_of_lem o slot (o.clean slot)

  abbrev pub state_at : Option Hash → Hash → Hash
  state_at none committed = committed
  state_at (some v) committed = v

  state_of_lem :
      (o : StateObject) (slot : Hash) (x : Option Hash)
      → (state_of b o slot x).0 ≡ state_at x (committed_view b o slot)
  unfolding state_of
  state_of_lem o slot (some v) = refl
  state_of_lem o slot none = get_committed_state_lem o slot

  pub get_state_lem :
      (o : StateObject) (slot : Hash)
      → (get_state b o slot).0 ≡ state_at (o.dirty slot) (committed_view b o slot)
  unfolding get_state
  get_state_lem o slot = state_of_lem o slot (o.dirty slot)
