-- ===== src/State/Object/Load.antt =====
-- The methods of a state object that read through the storage transaction and fill its caches.
use cardinal_evm.Prelude.{ℕ, ◌==◌, Bool, true, false, if◌then◌else◌, insert, length}
use cardinal_evm.Prelude.{Option, none, some, []}
use cardinal_evm.Prelude.Int.{is_zero_ℤ}
use cardinal_evm.State.Account.{Hash, Bytes, Account, Backend, account_code}
use cardinal_evm.State.Account.{account_storage, stored_account, empty_code}
use cardinal_evm.State.Object.{StateObject, CodeEntry, bytes_equal, get_balance}

module _ (b : Backend) where
  unfoldable pub load_stored : StateObject → Option Account → Bool × StateObject
  load_stored s none = (false, s)
  load_stored s (some a) = (true, record s { account = some a })

  unfoldable pub load_if_nil : StateObject → Option Account → Bool × StateObject
  unfolding load_stored
  load_if_nil s (some a) = (true, s)
  load_if_nil s none = load_stored s (stored_account b s.address)

  unfoldable pub load_account : StateObject → Bool × StateObject
  unfolding load_if_nil
  load_account s = if s.deleted then (false, s) else load_if_nil s s.account

  -- codeEntry.getHash, whose test asks for a hash that is not zero.
  unfoldable pub get_hash : CodeEntry → Hash
  get_hash c = if c.hash == 0 then c.hash else b.keccak c.code

  -- The entry keeps the hash that getHash assigned.
  unfoldable pub hash_of_code : StateObject → Option CodeEntry → Hash × StateObject
  unfolding get_hash
  hash_of_code s none = (0, s)
  hash_of_code s (some c) = (get_hash c, record s { code = some (record c { hash = get_hash c }) })

  unfoldable pub empty_entry : CodeEntry
  empty_entry = record { code = []; hash = empty_code b }

  -- What loadCode puts in place of a nil code, given the answer of loadAccount.
  unfoldable pub entry_of : Bool → Option Account → CodeEntry
  unfolding empty_entry
  entry_of loaded none = empty_entry
  entry_of false (some a) = empty_entry
  entry_of true (some a) =
      if bytes_equal a.code_hash (b.to_bytes (empty_code b)) then empty_entry else record {
        code = elim (b.get (account_code a.code_hash)) [ none ↦ [] | some c ↦ c ];
        hash = b.to_hash a.code_hash;
      }

  unfoldable pub fill_code : StateObject → Option CodeEntry → StateObject
  unfolding load_account entry_of
  fill_code s (some c) = s
  fill_code s none =
      let (loaded, s') = load_account s in record s' { code = some (entry_of loaded s'.account) }

  unfoldable pub load_code : StateObject → Bool × StateObject
  unfolding fill_code
  load_code s = if s.deleted then (false, s) else (true, fill_code s s.code)

  -- getNonce
  unfoldable pub nonce_of : StateObject → Option ℕ → ℕ × StateObject
  unfolding load_account
  nonce_of s (some n) = (n, s)
  nonce_of s none =
      let (loaded, s') = load_account s in
      (if loaded then elim s'.account [ none ↦ 0 | some a ↦ a.nonce ] else 0, s')

  unfoldable pub get_nonce : StateObject → ℕ × StateObject
  unfolding nonce_of
  get_nonce s = nonce_of s s.nonce

  unfoldable pub code_bytes : Option CodeEntry → Bytes
  code_bytes none = []
  code_bytes (some c) = c.code

  unfoldable pub get_code : StateObject → Bytes × StateObject
  unfolding load_code code_bytes
  get_code s = let (loaded, s') = load_code s in (if loaded then code_bytes s'.code else [], s')

  unfoldable pub code_hash_of : StateObject → Option Account → Hash × StateObject
  unfolding load_code hash_of_code
  code_hash_of s (some a) = (b.to_hash a.code_hash, s)
  code_hash_of s none =
      let (loaded, s') = load_code s in
      if loaded then hash_of_code s' s'.code else (empty_code b, s')

  unfoldable pub get_code_hash : StateObject → Hash × StateObject
  unfolding code_hash_of
  get_code_hash s = code_hash_of s s.account

  -- getCommittedState. Bytes that are found are kept in `clean`; a missing key reads as zero.
  unfoldable pub decode_slot : Bytes → Hash
  decode_slot bytes = if length bytes == 0 then 0 else b.to_hash (b.split_content bytes)

  unfoldable pub keep_found : StateObject → Hash → Option Bytes → Hash × StateObject
  keep_found s slot none = (0, s)
  keep_found s slot (some bytes) =
      (decode_slot bytes, record s { clean = insert s.clean slot (decode_slot bytes) })

  unfoldable pub committed_of : StateObject → Hash → Option Hash → Hash × StateObject
  unfolding keep_found
  committed_of s slot (some v) = (v, s)
  committed_of s slot none = keep_found s slot (b.get (account_storage s.address slot))

  unfoldable pub get_committed_state : StateObject → Hash → Hash × StateObject
  unfolding committed_of
  get_committed_state s slot = committed_of s slot (s.clean slot)

  unfoldable pub state_of : StateObject → Hash → Option Hash → Hash × StateObject
  unfolding get_committed_state
  state_of s slot (some v) = (v, s)
  state_of s slot none = get_committed_state s slot

  unfoldable pub get_state : StateObject → Hash → Hash × StateObject
  unfolding state_of
  get_state s slot = state_of s slot (s.dirty slot)

  -- empty: the three tests are made in turn, and a test that fails ends them.
  unfoldable pub is_empty : StateObject → Bool × StateObject
  unfolding get_nonce get_balance get_code_hash
  is_empty s =
      let (n, s1) = get_nonce s in
      if n == 0
      then if is_zero_ℤ (get_balance s1)
        then (let (h, s2) = get_code_hash s1 in (h == empty_code b, s2))
        else (false, s1)
      else (false, s1)
