-- ===== src/State/Db/Ops.antt =====
-- The methods of the StateDB interface (state/interface.go, state/statedb.go). A method that changes
-- the state answers the new state; a method that reads answers a value and the state whose caches
-- it filled.
use cardinal_evm.Prelude.{ℕ, Bool, true, false, not, ◌&&◌, ◌||◌, if◌then◌else◌, ◌>>=◌}
use cardinal_evm.Prelude.{Option, none, some, List, [], ◌∷◌, insert, empty_map, length}
use cardinal_evm.Prelude.{add64, sub64, ℤ, pos}
use cardinal_evm.Prelude.Int.{is_zero_ℤ}
use cardinal_evm.State.Account.{Address, Hash, Bytes, Backend}
use cardinal_evm.State.AccessList
use cardinal_evm.State.Object
use cardinal_evm.State.Object.{StateObject, Storage, new_object, or_zero}
use cardinal_evm.State.Object.Load
use cardinal_evm.State.Object.Change
use cardinal_evm.State.Object.Change.{Revert}
use cardinal_evm.State.Db.{StateDb, object, put, push, read, write}

unfoldable pub sub_balance : StateDb → Address → ℤ → StateDb
unfolding Change.sub_balance
sub_balance s a amount =
    if is_zero_ℤ amount then s else write (λ o. Change.sub_balance o amount) s a

unfoldable pub add_balance : StateDb → Address → ℤ → StateDb
unfolding Change.add_balance
add_balance s a amount =
    if is_zero_ℤ amount then s else write (λ o. Change.add_balance o amount) s a

unfoldable pub set_nonce : StateDb → Address → ℕ → StateDb
unfolding Change.set_nonce
set_nonce s a n = write (λ o. Change.set_nonce o n) s a

unfoldable pub set_storage : StateDb → Address → Storage → StateDb
unfolding Change.set_storage
set_storage s a m = write (λ o. Change.set_storage o m) s a

unfoldable pub set_balance : StateDb → Address → ℤ → StateDb
unfolding Change.set_balance
set_balance s a x = write (λ o. Change.set_balance o x) s a

unfoldable pub add_refund : StateDb → ℕ → StateDb
add_refund s amount =
    push (record s { refund = add64 s.refund amount }) (Revert.put_refund s.refund)

unfoldable pub sub_refund : StateDb → ℕ → StateDb
sub_refund s amount =
    push (record s { refund = sub64 s.refund amount }) (Revert.put_refund s.refund)

unfoldable pub transient_or_new : Option Storage → Storage
transient_or_new none = empty_map
transient_or_new (some m) = m

unfoldable pub set_transient_state : StateDb → Address → Hash → Hash → StateDb
unfolding transient_or_new
set_transient_state s a slot value =
    let m = transient_or_new (s.transient a) in
    push (record s { transient = insert s.transient a (insert m slot value) })
      (Revert.put_transient a slot (or_zero (m slot)))

unfoldable pub get_transient_state : StateDb → Address → Hash → Hash
unfolding transient_or_new
get_transient_state s a slot = or_zero (transient_or_new (s.transient a) slot)

unfoldable pub suicide_with : StateDb → Address → Option (Revert × StateObject) → Bool × StateDb
suicide_with s a none = (false, put s a (object s a))
suicide_with s a (some (e, o)) = (true, push (put s a o) e)

unfoldable pub suicide : StateDb → Address → Bool × StateDb
unfolding suicide_with Change.suicide
suicide s a = suicide_with s a (Change.suicide (object s a))

unfoldable pub self_destruct_6780 : StateDb → Address → StateDb
unfolding suicide
self_destruct_6780 s a = if (object s a).created then (suicide s a).1 else put s a (object s a)

unfoldable pub has_suicided : StateDb → Address → Bool × StateDb
has_suicided = read (λ o. (o.suicided, o))

unfoldable pub push_if : Bool → StateDb → Revert → StateDb
push_if added s e = if added then push s e else s

unfoldable pub address_in_access_list : StateDb → Address → Bool
unfolding AccessList.contains_address
address_in_access_list s a = s.alcalc || AccessList.contains_address s.access_list a

unfoldable pub slot_in_access_list : StateDb → Address → Hash → Option (Bool × Bool)
slot_in_access_list s a slot =
    if s.alcalc then some (true, true) else AccessList.contains s.access_list a slot

unfoldable pub add_address_to_access_list : StateDb → Address → StateDb
unfolding push_if
add_address_to_access_list s a =
    let (al, added) = AccessList.add_address s.access_list a in
    push_if added (record s { access_list = al }) (Revert.drop_address a)

unfoldable pub add_slot_to_access_list : StateDb → Address → Hash → Option StateDb
unfolding push_if
add_slot_to_access_list s a slot = do
  (al, added_address, added_slot) ← AccessList.add_slot s.access_list a slot
  let s1 = push_if added_address (record s { access_list = al }) (Revert.drop_address a)
  some (push_if added_slot s1 (Revert.drop_slot a slot))

-- PrepareAccessList: the loops over the precompiles, the tuples, and the keys of a tuple.
add_addresses : StateDb → List Address → StateDb
add_addresses s [] = s
add_addresses s (a ∷ as') = add_addresses (add_address_to_access_list s a) as'

add_keys : StateDb → Address → List Hash → Option StateDb
add_keys s a [] = some s
add_keys s a (key ∷ keys) = do s' ← add_slot_to_access_list s a key; add_keys s' a keys

add_tuples : StateDb → List (Address × List Hash) → Option StateDb
unfolding add_keys
add_tuples s [] = some s
add_tuples s ((a, keys) ∷ tuples) = do
  s' ← add_keys (add_address_to_access_list s a) a keys
  add_tuples s' tuples

add_destination : StateDb → Option Address → StateDb
add_destination s none = s
add_destination s (some dst) = add_address_to_access_list s dst

pub record Accesses : Type 0 where
  pub is_berlin : Bool
  pub is_shanghai : Bool
  pub sender : Address
  pub coinbase : Address
  pub dst : Option Address
  pub precompiles : List Address
  pub tuples : List (Address × List Hash)

prepare_berlin : StateDb → Accesses → Option StateDb
unfolding add_addresses add_tuples add_destination
prepare_berlin s x = do
  let s1 = add_destination (add_address_to_access_list s x.sender) x.dst
  s2 ← add_tuples (add_addresses s1 x.precompiles) x.tuples
  some (if x.is_shanghai then add_address_to_access_list s2 x.coinbase else s2)

unfoldable pub prepare_access_list : StateDb → Accesses → Option StateDb
unfolding prepare_berlin
prepare_access_list s x = if x.is_berlin then prepare_berlin s x else some s

module _ (b : Backend) where
  -- CreateAccount. The closure holds the pointer to the old object, whose account loadAccount may
  -- fill after the entry was pushed: the entry's object is the loaded one.
  unfoldable pub created_object : Address → ℤ → Bool → StateObject
  created_object a balance carried =
      let o = record (new_object a) {
        account = some (record { nonce = 0; balance = none; root = []; code_hash = [] });
        created = true;
      } in
      if carried then record o { balance_delta = some balance } else o

  unfoldable pub create_account : StateDb → Address → StateDb
  unfolding created_object Object.get_balance Load.load_account
  create_account s a =
      let prev = object s a in
      if not prev.deleted && not prev.suicided
      then (let (loaded, prev') = Load.load_account b prev in
          push (put s a (created_object a (Object.get_balance prev') loaded))
            (Revert.put_object a prev'))
      else push (put s a (created_object a (pos 0) false)) (Revert.put_object a prev)

  unfoldable pub set_code : StateDb → Address → Bytes → StateDb
  unfolding Change.set_code
  set_code s a code = write (λ o. Change.set_code b o code) s a

  -- The slots of an account are kept under the hash of their position.
  abbrev pub slot_key : Hash → Hash
  slot_key slot = b.keccak (b.to_bytes slot)

  unfoldable pub set_state : StateDb → Address → Hash → Hash → StateDb
  unfolding Change.set_state
  set_state s a slot value = write (λ o. Change.set_state o (slot_key slot) value) s a

  unfoldable pub balance_of : StateObject → ℤ × StateObject
  unfolding Load.load_account Object.get_balance
  balance_of o =
      let (loaded, o') = Load.load_account b o in
      (if loaded then Object.get_balance o' else pos 0, o')

  unfoldable pub get_balance : StateDb → Address → ℤ × StateDb
  unfolding balance_of
  get_balance = read balance_of

  unfoldable pub get_nonce : StateDb → Address → ℕ × StateDb
  unfolding Load.get_nonce
  get_nonce = read (Load.get_nonce b)

  unfoldable pub get_code_hash : StateDb → Address → Hash × StateDb
  unfolding Load.get_code_hash
  get_code_hash = read (Load.get_code_hash b)

  unfoldable pub get_code : StateDb → Address → Bytes × StateDb
  unfolding Load.get_code
  get_code = read (Load.get_code b)

  unfoldable pub get_code_size : StateDb → Address → ℕ × StateDb
  unfolding get_code
  get_code_size s a = let (code, s') = get_code s a in (length code, s')

  unfoldable pub get_committed_state : StateDb → Address → Hash → Hash × StateDb
  unfolding Load.get_committed_state
  get_committed_state s a slot = read (λ o. Load.get_committed_state b o (slot_key slot)) s a

  unfoldable pub get_state : StateDb → Address → Hash → Hash × StateDb
  unfolding Load.get_state
  get_state s a slot = read (λ o. Load.get_state b o (slot_key slot)) s a

  unfoldable pub exists_object : StateObject → Bool × StateObject
  unfolding Load.is_empty
  exists_object o =
      if o.deleted then (false, o) else (let (e, o') = Load.is_empty b o in (not e, o'))

  unfoldable pub exist : StateDb → Address → Bool × StateDb
  unfolding exists_object
  exist = read exists_object

  unfoldable pub empty_object : StateObject → Bool × StateObject
  unfolding Load.is_empty
  empty_object o = if o.deleted || o.suicided then (true, o) else Load.is_empty b o

  unfoldable pub empty : StateDb → Address → Bool × StateDb
  unfolding empty_object
  empty = read empty_object
