-- ===== src/State/Object.antt =====
-- state/state_object.go. A method returns its result and the new object; the fields of the objects
-- that Go reaches through pointers are values here, since no two of them are shared while the
-- methods below run.
pub mod Load
pub mod Change
pub mod Views
pub mod Caches
use cardinal_evm.Prelude.{ℕ, ◌==◌, Bool, true, false, not, ◌&&◌, ◌||◌, if◌then◌else◌, length, ◌>>=◌}
use cardinal_evm.Prelude.{Option, none, some, List, [], ◌∷◌, Map, empty_map, insert, delete}
use cardinal_evm.Prelude.{ℤ, pos, ◌+ℤ◌, ◌-ℤ◌}
use cardinal_evm.Prelude.Int.{is_zero_ℤ}
use cardinal_evm.State.Account.{Address, Hash, Bytes, Account, Backend, Key, account_code}
use cardinal_evm.State.Account.{account_storage, stored_account, empty_code}

abbrev pub Storage : Type 0
Storage = Map Hash

pub record CodeEntry : Type 0 where
  pub code : Bytes
  pub hash : Hash

pub record StateObject : Type 0 where
  pub address : Address
  pub account : Option Account
  pub balance_delta : Option ℤ
  pub code : Option CodeEntry
  pub dirty : Storage
  pub clean : Storage
  pub created : Bool
  pub suicided : Bool
  pub deleted : Bool
  pub nonce : Option ℕ
  pub fake_balance : Option ℤ

-- The object that getAccount puts where there was none.
abbrev pub new_object : Address → StateObject
new_object a = record {
  address = a;
  account = none;
  balance_delta = none;
  code = none;
  dirty = empty_map;
  clean = empty_map;
  created = false;
  suicided = false;
  deleted = false;
  nonce = none;
  fake_balance = none;
}

abbrev pub or_zero : Option ℕ → ℕ
or_zero none = 0
or_zero (some n) = n

abbrev pub or_zero_ℤ : Option ℤ → ℤ
or_zero_ℤ none = pos 0
or_zero_ℤ (some x) = x

-- finalise: `clean[k] = v` for each k of dirty.
abbrev merge : Storage → Storage → Storage
merge dirty clean k = elim (dirty k) [ some v ↦ some v | none ↦ clean k ]

unfoldable pub finalise : StateObject → StateObject
finalise s = record s { clean = merge s.dirty s.clean; deleted = s.suicided || s.deleted }

-- copy: `fake_balance` is not among the fields that it takes over.
unfoldable pub copy : StateObject → StateObject
copy s = record s { fake_balance = none }

-- getBalance: the account's balance, or the one that setBalance put in its place, and the delta.
unfoldable pub account_balance : Option Account → Option ℤ
account_balance none = none
account_balance (some a) = a.balance

unfoldable pub get_balance : StateObject → ℤ
unfolding account_balance
get_balance s =
    let base : Option ℤ = elim s.fake_balance [
      | some x ↦ some x
      | none ↦ account_balance s.account
    ] in
    or_zero_ℤ s.balance_delta +ℤ or_zero_ℤ base

-- bytes.Equal
abbrev pub bytes_equal : Bytes → Bytes → Bool
bytes_equal [] [] = true
bytes_equal [] (y ∷ ys) = false
bytes_equal (x ∷ xs) [] = false
bytes_equal (x ∷ xs) (y ∷ ys) = (x == y) && bytes_equal xs ys
