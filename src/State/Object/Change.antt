-- ===== src/State/Object/Change.antt =====
-- The journal entries, and the methods of a state object that change it: each returns the entry that
-- undoes the change, and the new object.
use cardinal_evm.Prelude.{ℕ, true, ◌||◌, if◌then◌else◌, insert}
use cardinal_evm.Prelude.{Option, none, some, ℤ, pos, ◌+ℤ◌, ◌-ℤ◌}
use cardinal_evm.State.Account.{Address, Hash, Bytes, Backend}
use cardinal_evm.State.Object.{StateObject, CodeEntry, Storage}

-- The closures that the state package puts on its journal, by the variables that they hold.
pub data Revert : Type 0 where
  put_object : Address → StateObject → Revert
  clear_delta : Address → Revert
  add_delta sub_delta : Address → ℤ → Revert
  put_fake_balance : Address → Option ℤ → Revert
  put_nonce : Address → Option ℕ → Revert
  put_code : Address → Option CodeEntry → Revert
  put_dirty : Address → Hash → Hash → Revert
  drop_dirty : Address → Hash → Revert
  put_storage : Address → Storage → Revert
  clear_suicided : Address → Revert
  put_refund : ℕ → Revert
  put_transient : Address → Hash → Hash → Revert
  drop_address : Address → Revert
  drop_slot : Address → Hash → Revert

unfoldable pub sub_delta_of : StateObject → ℤ → Option ℤ → Revert × StateObject
sub_delta_of s amount none =
    (clear_delta s.address, record s { balance_delta = some (pos 0 -ℤ amount) })
sub_delta_of s amount (some d) =
    (add_delta s.address amount, record s { balance_delta = some (d -ℤ amount) })

unfoldable pub sub_balance : StateObject → ℤ → Revert × StateObject
unfolding sub_delta_of
sub_balance s amount = sub_delta_of s amount s.balance_delta

unfoldable pub add_delta_of : StateObject → ℤ → Option ℤ → Revert × StateObject
add_delta_of s amount none = (clear_delta s.address, record s { balance_delta = some amount })
add_delta_of s amount (some d) =
    (sub_delta s.address amount, record s { balance_delta = some (d +ℤ amount) })

unfoldable pub add_balance : StateObject → ℤ → Revert × StateObject
unfolding add_delta_of
add_balance s amount = add_delta_of s amount s.balance_delta

unfoldable pub set_balance : StateObject → ℤ → Revert × StateObject
set_balance s balance =
    (put_fake_balance s.address s.fake_balance, record s { fake_balance = some balance })

unfoldable pub set_nonce : StateObject → ℕ → Revert × StateObject
set_nonce s nonce = (put_nonce s.address s.nonce, record s { nonce = some nonce })

unfoldable pub set_code : Backend → StateObject → Bytes → Revert × StateObject
set_code b s code = (
  put_code s.address s.code,
  record s { code = some (record { code = code; hash = b.keccak code }) },
)

unfoldable pub undo_write : Address → Hash → Option Hash → Revert
undo_write a slot none = drop_dirty a slot
undo_write a slot (some old) = put_dirty a slot old

unfoldable pub set_state : StateObject → Hash → Hash → Revert × StateObject
unfolding undo_write
set_state s slot value =
    (undo_write s.address slot (s.dirty slot), record s { dirty = insert s.dirty slot value })

unfoldable pub set_storage : StateObject → Storage → Revert × StateObject
set_storage s storage = (put_storage s.address s.dirty, record s { dirty = storage })

-- `none` is the answer `false, nil`.
unfoldable pub suicide : StateObject → Option (Revert × StateObject)
suicide s =
    if s.suicided || s.deleted
    then none
    else some (clear_suicided s.address, record s { suicided = true })
