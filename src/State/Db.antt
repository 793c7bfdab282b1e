-- ===== src/State/Db.antt =====
-- state/statedb.go: the journaled state. The journal is kept newest entry first, so that the list's
-- head is the entry that RevertToSnapshot runs first; Go appends at the end. An entry's `addr` field
-- is left out, since nothing reads it. `none` is a panic.
pub mod Cells
pub mod Ops
pub mod Run
pub mod Agree
pub mod Undo
pub mod Restore
pub mod Globals
pub mod Answers
pub mod Scopes
pub mod Kept
use cardinal_evm.Prelude.{ℕ, zero, suc, ◌+◌, ◌-◌, ◌==◌, leb, Bool, true, false, not, ◌&&◌, ◌||◌}
use cardinal_evm.Prelude.{
  if◌then◌else◌, ◌>>=◌, Option, none, some, List, [], ◌∷◌, length, take, drop,
}
use cardinal_evm.Prelude.{Map, empty_map, insert, delete, add64, sub64, ℤ, pos, ◌+ℤ◌, ◌-ℤ◌}
use cardinal_evm.Prelude.Int.{is_zero_ℤ}
use cardinal_evm.State.Account.{Address, Hash, Bytes, Account, Backend}
use cardinal_evm.State.AccessList
use cardinal_evm.State.AccessList.{AccessList, new_access_list}
use cardinal_evm.State.Object
use cardinal_evm.State.Object.{StateObject, Storage, new_object, or_zero}
use cardinal_evm.State.Object.Load
use cardinal_evm.State.Object.Change
use cardinal_evm.State.Object.Change.{Revert}

pub record StateDb : Type 0 where
  pub journal : List Revert
  pub state : Map StateObject
  pub transient : Map Storage
  pub refund : ℕ
  pub access_list : AccessList
  pub alcalc : Bool

unfoldable pub new_state_db : StateDb
unfolding new_access_list
new_state_db = record {
  journal = [];
  state = empty_map;
  transient = empty_map;
  refund = 0;
  access_list = new_access_list;
  alcalc = false;
}

abbrev object_or_new : Address → Option StateObject → StateObject
object_or_new a none = new_object a
object_or_new a (some o) = o

-- The object that getAccount answers; the callers write it back, so that a new one is kept.
abbrev pub object : StateDb → Address → StateObject
object s a = object_or_new a (s.state a)

abbrev pub put : StateDb → Address → StateObject → StateDb
put s a o = record s { state = insert s.state a o }

abbrev pub push : StateDb → Revert → StateDb
push s e = record s { journal = e ∷ s.journal }

-- A method of the object at `a` that only fills caches.
abbrev pub read : {A : Type 0} → (StateObject → A × StateObject) → StateDb → Address → A × StateDb
read f s a = let (x, o) = f (object s a) in (x, put s a o)

-- A method of the object at `a` that answers a journal entry.
abbrev pub write : (StateObject → Revert × StateObject) → StateDb → Address → StateDb
write f s a = let (e, o) = f (object s a) in push (put s a o) e

-- An entry's closure, run on the state.
unfoldable pub on_object : StateDb → Address → (StateObject → StateObject) → Option StateDb
on_object s a f = some (put s a (f (object s a)))

unfoldable pub move_delta : StateDb → Address → (ℤ → ℤ) → Option ℤ → Option StateDb
move_delta s a f none = none
move_delta s a f (some d) = some (put s a (record (object s a) { balance_delta = some (f d) }))

unfoldable pub put_transient_at : StateDb → Address → Hash → Hash → Option Storage → Option StateDb
put_transient_at s a slot old none = none
put_transient_at s a slot old (some m) =
    some (record s { transient = insert s.transient a (insert m slot old) })

unfoldable pub revert : Revert → StateDb → Option StateDb
unfolding on_object move_delta put_transient_at AccessList.delete_address
revert (Revert.put_object a o) s = some (put s a o)
revert (Revert.clear_delta a) s = on_object s a (λ o. record o { balance_delta = none })
revert (Revert.add_delta a x) s = move_delta s a (λ d. d +ℤ x) (object s a).balance_delta
revert (Revert.sub_delta a x) s = move_delta s a (λ d. d -ℤ x) (object s a).balance_delta
revert (Revert.put_fake_balance a old) s = on_object s a (λ o. record o { fake_balance = old })
revert (Revert.put_nonce a old) s = on_object s a (λ o. record o { nonce = old })
revert (Revert.put_code a old) s = on_object s a (λ o. record o { code = old })
revert (Revert.put_dirty a slot old) s =
    on_object s a (λ o. record o { dirty = insert o.dirty slot old })
revert (Revert.drop_dirty a slot) s = on_object s a (λ o. record o { dirty = delete o.dirty slot })
revert (Revert.put_storage a old) s = on_object s a (λ o. record o { dirty = old })
revert (Revert.clear_suicided a) s = on_object s a (λ o. record o { suicided = false })
revert (Revert.put_refund old) s = some (record s { refund = old })
revert (Revert.put_transient a slot old) s = put_transient_at s a slot old (s.transient a)
revert (Revert.drop_address a) s =
    some (record s { access_list = AccessList.delete_address s.access_list a })
revert (Revert.drop_slot a slot) s = do
  al ← AccessList.delete_slot s.access_list a slot
  some (record s { access_list = al })

unfoldable pub snapshot : StateDb → ℕ
snapshot s = length s.journal

-- The closures in turn, newest first.
unfoldable pub revert_entries : List Revert → StateDb → Option StateDb
revert_entries [] s = some s
revert_entries (e ∷ es) s = do s' ← revert e s; revert_entries es s'

unfoldable pub cut_journal : ℕ → StateDb → Option StateDb
unfolding revert_entries
cut_journal n s = do
  s' ← revert_entries (take n s.journal) s
  some (record s' { journal = drop n s.journal })

-- Runs the entries above `snap` and cuts the journal there. A `snap` above the length, which
-- Snapshot never answered for this journal, counts as a panic.
unfoldable pub revert_to_snapshot : ℕ → StateDb → Option StateDb
unfolding cut_journal
revert_to_snapshot snap s =
    if leb snap (length s.journal) then cut_journal (length s.journal - snap) s else none

unfoldable pub finalise : StateDb → StateDb
unfolding Object.finalise new_access_list
finalise s = record s {
  state = λ a. elim (s.state a) [ none ↦ none | some o ↦ some (Object.finalise o) ];
  access_list = new_access_list;
  transient = empty_map;
  refund = 0;
}
