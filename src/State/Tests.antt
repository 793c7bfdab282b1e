-- ===== src/State/Tests.antt =====
-- Tests of the state package on a small chain, and uses of its theorems there.
use cardinal_evm.Prelude.{◌+◌, ◌≡◌, refl, true, if◌then◌else◌, Option, none, some, ◌==◌}
use cardinal_evm.Prelude.{◌>>=◌, [], ◌∷◌, pos}
use cardinal_evm.State.Account.{Hash, Bytes, Key, Backend, stored_account}
use cardinal_evm.State.AccessList
use cardinal_evm.State.AccessList.{AccessList, new_access_list}
use cardinal_evm.State.AccessList.Laws
use cardinal_evm.State.AccessList.Laws.Membership
use cardinal_evm.State.Db.{StateDb, new_state_db, finalise, snapshot, revert_to_snapshot}
use cardinal_evm.State.Db.Answers.{SameCoreAnswers}
use cardinal_evm.State.Db.Cells
use cardinal_evm.State.Db.Ops
use cardinal_evm.State.Object.Load
use cardinal_evm.State.Db.Run.{Op, Script, done, op, scope, run}
use cardinal_evm.State.Db.Scopes
use cardinal_evm.State.Db.Undo.{IsValid}

-- Account 1 has nonce 5 and balance 100; each of its slots holds 7.
abbrev pub stored : Key → Option Bytes
stored (Key.account_data a) = if a == 1 then some [] else none
stored (Key.account_code h) = none
stored (Key.account_storage a slot) = if a == 1 then some (7 ∷ []) else none

abbrev first_byte : Bytes → Hash
first_byte [] = 0
first_byte (x ∷ xs) = x

abbrev pub chain : Backend
chain = record {
  get = stored;
  decode_account =
      λ bytes. some (record { nonce = 5; balance = some (pos 100); root = []; code_hash = [] });
  split_content = λ bytes. bytes;
  keccak = λ bytes. first_byte bytes + 1000;
  to_hash = first_byte;
  to_bytes = λ h. h ∷ [];
}

new_access_list-IsValid : Laws.IsValid new_access_list
unfolding new_access_list
new_access_list-IsValid = record { filled = λ a n e. cc }

pub new_state_db-IsValid : IsValid new_state_db
unfolding new_state_db new_access_list
new_state_db-IsValid = record { keyed = λ a. refl; access = new_access_list-IsValid }

-- A transfer and a write, in which a failed call writes, adds a refund and warms a slot.
abbrev script : Script
script = op (Op.sub_balance 1 (pos 10)) (
    op (Op.add_balance 2 (pos 10)) (
      scope (op (Op.set_state 1 3 9) (op (Op.add_refund 4800) (op (Op.add_slot 1 3) done))) true
        (op (Op.suicide 1) (op (Op.get_state 1 3) done))))

revert_to_snapshot-run_example :
    (t : StateDb) × (u : StateDb) × (run chain script new_state_db ≡ some t)
    × (revert_to_snapshot (snapshot new_state_db) t ≡ some u)
    × (u.journal ≡ new_state_db.journal)
    × SameCoreAnswers chain new_state_db u
revert_to_snapshot-run_example =
    Scopes.revert_to_snapshot-run chain script new_state_db new_state_db-IsValid

-- Code is set on account 1, which is in storage and not loaded. GetCodeHash answers the hash of that
-- code; after a GetBalance, which is reverted, it answers the stored hash.
abbrev recoded : StateDb
recoded = Ops.set_code chain new_state_db 1 (5 ∷ [])

hash_of_new_code : (Ops.get_code_hash chain recoded 1).0 ≡ 1005
unfolding Ops.get_code_hash Ops.set_code new_state_db
hash_of_new_code = refl

hash_after_revert :
    (do
      t ← run chain (op (Op.get_balance 1) done) recoded
      u ← revert_to_snapshot (snapshot recoded) t
      some (Ops.get_code_hash chain u 1).0)
    ≡ some 1000
unfolding run revert_to_snapshot snapshot Ops.get_code_hash Ops.set_code Ops.get_balance
    new_state_db stored_account
hash_after_revert = refl

abbrev pub one_write : StateDb
one_write = Ops.set_state chain new_state_db 1 3 9

read_back : (Ops.get_state chain one_write 1 3).0 ≡ 9
unfolding Ops.get_state Ops.set_state new_state_db
read_back = refl

read_stored : (Ops.get_state chain new_state_db 1 4).0 ≡ 7
unfolding Ops.get_state new_state_db Load.decode_slot
read_stored = refl

finalise-commits_example :
    ((Ops.get_state chain (finalise one_write) 1 3).0 ≡ (Ops.get_state chain one_write 1 3).0)
    × ((Ops.get_committed_state chain (finalise one_write) 1 3).0
        ≡ (Ops.get_state chain one_write 1 3).0)
finalise-commits_example = Cells.finalise-commits chain one_write 1 3

get_state-set_state_example :
    (Ops.get_state chain (Ops.set_state chain one_write 1 4 8) 1 3).0
    ≡ (Ops.get_state chain one_write 1 3).0
get_state-set_state_example = Cells.get_state-set_state chain one_write 1 4 8 1 3

abbrev warm_address : AccessList
warm_address = (AccessList.add_address new_access_list 5).0

add_slot-Undoes_example : Laws.Undoes new_access_list 5 9 (AccessList.add_slot new_access_list 5 9)
add_slot-Undoes_example = Laws.add_slot-Undoes new_access_list 5 9 new_access_list-IsValid

new_access_list-IsSeparate : Membership.IsSeparate new_access_list
unfolding new_access_list
new_access_list-IsSeparate = record { separate = λ a c n p q. cc }

add_slot-Adds_example :
    Membership.Adds new_access_list 5 9 (AccessList.add_slot new_access_list 5 9)
add_slot-Adds_example =
    Membership.add_slot-Adds new_access_list 5 9 new_access_list-IsValid new_access_list-IsSeparate

delete_address-add_address_example :
    AccessList.delete_address (AccessList.add_address new_access_list 5).0 5 ≡ new_access_list
unfolding AccessList.contains_address AccessList.add_address new_access_list
delete_address-add_address_example = Laws.delete_address-add_address new_access_list 5 added
  where
    added : (AccessList.add_address new_access_list 5).1 ≡ true
    added = refl
