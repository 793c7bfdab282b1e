-- ===== src/State/Db/Run.antt =====
-- The calls that the EVM makes of a stateDB, as data: the methods of the interface in any order, and
-- scopes, in which a snapshot is taken, a script runs, and a failure reverts to the snapshot
-- (vm/evm.go, Call and its variants).
use cardinal_evm.Prelude.{ℕ, Bool, if◌then◌else◌, ◌>>=◌, Option, some, ℤ}
use cardinal_evm.State.Account.{Address, Hash, Bytes, Backend}
use cardinal_evm.State.Object.{Storage}
use cardinal_evm.State.Db.{StateDb, snapshot, revert_to_snapshot}
use cardinal_evm.State.Db.Ops

pub data Op : Type 0 where
  create_account self_destruct_6780 suicide add_address : Address → Op
  sub_balance add_balance set_balance : Address → ℤ → Op
  set_nonce : Address → ℕ → Op
  set_code : Address → Bytes → Op
  add_refund sub_refund : ℕ → Op
  set_state set_transient_state : Address → Hash → Hash → Op
  set_storage : Address → Storage → Op
  add_slot : Address → Hash → Op
  get_balance get_nonce get_code get_code_hash has_suicided exist empty : Address → Op
  get_state get_committed_state : Address → Hash → Op

pub data Script : Type 0 where
  done : Script
  op : Op → Script → Script
  scope : Script → Bool → Script → Script

module _ (b : Backend) where
  -- The state after a call; what the call answers is not kept.
  unfoldable pub step : Op → StateDb → Option StateDb
  step (Op.create_account a) s = some (Ops.create_account b s a)
  step (Op.self_destruct_6780 a) s = some (Ops.self_destruct_6780 s a)
  step (Op.suicide a) s = some (Ops.suicide s a).1
  step (Op.add_address a) s = some (Ops.add_address_to_access_list s a)
  step (Op.sub_balance a x) s = some (Ops.sub_balance s a x)
  step (Op.add_balance a x) s = some (Ops.add_balance s a x)
  step (Op.set_balance a x) s = some (Ops.set_balance s a x)
  step (Op.set_nonce a n) s = some (Ops.set_nonce s a n)
  step (Op.set_code a code) s = some (Ops.set_code b s a code)
  step (Op.add_refund n) s = some (Ops.add_refund s n)
  step (Op.sub_refund n) s = some (Ops.sub_refund s n)
  step (Op.set_state a slot v) s = some (Ops.set_state b s a slot v)
  step (Op.set_transient_state a slot v) s = some (Ops.set_transient_state s a slot v)
  step (Op.set_storage a m) s = some (Ops.set_storage s a m)
  step (Op.add_slot a slot) s = Ops.add_slot_to_access_list s a slot
  step (Op.get_balance a) s = some (Ops.get_balance b s a).1
  step (Op.get_nonce a) s = some (Ops.get_nonce b s a).1
  step (Op.get_code a) s = some (Ops.get_code b s a).1
  step (Op.get_code_hash a) s = some (Ops.get_code_hash b s a).1
  step (Op.has_suicided a) s = some (Ops.has_suicided s a).1
  step (Op.exist a) s = some (Ops.exist b s a).1
  step (Op.empty a) s = some (Ops.empty b s a).1
  step (Op.get_state a slot) s = some (Ops.get_state b s a slot).1
  step (Op.get_committed_state a slot) s = some (Ops.get_committed_state b s a slot).1

  unfoldable pub end_scope : ℕ → Bool → StateDb → Option StateDb
  end_scope snap failed s = if failed then revert_to_snapshot snap s else some s

  unfoldable pub run : Script → StateDb → Option StateDb
  unfolding step end_scope
  run done s = some s
  run (op o rest) s = do s' ← step o s; run rest s'
  run (scope inner failed rest) s = do
    s1 ← run inner s
    s2 ← end_scope (snapshot s) failed s1
    run rest s2
