-- ===== src/State/Db/Kept/Methods.antt =====
-- The promise of State/Db/Kept.antt for each method of the StateDB interface.
use cardinal_evm.Prelude.{ℕ, ◌≡◌, refl, some, ℤ}
use cardinal_evm.State.Account.{Address, Hash, Bytes, Backend}
use cardinal_evm.State.Db.{StateDb}
use cardinal_evm.State.Db.Kept.{Kept, step-Kept}
use cardinal_evm.State.Db.Ops
use cardinal_evm.State.Db.Run.{Op, step}

module _ (b : Backend) where
  pub get_state-Kept :
      (db : StateDb) (a : Address) (k : Hash) → Kept b db (Ops.get_state b db a k).1
  unfolding step
  get_state-Kept db a k = step-Kept b (Op.get_state a k) db _ refl

  pub get_committed_state-Kept :
      (db : StateDb) (a : Address) (k : Hash) → Kept b db (Ops.get_committed_state b db a k).1
  unfolding step
  get_committed_state-Kept db a k = step-Kept b (Op.get_committed_state a k) db _ refl

  pub add_refund-Kept : (db : StateDb) (n : ℕ) → Kept b db (Ops.add_refund db n)
  unfolding step
  add_refund-Kept db n = step-Kept b (Op.add_refund n) db _ refl

  pub sub_refund-Kept : (db : StateDb) (n : ℕ) → Kept b db (Ops.sub_refund db n)
  unfolding step
  sub_refund-Kept db n = step-Kept b (Op.sub_refund n) db _ refl

  pub empty-Kept : (db : StateDb) (a : Address) → Kept b db (Ops.empty b db a).1
  unfolding step
  empty-Kept db a = step-Kept b (Op.empty a) db _ refl

  pub exist-Kept : (db : StateDb) (a : Address) → Kept b db (Ops.exist b db a).1
  unfolding step
  exist-Kept db a = step-Kept b (Op.exist a) db _ refl

  pub get_code-Kept : (db : StateDb) (a : Address) → Kept b db (Ops.get_code b db a).1
  unfolding step
  get_code-Kept db a = step-Kept b (Op.get_code a) db _ refl

  pub get_code_hash-Kept : (db : StateDb) (a : Address) → Kept b db (Ops.get_code_hash b db a).1
  unfolding step
  get_code_hash-Kept db a = step-Kept b (Op.get_code_hash a) db _ refl

  pub get_nonce-Kept : (db : StateDb) (a : Address) → Kept b db (Ops.get_nonce b db a).1
  unfolding step
  get_nonce-Kept db a = step-Kept b (Op.get_nonce a) db _ refl

  pub get_balance-Kept : (db : StateDb) (a : Address) → Kept b db (Ops.get_balance b db a).1
  unfolding step
  get_balance-Kept db a = step-Kept b (Op.get_balance a) db _ refl

  pub has_suicided-Kept : (db : StateDb) (a : Address) → Kept b db (Ops.has_suicided db a).1
  unfolding step
  has_suicided-Kept db a = step-Kept b (Op.has_suicided a) db _ refl

  pub add_address-Kept :
      (db : StateDb) (a : Address) → Kept b db (Ops.add_address_to_access_list db a)
  unfolding step
  add_address-Kept db a = step-Kept b (Op.add_address a) db _ refl

  pub create_account-Kept : (db : StateDb) (a : Address) → Kept b db (Ops.create_account b db a)
  unfolding step
  create_account-Kept db a = step-Kept b (Op.create_account a) db _ refl

  pub set_nonce-Kept : (db : StateDb) (a : Address) (n : ℕ) → Kept b db (Ops.set_nonce db a n)
  unfolding step
  set_nonce-Kept db a n = step-Kept b (Op.set_nonce a n) db _ refl

  pub set_code-Kept :
      (db : StateDb) (a : Address) (code : Bytes) → Kept b db (Ops.set_code b db a code)
  unfolding step
  set_code-Kept db a code = step-Kept b (Op.set_code a code) db _ refl

  pub set_state-Kept :
      (db : StateDb) (a : Address) (k v : Hash) → Kept b db (Ops.set_state b db a k v)
  unfolding step
  set_state-Kept db a k v = step-Kept b (Op.set_state a k v) db _ refl

  pub set_transient_state-Kept :
      (db : StateDb) (a : Address) (k v : Hash) → Kept b db (Ops.set_transient_state db a k v)
  unfolding step
  set_transient_state-Kept db a k v = step-Kept b (Op.set_transient_state a k v) db _ refl

  pub add_balance-Kept : (db : StateDb) (a : Address) (x : ℤ) → Kept b db (Ops.add_balance db a x)
  unfolding step
  add_balance-Kept db a x = step-Kept b (Op.add_balance a x) db _ refl

  pub sub_balance-Kept : (db : StateDb) (a : Address) (x : ℤ) → Kept b db (Ops.sub_balance db a x)
  unfolding step
  sub_balance-Kept db a x = step-Kept b (Op.sub_balance a x) db _ refl

  pub suicide-Kept : (db : StateDb) (a : Address) → Kept b db (Ops.suicide db a).1
  unfolding step
  suicide-Kept db a = step-Kept b (Op.suicide a) db _ refl

  pub self_destruct_6780-Kept :
      (db : StateDb) (a : Address) → Kept b db (Ops.self_destruct_6780 db a)
  unfolding step
  self_destruct_6780-Kept db a = step-Kept b (Op.self_destruct_6780 a) db _ refl

  pub add_slot-Kept :
      (db : StateDb) (a : Address) (k : Hash) (t : StateDb)
      → Ops.add_slot_to_access_list db a k ≡ some t
      → Kept b db t
  unfolding step
  add_slot-Kept db a k t e = step-Kept b (Op.add_slot a k) db t e
