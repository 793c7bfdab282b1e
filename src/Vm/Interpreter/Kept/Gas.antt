-- ===== src/Vm/Interpreter/Kept/Gas.antt =====
-- The state after a gas function (vm/gas_table.go, vm/operations_acl.go).
use cardinal_evm.Prelude.{
  ℕ, ◌≡◌, ◌==◌, ◌+◌, leb, not, ◌&&◌, ◌||◌, arith, refl, Bool, true, false, Option, none, some,
  if◌then◌else◌,
}
use cardinal_evm.Prelude.Int.{is_zero_ℤ}
use cardinal_evm.State.Account.{Address, Hash, Backend}
use cardinal_evm.State.Db.{StateDb}
use cardinal_evm.State.Db.Kept.{Kept, Kept-refl, Kept-same, Kept-trans, Kept-if, Kept-if_pair}
use cardinal_evm.State.Db.Ops
use cardinal_evm.State.Db.Kept.Methods.{
  get_state-Kept, get_committed_state-Kept, add_refund-Kept, sub_refund-Kept, empty-Kept,
  exist-Kept, get_code-Kept, get_balance-Kept, has_suicided-Kept, add_address-Kept, add_slot-Kept,
}
use cardinal_evm.Vm.Uint256.{Uint256}
use cardinal_evm.Vm.Math.{safe_add}
use cardinal_evm.Vm.Params
use cardinal_evm.Vm.Frame
use cardinal_evm.Vm.Frame.{
  Frame, Outcome, ok, err, panic, M, ◌>>=◌, ◌>>◌, pure, back, checked, ask, tell, tell_checked,
}
use cardinal_evm.Vm.GasTable
use cardinal_evm.Vm.GasTable.{memory_gas_cost}
use cardinal_evm.Vm.GasTable.Sstore
use cardinal_evm.Vm.GasTable.Sstore.{Schedule}
use cardinal_evm.Vm.GasTable.Calls
use cardinal_evm.Vm.GasTable.Calls.Cold
use cardinal_evm.Vm.GasTable.Calls.Keeps.{
  Call, call, call_code, delegate_call, static_call, calculator,
}
use cardinal_evm.Vm.JumpTable.Operation.{
  GasFunc, sstore_gas, sstore_eip2200_gas, sstore_eip2929_gas, sstore_eip3529_gas,
  sload_eip2929_gas, ext_code_copy_eip2929_gas, account_check_eip2929_gas, call_gas, call_code_gas,
  delegate_call_gas, static_call_gas, call_eip2929_gas, call_code_eip2929_gas,
  delegate_call_eip2929_gas, static_call_eip2929_gas, call_eip7702_gas, call_code_eip7702_gas,
  delegate_call_eip7702_gas, static_call_eip7702_gas, selfdestruct_gas, selfdestruct_eip2929_gas,
  selfdestruct_eip3529_gas,
}
use cardinal_evm.Vm.Interpreter.Dispatch.{gas_of}

module _ (b : Backend) where
  pub KeepsDb : {A : Type 0} → M A → Type 0
  KeepsDb m = (f : Frame) → Kept b f.db (m f).1.db

  pub at_frame : {A : Type 0} (m : M A) → KeepsDb m → (f : Frame) → Kept b f.db (m f).1.db
  unfolding KeepsDb
  at_frame m h = h

  still : {A : Type 0} (m : M A) → ((f : Frame) → (m f).1.db ≡ f.db) → KeepsDb m
  unfolding KeepsDb
  still m h f = Kept-same b f.db (m f).1.db (h f)

  bind-KeepsDb :
      {A B : Type 0} (m : M A) (k : A → M B)
      → KeepsDb m
      → ((a : A) → KeepsDb (k a))
      → KeepsDb (m >>= k)
  unfolding KeepsDb
  bind-KeepsDb {A} m k hm hk f = continued (m f) (hm f)
    where
      continued :
          (r : Outcome A × Frame) → Kept b f.db r.1.db → Kept b f.db (((λ g. r) >>= k) r.1).1.db
      continued (ok a, f') h' = Kept-trans b f.db f'.db (k a f').1.db h' (hk a f')
      continued (err x, f') h' = h'
      continued (panic, f') h' = h'

  if-KeepsDb :
      {A : Type 0} (t : Bool) (m n : M A) → KeepsDb m → KeepsDb n → KeepsDb (if t then m else n)
  if-KeepsDb true m n h k = h
  if-KeepsDb false m n h k = k

  pure-KeepsDb : {A : Type 0} (a : A) → KeepsDb (pure a)
  pure-KeepsDb a = still (pure a) (λ f. refl)

  gets-KeepsDb : {A : Type 0} (g : Frame → A) → KeepsDb (Frame.gets g)
  gets-KeepsDb g = still (Frame.gets g) (λ f. refl)

  back-KeepsDb : (n : ℕ) → KeepsDb (back n)
  back-KeepsDb n = still (back n) (λ f. refl)

  checked-KeepsDb : (r : ℕ × Bool) → KeepsDb (checked r)
  checked-KeepsDb r = still (checked r) (λ f. refl)

  ask-KeepsDb :
      {A : Type 0} (g : StateDb → A × StateDb)
      → ((db : StateDb) → Kept b db (g db).1)
      → KeepsDb (ask g)
  unfolding KeepsDb
  ask-KeepsDb g h f = h f.db

  tell-KeepsDb : (g : StateDb → StateDb) → ((db : StateDb) → Kept b db (g db)) → KeepsDb (tell g)
  unfolding KeepsDb
  tell-KeepsDb g h f = h f.db

  tell_checked-KeepsDb :
      (g : StateDb → Option StateDb)
      → ((db t : StateDb) → g db ≡ some t → Kept b db t)
      → KeepsDb (tell_checked g)
  unfolding KeepsDb
  tell_checked-KeepsDb g h f = told (g f.db) (h f.db)
    where
      told :
          (r : Option StateDb)
          → ((t : StateDb) → r ≡ some t → Kept b f.db t)
          → Kept b f.db
              (elim r as (λ q. Outcome (Unit {0}) × Frame) [
                | none ↦ (panic, f)
                | some db ↦ (ok tt, record f { db = db })
              ]).1.db
      told none k = Kept-refl b f.db
      told (some t) k = k t refl

  touch-KeepsDb : (a : Address) → KeepsDb (Cold.touch a)
  unfolding Cold.touch
  touch-KeepsDb a = bind-KeepsDb _ _ (gets-KeepsDb _) (λ warm.
      if-KeepsDb warm _ _ (pure-KeepsDb true) (
        bind-KeepsDb _ _ (tell-KeepsDb _ (λ db. add_address-Kept b db a))
          (λ done. pure-KeepsDb false)))

  memory_gas_cost-KeepsDb : (size : ℕ) → KeepsDb (memory_gas_cost size)
  unfolding memory_gas_cost
  memory_gas_cost-KeepsDb size = still _ (λ f. ground arith)

  charge_now-KeepsDb : (cost : ℕ) → KeepsDb (Cold.charge_now cost)
  unfolding Cold.charge_now Frame.use_gas
  charge_now-KeepsDb cost = still _ (λ f. ground arith)

  charge_unless-KeepsDb : (warm : Bool) (cost : ℕ) → KeepsDb (Cold.charge_unless warm cost)
  unfolding Cold.charge_unless
  charge_unless-KeepsDb true cost = pure-KeepsDb 0
  charge_unless-KeepsDb false cost =
      bind-KeepsDb _ _ (charge_now-KeepsDb cost) (λ done. pure-KeepsDb cost)

  give_back-KeepsDb : (cost : ℕ) → KeepsDb (Cold.give_back cost)
  unfolding Cold.give_back
  give_back-KeepsDb cost = still _ (λ f. refl)

  resolve_delegation-KeepsDb : (target : Option Address) → KeepsDb (Cold.resolve_delegation target)
  unfolding Cold.resolve_delegation
  resolve_delegation-KeepsDb none = pure-KeepsDb 0
  resolve_delegation-KeepsDb (some a) =
      bind-KeepsDb _ _ (touch-KeepsDb a) (λ warm. charge_unless-KeepsDb false _)

  adjust_cleared-Kept :
      (p : Schedule) (original current value : Hash) (db : StateDb)
      → Kept b db (Sstore.adjust_cleared p original current value db)
  unfolding Sstore.adjust_cleared
  adjust_cleared-Kept p original current value db =
      Kept-if b (original == 0) db _ _ (Kept-refl b db) (
        Kept-if b (current == 0) db _ _ (sub_refund-Kept b db _)
          (Kept-if b (value == 0) db _ _ (add_refund-Kept b db _) (Kept-refl b db)))

  adjust_reset-Kept :
      (p : Schedule) (original value : Hash) (db : StateDb)
      → Kept b db (Sstore.adjust_reset p original value db)
  unfolding Sstore.adjust_reset
  adjust_reset-Kept p original value db =
      Kept-if b (original == value) db _ _
        (Kept-if b (original == 0) db _ _ (add_refund-Kept b db _) (add_refund-Kept b db _))
        (Kept-refl b db)

  net_cost-Kept :
      (p : Schedule) (original current value : Hash) (db : StateDb)
      → Kept b db (Sstore.net_cost p original current value db).1
  unfolding Sstore.net_cost
  net_cost-Kept p original current value db =
      Kept-if_pair b (original == current) db _ _
        (Kept-if_pair b (original == 0) db _ _ (Kept-refl b db)
          (Kept-if b (value == 0) db _ _ (add_refund-Kept b db _) (Kept-refl b db)))
        (Kept-trans b db _ _ (adjust_cleared-Kept p original current value db)
          (adjust_reset-Kept p original value _))

  module _ (u : Uint256) where
    net_metered-Kept :
        (p : Schedule) (a : Address) (slot current value : Hash) (db : StateDb)
        → Kept b db (Sstore.net_metered u b p a slot current value db).1
    unfolding Sstore.net_metered
    net_metered-Kept p a slot current value db =
        Kept-if_pair b (current == value) db _ _ (Kept-refl b db) (
          Kept-trans b db _ _ (get_committed_state-Kept b db a slot)
            (net_cost-Kept p _ current value _))

    legacy_cost-KeepsDb : (current y : ℕ) → KeepsDb (Sstore.legacy_cost u b current y)
    unfolding Sstore.legacy_cost
    legacy_cost-KeepsDb current y =
        if-KeepsDb ((current == 0) && not (u.is_zero y)) _ _ (pure-KeepsDb Params.sstore_set_gas) (
          if-KeepsDb (not (current == 0) && u.is_zero y) _ _
            (bind-KeepsDb {B = ℕ} (tell (λ db. Ops.add_refund db Params.sstore_refund_gas))
              (λ done. pure Params.sstore_clear_gas)
              (tell-KeepsDb _ (λ db. add_refund-Kept b db Params.sstore_refund_gas))
              (λ done. pure-KeepsDb Params.sstore_clear_gas))
            (pure-KeepsDb Params.sstore_reset_gas))

    gas_sstore-KeepsDb : (size : ℕ) → KeepsDb (Sstore.gas_sstore u b size)
    unfolding Sstore.gas_sstore
    gas_sstore-KeepsDb size = bind-KeepsDb _ _ (back-KeepsDb 1) (λ y.
        bind-KeepsDb _ _ (back-KeepsDb 0) (λ x.
          bind-KeepsDb _ _ (gets-KeepsDb (λ f. f.address)) (λ a.
            bind-KeepsDb _ _
              (ask-KeepsDb (λ db. Ops.get_state b db a (u.bytes32 x))
                (λ db. get_state-Kept b db a (u.bytes32 x)))
              (λ current. bind-KeepsDb _ _ (gets-KeepsDb (λ f. f.rules)) (λ rules.
                if-KeepsDb (rules.is_petersburg || not rules.is_constantinople) _ _
                  (legacy_cost-KeepsDb current y)
                  (ask-KeepsDb
                    (Sstore.net_metered u b Sstore.eip1283 a (u.bytes32 x) current (u.bytes32 y))
                    (λ db.
                      net_metered-Kept Sstore.eip1283 a (u.bytes32 x) current (u.bytes32 y)
                        db)))))))

    sentry-KeepsDb :
        (m : M ℕ)
        → KeepsDb m
        → KeepsDb (
            Frame.gets (λ f. f.gas) >>= λ gas.
            if leb gas Params.sstore_sentry_gas_eip2200
            then Frame.fail Frame.reentrancy_sentry
            else m)
    sentry-KeepsDb m h = bind-KeepsDb {A = ℕ} (Frame.gets (λ f. f.gas)) _ (gets-KeepsDb _) (λ gas.
        if-KeepsDb (leb gas Params.sstore_sentry_gas_eip2200) _ _
          (still (Frame.fail Frame.reentrancy_sentry) (λ f. refl)) h)

    gas_sstore_eip2200-KeepsDb : (size : ℕ) → KeepsDb (Sstore.gas_sstore_eip2200 u b size)
    unfolding Sstore.gas_sstore_eip2200
    gas_sstore_eip2200-KeepsDb size = sentry-KeepsDb _ (
        bind-KeepsDb _ _ (back-KeepsDb 1) (λ y. bind-KeepsDb _ _ (back-KeepsDb 0) (λ x.
          bind-KeepsDb _ _ (gets-KeepsDb (λ f. f.address)) (λ a.
            bind-KeepsDb _ _
              (ask-KeepsDb (λ db. Ops.get_state b db a (u.bytes32 x))
                (λ db. get_state-Kept b db a (u.bytes32 x)))
              (λ current.
                ask-KeepsDb
                  (Sstore.net_metered u b Sstore.eip2200 a (u.bytes32 x) current (u.bytes32 y))
                  (λ db.
                    net_metered-Kept Sstore.eip2200 a (u.bytes32 x) current (u.bytes32 y) db))))))

    cold_cost-KeepsDb :
        (a : Address) (slot : Hash) (listed : Bool × Bool)
        → KeepsDb (Sstore.cold_cost u b a slot listed)
    unfolding Sstore.cold_cost
    cold_cost-KeepsDb a slot (present, true) = pure-KeepsDb 0
    cold_cost-KeepsDb a slot (present, false) =
        bind-KeepsDb _ _ (tell_checked-KeepsDb _ (λ db t e. add_slot-Kept b db a slot t e))
          (λ done. if-KeepsDb present _ _ (pure-KeepsDb _) (still (λ f. (panic, f)) (λ f. refl)))

    make_gas_sstore_func-KeepsDb :
        (clearing size : ℕ) → KeepsDb (Sstore.make_gas_sstore_func u b clearing size)
    unfolding Sstore.make_gas_sstore_func
    make_gas_sstore_func-KeepsDb clearing size = sentry-KeepsDb _ (
        bind-KeepsDb _ _ (back-KeepsDb 1) (λ y. bind-KeepsDb _ _ (back-KeepsDb 0) (λ x.
          bind-KeepsDb _ _ (gets-KeepsDb (λ f. f.address)) (λ a.
            bind-KeepsDb _ _
              (ask-KeepsDb (λ db. Ops.get_state b db a (u.bytes32 x))
                (λ db. get_state-Kept b db a (u.bytes32 x)))
              (λ current.
                bind-KeepsDb _ _
                  (still (Frame.ask_checked (λ db. Ops.slot_in_access_list db a (u.bytes32 x)))
                    (λ f. refl))
                  (λ listed. bind-KeepsDb _ _ (cold_cost-KeepsDb a (u.bytes32 x) listed) (λ cost.
                    bind-KeepsDb _ _
                      (ask-KeepsDb
                        (Sstore.net_metered u b (Sstore.eip2929 clearing) a (u.bytes32 x) current
                          (u.bytes32 y))
                        (λ db.
                          net_metered-Kept (Sstore.eip2929 clearing) a (u.bytes32 x) current
                            (u.bytes32 y) db))
                      (λ net. pure-KeepsDb (cost + net)))))))))

    gas_sload_eip2929-KeepsDb : (size : ℕ) → KeepsDb (Cold.gas_sload_eip2929 u b size)
    unfolding Cold.gas_sload_eip2929
    gas_sload_eip2929-KeepsDb size = bind-KeepsDb _ _ (back-KeepsDb 0) (λ loc.
        bind-KeepsDb _ _ (gets-KeepsDb (λ f. f.address)) (λ a.
          bind-KeepsDb {A = Bool × Bool} _ _
            (still (Frame.ask_checked (λ db. Ops.slot_in_access_list db a (u.bytes32 loc)))
              (λ f. refl))
            (λ listed.
              if-KeepsDb listed.1 _ _ (pure-KeepsDb Params.warm_storage_read_cost_eip2929) (
                bind-KeepsDb _ _
                  (tell_checked-KeepsDb (λ db. Ops.add_slot_to_access_list db a (u.bytes32 loc))
                    (λ db t e. add_slot-Kept b db a (u.bytes32 loc) t e))
                  (λ done. pure-KeepsDb Params.cold_sload_cost_eip2929)))))

    account_check-KeepsDb : (size : ℕ) → KeepsDb (Cold.gas_eip2929_account_check u b size)
    unfolding Cold.gas_eip2929_account_check
    account_check-KeepsDb size = bind-KeepsDb _ _ (back-KeepsDb 0) (λ item.
        bind-KeepsDb _ _ (touch-KeepsDb (u.bytes20 item))
          (λ warm. pure-KeepsDb (if warm then 0 else Cold.cold_cost)))

    memory_copier_gas-KeepsDb : (n size : ℕ) → KeepsDb (GasTable.memory_copier_gas u n size)
    unfolding GasTable.memory_copier_gas GasTable.memory_gas_cost
    memory_copier_gas-KeepsDb n size = still _ (λ f. ground arith)

    ext_code_copy-KeepsDb : (size : ℕ) → KeepsDb (Cold.gas_ext_code_copy_eip2929 u b size)
    unfolding Cold.gas_ext_code_copy_eip2929
    ext_code_copy-KeepsDb size = bind-KeepsDb _ _ (memory_copier_gas-KeepsDb 3 size) (λ gas.
        bind-KeepsDb _ _ (back-KeepsDb 0) (λ item.
          bind-KeepsDb _ _ (touch-KeepsDb (u.bytes20 item)) (λ warm.
            if-KeepsDb warm _ _ (pure-KeepsDb gas)
              (checked-KeepsDb (safe_add gas Cold.cold_cost)))))

    add_call_gas-KeepsDb : (gas : ℕ) → KeepsDb (Calls.add_call_gas u gas)
    unfolding Calls.add_call_gas Calls.record_call_gas
    add_call_gas-KeepsDb gas = still _ (λ f. ground arith)

    new_account-KeepsDb :
        (price : ℕ) (a : Address) (t : M Bool)
        → KeepsDb t
        → KeepsDb (Calls.new_account u b price a t)
    unfolding Calls.new_account
    new_account-KeepsDb price a t h = bind-KeepsDb _ _ (gets-KeepsDb (λ f. f.rules)) (λ rules.
        if-KeepsDb rules.is_eip158 _ _
          (bind-KeepsDb _ _ (ask-KeepsDb (λ db. Ops.empty b db a) (λ db. empty-Kept b db a))
            (λ empty.
              if-KeepsDb empty _ _ (bind-KeepsDb t _ h (λ q. pure-KeepsDb (if q then price else 0)))
                (pure-KeepsDb 0)))
          (bind-KeepsDb _ _ (ask-KeepsDb (λ db. Ops.exist b db a) (λ db. exist-Kept b db a))
            (λ there. pure-KeepsDb (if there then 0 else price))))

    new_callee-KeepsDb : (a : Address) (t : Bool) → KeepsDb (Calls.new_callee u b a t)
    unfolding Calls.new_callee
    new_callee-KeepsDb a t = bind-KeepsDb _ _ (gets-KeepsDb (λ f. f.rules)) (λ rules.
        if-KeepsDb (rules.is_eip158 && not t) _ _ (pure-KeepsDb 0)
          (new_account-KeepsDb Params.call_new_account_gas a (pure true) (pure-KeepsDb true)))

    refund_selfdestruct-KeepsDb : KeepsDb (Calls.refund_selfdestruct u b)
    unfolding Calls.refund_selfdestruct
    refund_selfdestruct-KeepsDb = bind-KeepsDb _ _ (gets-KeepsDb (λ f. f.address)) (λ a.
        bind-KeepsDb _ _
          (ask-KeepsDb (λ db. Ops.has_suicided db a) (λ db. has_suicided-Kept b db a))
          (λ suicided. if-KeepsDb suicided _ _ (pure-KeepsDb tt) (
            tell-KeepsDb (λ db. Ops.add_refund db Params.selfdestruct_refund_gas)
              (λ db. add_refund-Kept b db Params.selfdestruct_refund_gas))))

    has_balance-KeepsDb : KeepsDb (Calls.has_balance u b)
    unfolding Calls.has_balance
    has_balance-KeepsDb = bind-KeepsDb _ _ (gets-KeepsDb (λ f. f.address)) (λ a.
        bind-KeepsDb _ _
          (ask-KeepsDb (λ db. Ops.get_balance b db a) (λ db. get_balance-Kept b db a))
          (λ balance. pure-KeepsDb (not (is_zero_ℤ balance))))

    repriced-KeepsDb : KeepsDb (Calls.repriced u b)
    unfolding Calls.repriced
    repriced-KeepsDb = bind-KeepsDb _ _ (gets-KeepsDb (λ f. f.rules)) (λ rules.
        if-KeepsDb rules.is_eip150 _ _
          (bind-KeepsDb _ _ (back-KeepsDb 0) (λ item.
            bind-KeepsDb _ _
              (new_account-KeepsDb Params.create_by_selfdestruct_gas (u.bytes20 item) _
                has_balance-KeepsDb)
              (λ new. pure-KeepsDb (Params.selfdestruct_gas_eip150 + new))))
          (pure-KeepsDb 0))

    gas_selfdestruct-KeepsDb : (size : ℕ) → KeepsDb (Calls.gas_selfdestruct u b size)
    unfolding Calls.gas_selfdestruct
    gas_selfdestruct-KeepsDb size =
        bind-KeepsDb _ _ repriced-KeepsDb
          (λ gas. bind-KeepsDb _ _ refund_selfdestruct-KeepsDb (λ done. pure-KeepsDb gas))

    create_by_selfdestruct-KeepsDb : (a : Address) → KeepsDb (Cold.create_by_selfdestruct u b a)
    unfolding Cold.create_by_selfdestruct
    create_by_selfdestruct-KeepsDb a =
        bind-KeepsDb _ _ (ask-KeepsDb (λ db. Ops.empty b db a) (λ db. empty-Kept b db a)) (λ empty.
          if-KeepsDb empty _ _
            (bind-KeepsDb _ _ has_balance-KeepsDb
              (λ t. pure-KeepsDb (if t then Params.create_by_selfdestruct_gas else 0)))
            (pure-KeepsDb 0))

    make_selfdestruct-KeepsDb :
        (refunds : Bool) (size : ℕ) → KeepsDb (Cold.make_selfdestruct_gas_fn u b refunds size)
    unfolding Cold.make_selfdestruct_gas_fn
    make_selfdestruct-KeepsDb refunds size = bind-KeepsDb _ _ (back-KeepsDb 0) (λ item.
        bind-KeepsDb _ _ (touch-KeepsDb (u.bytes20 item)) (λ warm.
          bind-KeepsDb _ _ (create_by_selfdestruct-KeepsDb (u.bytes20 item)) (λ new.
            bind-KeepsDb _ _ (if-KeepsDb refunds _ _ refund_selfdestruct-KeepsDb (pure-KeepsDb tt))
              (λ done.
                pure-KeepsDb
                  ((if warm then 0 else Params.cold_account_access_cost_eip2929) + new)))))

    calculator-KeepsDb : (x : Call) (size : ℕ) → KeepsDb (calculator u b x size)
    unfolding Calls.gas_call Calls.gas_call_code Calls.gas_delegate_call Calls.gas_static_call
    calculator-KeepsDb delegate_call size =
        bind-KeepsDb _ _ (memory_gas_cost-KeepsDb size) add_call_gas-KeepsDb
    calculator-KeepsDb static_call size =
        bind-KeepsDb _ _ (memory_gas_cost-KeepsDb size) add_call_gas-KeepsDb
    calculator-KeepsDb call_code size = bind-KeepsDb _ _ (memory_gas_cost-KeepsDb size) (λ gas.
        bind-KeepsDb _ _ (back-KeepsDb 2)
          (λ value. bind-KeepsDb _ _ (checked-KeepsDb _) add_call_gas-KeepsDb))
    calculator-KeepsDb call size = bind-KeepsDb _ _ (back-KeepsDb 2) (λ value.
        bind-KeepsDb _ _ (back-KeepsDb 1) (λ callee.
          bind-KeepsDb _ _ (new_callee-KeepsDb _ _) (λ new.
            bind-KeepsDb _ _ (memory_gas_cost-KeepsDb size)
              (λ gas. bind-KeepsDb _ _ (checked-KeepsDb _) add_call_gas-KeepsDb))))

    charged_2929-KeepsDb :
        (x : Call) (size : ℕ) (warm : Bool)
        → KeepsDb (Cold.charged_2929 (calculator u b x) size warm)
    unfolding Cold.charged_2929
    charged_2929-KeepsDb x size true = calculator-KeepsDb x size
    charged_2929-KeepsDb x size false = bind-KeepsDb _ _ (charge_now-KeepsDb _) (λ done.
        bind-KeepsDb _ _ (calculator-KeepsDb x size)
          (λ gas. bind-KeepsDb _ _ (give_back-KeepsDb _) (λ back'. pure-KeepsDb _)))

    variant_2929-KeepsDb :
        (x : Call) (size : ℕ)
        → KeepsDb (Cold.make_call_variant_gas_call_eip2929 u b (calculator u b x) size)
    unfolding Cold.make_call_variant_gas_call_eip2929
    variant_2929-KeepsDb x size =
        bind-KeepsDb _ _ (back-KeepsDb 1)
          (λ item. bind-KeepsDb _ _ (touch-KeepsDb _) (charged_2929-KeepsDb x size))

    variant_7702-KeepsDb :
        (x : Call) (size : ℕ)
        → KeepsDb (Cold.make_call_variant_gas_call_eip7702 u b (calculator u b x) size)
    unfolding Cold.make_call_variant_gas_call_eip7702
    variant_7702-KeepsDb x size = bind-KeepsDb _ _ (back-KeepsDb 1) (λ item.
        bind-KeepsDb _ _ (touch-KeepsDb (u.bytes20 item)) (λ warm.
          bind-KeepsDb _ _ (charge_unless-KeepsDb warm Cold.cold_cost) (λ access.
            bind-KeepsDb _ _
              (ask-KeepsDb (λ db. Ops.get_code b db (u.bytes20 item))
                (λ db. get_code-Kept b db (u.bytes20 item)))
              (λ code.
                bind-KeepsDb _ _ (resolve_delegation-KeepsDb (Cold.parse_delegation code))
                  (λ resolution. bind-KeepsDb _ _ (calculator-KeepsDb x size) (λ old.
                    bind-KeepsDb _ _ (give_back-KeepsDb (access + resolution))
                      (λ back'. checked-KeepsDb (safe_add old (access + resolution)))))))))

    pub gas_of-KeepsDb : (g : GasFunc) (size : ℕ) → KeepsDb (gas_of u b g size)
    unfolding gas_of GasTable.gas_keccak256 GasTable.memory_copier_gas GasTable.pure_memory_gascost
        GasTable.gas_create2 GasTable.gas_create_eip3860 GasTable.gas_create2_eip3860
        GasTable.gas_exp_frontier GasTable.gas_exp_eip158 GasTable.make_gas_log
        GasTable.memory_gas_cost Sstore.gas_sstore_eip2929 Sstore.gas_sstore_eip3529
    gas_of-KeepsDb sstore_gas size = gas_sstore-KeepsDb size
    gas_of-KeepsDb sstore_eip2200_gas size = gas_sstore_eip2200-KeepsDb size
    gas_of-KeepsDb sstore_eip2929_gas size = make_gas_sstore_func-KeepsDb _ size
    gas_of-KeepsDb sstore_eip3529_gas size = make_gas_sstore_func-KeepsDb _ size
    gas_of-KeepsDb sload_eip2929_gas size = gas_sload_eip2929-KeepsDb size
    gas_of-KeepsDb ext_code_copy_eip2929_gas size = ext_code_copy-KeepsDb size
    gas_of-KeepsDb account_check_eip2929_gas size = account_check-KeepsDb size
    gas_of-KeepsDb call_gas size = calculator-KeepsDb call size
    gas_of-KeepsDb call_code_gas size = calculator-KeepsDb call_code size
    gas_of-KeepsDb delegate_call_gas size = calculator-KeepsDb delegate_call size
    gas_of-KeepsDb static_call_gas size = calculator-KeepsDb static_call size
    gas_of-KeepsDb call_eip2929_gas size = variant_2929-KeepsDb call size
    gas_of-KeepsDb call_code_eip2929_gas size = variant_2929-KeepsDb call_code size
    gas_of-KeepsDb delegate_call_eip2929_gas size = variant_2929-KeepsDb delegate_call size
    gas_of-KeepsDb static_call_eip2929_gas size = variant_2929-KeepsDb static_call size
    gas_of-KeepsDb call_eip7702_gas size = variant_7702-KeepsDb call size
    gas_of-KeepsDb call_code_eip7702_gas size = variant_7702-KeepsDb call_code size
    gas_of-KeepsDb delegate_call_eip7702_gas size = variant_7702-KeepsDb delegate_call size
    gas_of-KeepsDb static_call_eip7702_gas size = variant_7702-KeepsDb static_call size
    gas_of-KeepsDb selfdestruct_gas size = gas_selfdestruct-KeepsDb size
    gas_of-KeepsDb selfdestruct_eip2929_gas size = make_selfdestruct-KeepsDb true size
    gas_of-KeepsDb selfdestruct_eip3529_gas size = make_selfdestruct-KeepsDb false size
    gas_of-KeepsDb g size = still _ (λ f. ground arith)
