-- ===== src/Vm/GasTable/Sstore.antt =====
-- The three gas functions of SSTORE: gasSStore (legacy and EIP-1283) and gasSStoreEIP2200 of
-- vm/gas_table.go, and makeGasSStoreFunc of vm/operations_acl.go (EIP-2929, EIP-3529).
pub mod Net
pub mod Refund
pub mod Runs
use cardinal_evm.Prelude.{ℕ, ◌+◌, ◌-◌, ◌==◌, leb, Bool, true, false, not, ◌&&◌, ◌||◌, if◌then◌else◌}
use cardinal_evm.Prelude.{◌≡◌, refl, arith}
use cardinal_evm.State.Account.{Address, Hash, Backend}
use cardinal_evm.State.Db.{StateDb}
use cardinal_evm.State.Db.Ops
use cardinal_evm.Vm.Uint256.{Uint256}
use cardinal_evm.Vm.Params
use cardinal_evm.Vm.Frame.{
  Frame, Outcome, ok, err, panic, reentrancy_sentry, M, ◌>>=◌, ◌>>◌, pure, fail,
}
use cardinal_evm.Vm.Frame.{gets, back, ask, tell, tell_checked, ask_checked}

-- The prices and refunds by which the net-metered versions differ.
pub record Schedule : Type 0 where
  pub noop : ℕ
  pub init : ℕ
  pub clean : ℕ
  pub dirty : ℕ
  pub clear_refund : ℕ
  pub reset_clear_refund : ℕ
  pub reset_refund : ℕ

-- The statements after the test for a no-op that change the refund counter of a dirty slot.
unfoldable pub adjust_cleared : Schedule → Hash → Hash → Hash → StateDb → StateDb
adjust_cleared p original current value db =
    if original == 0
    then db
    else if current == 0
    then Ops.sub_refund db p.clear_refund
    else if value == 0
    then Ops.add_refund db p.clear_refund
    else db

unfoldable pub adjust_reset : Schedule → Hash → Hash → StateDb → StateDb
adjust_reset p original value db =
    if original == value
    then if original == 0
      then Ops.add_refund db p.reset_clear_refund
      else Ops.add_refund db p.reset_refund
    else db

-- The cost of a write of `value` where `original` and `current` are read from the state, with the
-- refunds that it makes.
unfoldable pub net_cost : Schedule → Hash → Hash → Hash → StateDb → ℕ × StateDb
unfolding adjust_cleared adjust_reset
net_cost p original current value db =
    if original == current
    then if original == 0
      then (p.init, db)
      else (p.clean, if value == 0 then Ops.add_refund db p.clear_refund else db)
    else (p.dirty, adjust_reset p original value (adjust_cleared p original current value db))

abbrev pub eip1283 : Schedule
eip1283 = record {
  noop = Params.net_sstore_noop_gas;
  init = Params.net_sstore_init_gas;
  clean = Params.net_sstore_clean_gas;
  dirty = Params.net_sstore_dirty_gas;
  clear_refund = Params.net_sstore_clear_refund;
  reset_clear_refund = Params.net_sstore_reset_clear_refund;
  reset_refund = Params.net_sstore_reset_refund;
}

abbrev pub eip2200 : Schedule
eip2200 = record {
  noop = Params.sload_gas_eip2200;
  init = Params.sstore_set_gas_eip2200;
  clean = Params.sstore_reset_gas_eip2200;
  dirty = Params.sload_gas_eip2200;
  clear_refund = Params.sstore_clears_schedule_refund_eip2200;
  reset_clear_refund = Params.sstore_set_gas_eip2200 - Params.sload_gas_eip2200;
  reset_refund = Params.sstore_reset_gas_eip2200 - Params.sload_gas_eip2200;
}

-- makeGasSStoreFunc(clearingRefund), but for the price of a cold slot.
abbrev pub eip2929 : ℕ → Schedule
eip2929 clearing_refund = record {
  noop = Params.warm_storage_read_cost_eip2929;
  init = Params.sstore_set_gas_eip2200;
  clean = Params.sstore_reset_gas_eip2200 - Params.cold_sload_cost_eip2929;
  dirty = Params.warm_storage_read_cost_eip2929;
  clear_refund = clearing_refund;
  reset_clear_refund = Params.sstore_set_gas_eip2200 - Params.warm_storage_read_cost_eip2929;
  reset_refund =
      Params.sstore_reset_gas_eip2200 - Params.cold_sload_cost_eip2929
      - Params.warm_storage_read_cost_eip2929;
}

module _ (u : Uint256) (b : Backend) where
  -- The net-metered part: a no-op, or the cost by the original value.
  unfoldable pub net_metered : Schedule → Address → Hash → Hash → Hash → StateDb → ℕ × StateDb
  unfolding net_cost
  net_metered p a slot current value db =
      if current == value
      then (p.noop, db)
      else (let (original, db') = Ops.get_committed_state b db a slot in
          net_cost p original current value db')

  unfoldable pub legacy_cost : Hash → ℕ → M ℕ
  legacy_cost current y =
      if (current == 0) && not (u.is_zero y)
      then pure Params.sstore_set_gas
      else if not (current == 0) && u.is_zero y
      then tell (λ db. Ops.add_refund db Params.sstore_refund_gas) >> pure Params.sstore_clear_gas
      else pure Params.sstore_reset_gas

  unfoldable pub gas_sstore : ℕ → M ℕ
  unfolding legacy_cost
  gas_sstore memory_size = do
    y ← back 1
    x ← back 0
    a ← gets (λ f. f.address)
    current ← ask (λ db. Ops.get_state b db a (u.bytes32 x))
    rules ← gets (λ f. f.rules)
    if rules.is_petersburg || not rules.is_constantinople
        then legacy_cost current y
        else ask (net_metered eip1283 a (u.bytes32 x) current (u.bytes32 y))

  unfoldable pub after_sentry : M ℕ → M ℕ
  after_sentry m = do
    gas ← gets (λ f. f.gas)
    if leb gas Params.sstore_sentry_gas_eip2200 then fail reentrancy_sentry else m

  unfoldable pub gas_sstore_eip2200 : ℕ → M ℕ
  unfolding after_sentry
  gas_sstore_eip2200 memory_size = after_sentry do
    y ← back 1
    x ← back 0
    a ← gets (λ f. f.address)
    current ← ask (λ db. Ops.get_state b db a (u.bytes32 x))
    ask (net_metered eip2200 a (u.bytes32 x) current (u.bytes32 y))

  -- A cold slot is put on the access list and costs more; an address that is not on the list is the
  -- panic that the source calls impossible.
  unfoldable pub cold_cost : Address → Hash → Bool × Bool → M ℕ
  cold_cost a slot (address_present, true) = pure 0
  cold_cost a slot (address_present, false) = do
    tell_checked (λ db. Ops.add_slot_to_access_list db a slot)
    if address_present then pure Params.cold_sload_cost_eip2929 else (λ f. (panic, f))

  unfoldable pub make_gas_sstore_func : ℕ → ℕ → M ℕ
  unfolding after_sentry cold_cost
  make_gas_sstore_func clearing_refund memory_size = after_sentry do
    y ← back 1
    x ← back 0
    a ← gets (λ f. f.address)
    current ← ask (λ db. Ops.get_state b db a (u.bytes32 x))
    listed ← ask_checked (λ db. Ops.slot_in_access_list db a (u.bytes32 x))
    cost ← cold_cost a (u.bytes32 x) listed
    net ← ask (net_metered (eip2929 clearing_refund) a (u.bytes32 x) current (u.bytes32 y))
    pure (cost + net)

  unfoldable pub gas_sstore_eip2929 : ℕ → M ℕ
  gas_sstore_eip2929 = make_gas_sstore_func Params.sstore_clears_schedule_refund_eip2200

  unfoldable pub gas_sstore_eip3529 : ℕ → M ℕ
  gas_sstore_eip3529 = make_gas_sstore_func Params.sstore_clears_schedule_refund_eip3529
