-- ===== src/Vm/GasTable/Calls.antt =====
-- The gas functions of the calls: callGas of vm/gas.go, gasCall to gasSelfdestruct of
-- vm/gas_table.go.
pub mod Cold
pub mod AllBut
pub mod Keeps
pub mod Settled
use cardinal_evm.Prelude.{ℕ, ◌+◌, ◌/◌, ltb, Bool, true, false, not, ◌&&◌, ◌||◌, if◌then◌else◌}
use cardinal_evm.Prelude.{sub64, add64, is_zero_ℤ}
use cardinal_evm.State.Account.{Address, Backend}
use cardinal_evm.State.Db.Ops
use cardinal_evm.Vm.Uint256.{Uint256}
use cardinal_evm.Vm.Math.{safe_add}
use cardinal_evm.Vm.Params
use cardinal_evm.Vm.Frame.{
  Frame, Outcome, ok, err, panic, gas_uint_overflow, M, ◌>>=◌, ◌>>◌, pure, fail,
}
use cardinal_evm.Vm.Frame.{gets, checked, back, ask, tell}
use cardinal_evm.Vm.GasTable.{memory_gas_cost}

module _ (u : Uint256) where
  requested : ℕ → Outcome ℕ
  requested call_cost =
      if u.is_uint64 call_cost then ok (u.uint64 call_cost) else err gas_uint_overflow

  -- callGas; the subtractions wrap as Go's do.
  unfoldable pub call_gas : Bool → ℕ → ℕ → ℕ → Outcome ℕ
  unfolding requested
  call_gas is_eip150 available base call_cost =
      let left = sub64 available base in
      let gas = sub64 left (left / 64) in
      if is_eip150 && (not (u.is_uint64 call_cost) || ltb gas (u.uint64 call_cost))
      then ok gas
      else requested call_cost

  -- `evm.callGasTemp, err = callGas(...)`: on an error, callGasTemp is 0.
  unfoldable pub record_call_gas : Outcome ℕ → M ℕ
  record_call_gas (ok gas) f = (ok gas, record f { call_gas_temp = gas })
  record_call_gas (err e) f = (err e, record f { call_gas_temp = 0 })
  record_call_gas panic f = (panic, f)

  -- The last statements of the four gas functions: the gas that the callee gets, on top of the rest.
  unfoldable pub add_call_gas : ℕ → M ℕ
  unfolding record_call_gas
  add_call_gas gas = do
    is_eip150 ← gets (λ f. f.rules.is_eip150)
    available ← gets (λ f. f.gas)
    call_cost ← back 0
    callee ← record_call_gas (call_gas is_eip150 available gas call_cost)
    checked (safe_add gas callee)

  abbrev pub transfer : Bool → ℕ → ℕ
  transfer true gas = gas + Params.call_value_transfer_gas
  transfer false gas = gas

  unfoldable pub gas_call_code : ℕ → M ℕ
  gas_call_code memory_size = do
    memory_gas ← memory_gas_cost memory_size
    value ← back 2
    gas ← checked (safe_add (transfer (not (u.is_zero value)) 0) memory_gas)
    add_call_gas gas

  unfoldable pub gas_delegate_call : ℕ → M ℕ
  gas_delegate_call memory_size = do gas ← memory_gas_cost memory_size; add_call_gas gas

  unfoldable pub gas_static_call : ℕ → M ℕ
  gas_static_call memory_size = do gas ← memory_gas_cost memory_size; add_call_gas gas

  module _ (b : Backend) where
    -- CallNewAccountGas or CreateBySelfdestructGas, where the account is new.
    unfoldable pub new_account : ℕ → Address → M Bool → M ℕ
    new_account price a transfers_value = do
      rules ← gets (λ f. f.rules)
      if rules.is_eip158
          then (ask (λ db. Ops.empty b db a) >>= λ empty.
              if empty then (transfers_value >>= λ t. pure (if t then price else 0)) else pure 0)
          else (ask (λ db. Ops.exist b db a) >>= λ exists. pure (if exists then 0 else price))

    -- gasCall asks whether the account is empty only when value is transferred.
    unfoldable pub new_callee : Address → Bool → M ℕ
    new_callee a transfers_value = do
      rules ← gets (λ f. f.rules)
      if rules.is_eip158 && not transfers_value
          then pure 0
          else new_account Params.call_new_account_gas a (pure true)

    unfoldable pub gas_call : ℕ → M ℕ
    gas_call memory_size = do
      value ← back 2
      callee ← back 1
      new ← new_callee (u.bytes20 callee) (not (u.is_zero value))
      memory_gas ← memory_gas_cost memory_size
      gas ← checked (safe_add (transfer (not (u.is_zero value)) new) memory_gas)
      add_call_gas gas

    unfoldable pub refund_selfdestruct : M (Unit {0})
    refund_selfdestruct = do
      a ← gets (λ f. f.address)
      suicided ← ask (λ db. Ops.has_suicided db a)
      if suicided then pure tt else tell (λ db. Ops.add_refund db Params.selfdestruct_refund_gas)

    unfoldable pub has_balance : M Bool
    has_balance = do
      a ← gets (λ f. f.address)
      balance ← ask (λ db. Ops.get_balance b db a)
      pure (not (is_zero_ℤ balance))

    unfoldable pub repriced : M ℕ
    repriced = do
      rules ← gets (λ f. f.rules)
      if rules.is_eip150
          then (back 0 >>= λ item.
              new_account Params.create_by_selfdestruct_gas (u.bytes20 item) has_balance >>= λ new.
              pure (Params.selfdestruct_gas_eip150 + new))
          else pure 0

    unfoldable pub gas_selfdestruct : ℕ → M ℕ
    unfolding repriced
    gas_selfdestruct memory_size = do gas ← repriced; refund_selfdestruct; pure gas
