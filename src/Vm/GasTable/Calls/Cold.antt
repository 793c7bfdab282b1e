-- ===== src/Vm/GasTable/Calls/Cold.antt =====
-- vm/operations_acl.go without SSTORE: cold and warm accesses (EIP-2929), calls to delegated accounts
-- (EIP-7702), and types.ParseDelegation of types/tx_setcode.go.
use cardinal_evm.Prelude.{ℕ, ◌+◌, ◌-◌, ◌*◌, ◌==◌, Bool, true, false, ◌&&◌, if◌then◌else◌, add64}
use cardinal_evm.Prelude.{Option, none, some, [], ◌∷◌, length, take, drop}
use cardinal_evm.State.Account.{Address, Bytes, Backend}
use cardinal_evm.State.Object.{bytes_equal}
use cardinal_evm.State.Db.Ops
use cardinal_evm.Vm.Uint256.{Uint256}
use cardinal_evm.Vm.Math.{safe_add}
use cardinal_evm.Vm.Params
use cardinal_evm.Vm.Frame.{ok, out_of_gas, M, ◌>>=◌, ◌>>◌, pure, fail}
use cardinal_evm.Vm.Frame.{gets, checked, back, ask, tell, tell_checked, ask_checked, use_gas}
use cardinal_evm.Vm.GasTable
use cardinal_evm.Vm.GasTable.Calls.{gas_call}
use cardinal_evm.Vm.GasTable.Calls.{has_balance, refund_selfdestruct}

abbrev pub delegation_prefix : Bytes
delegation_prefix = 0xef ∷ 1 ∷ 0 ∷ []

-- The number that bytes spell, the highest byte first.
abbrev pub spell : ℕ → Bytes → ℕ
spell acc [] = acc
spell acc (x ∷ xs) = spell (acc * 256 + x) xs

-- ParseDelegation: of code of any other shape, none.
unfoldable pub parse_delegation : Bytes → Option Address
parse_delegation code =
    if (length code == 23) && bytes_equal (take 3 code) delegation_prefix
    then some (spell 0 (drop 3 code))
    else none

-- AddAddressToAccessList where the address is not on the list: whether it was.
unfoldable pub touch : Address → M Bool
touch a = do
  warm ← gets (λ f. Ops.address_in_access_list f.db a)
  if warm
      then pure true
      else (tell (λ db. Ops.add_address_to_access_list db a) >>= λ done. pure false)

abbrev pub cold_cost : ℕ
cold_cost = Params.cold_account_access_cost_eip2929 - Params.warm_storage_read_cost_eip2929

-- `if !contract.UseGas(cost) { return 0, ErrOutOfGas }`
unfoldable pub charge_now : ℕ → M (Unit {0})
charge_now cost = do paid ← use_gas cost; if paid then pure tt else fail out_of_gas

-- `contract.Gas += cost`
unfoldable pub give_back : ℕ → M (Unit {0})
give_back cost f = (ok tt, record f { gas = add64 f.gas cost })

-- makeCallVariantGasCallEIP2929: after the test of the access list.
unfoldable pub charged_2929 : (ℕ → M ℕ) → ℕ → Bool → M ℕ
charged_2929 old_calculator memory_size true = old_calculator memory_size
charged_2929 old_calculator memory_size false = do
  charge_now cold_cost
  gas ← old_calculator memory_size
  give_back cold_cost
  pure (add64 gas cold_cost)

unfoldable pub charge_unless : Bool → ℕ → M ℕ
charge_unless true cost = pure 0
charge_unless false cost = do charge_now cost; pure cost

-- What resolving a delegation costs, charged at once.
unfoldable pub resolve_delegation : Option Address → M ℕ
resolve_delegation none = pure 0
resolve_delegation (some target) = do
  warm ← touch target
  charge_unless false (
      if warm
      then Params.warm_storage_read_cost_eip2929
      else Params.cold_account_access_cost_eip2929)

module _ (u : Uint256) (b : Backend) where
  unfoldable pub make_call_variant_gas_call_eip2929 : (ℕ → M ℕ) → ℕ → M ℕ
  unfolding charged_2929
  make_call_variant_gas_call_eip2929 old_calculator memory_size = do
    item ← back 1
    warm_access ← touch (u.bytes20 item)
    charged_2929 old_calculator memory_size warm_access

  unfoldable pub make_call_variant_gas_call_eip7702 : (ℕ → M ℕ) → ℕ → M ℕ
  make_call_variant_gas_call_eip7702 old_calculator memory_size = do
    item ← back 1
    warm ← touch (u.bytes20 item)
    access ← charge_unless warm cold_cost
    code ← ask (λ db. Ops.get_code b db (u.bytes20 item))
    resolution ← resolve_delegation (parse_delegation code)
    old ← old_calculator memory_size
    give_back (access + resolution)
    checked (safe_add old (access + resolution))

  unfoldable pub gas_call_eip2929 : ℕ → M ℕ
  gas_call_eip2929 = make_call_variant_gas_call_eip2929 (gas_call u b)

  unfoldable pub gas_call_eip7702 : ℕ → M ℕ
  gas_call_eip7702 = make_call_variant_gas_call_eip7702 (gas_call u b)

  unfoldable pub gas_sload_eip2929 : ℕ → M ℕ
  gas_sload_eip2929 memory_size = do
    loc ← back 0
    a ← gets (λ f. f.address)
    listed ← ask_checked (λ db. Ops.slot_in_access_list db a (u.bytes32 loc))
    if listed.1
        then pure Params.warm_storage_read_cost_eip2929
        else (tell_checked (λ db. Ops.add_slot_to_access_list db a (u.bytes32 loc)) >>= λ done.
            pure Params.cold_sload_cost_eip2929)

  unfoldable pub gas_ext_code_copy_eip2929 : ℕ → M ℕ
  gas_ext_code_copy_eip2929 memory_size = do
    gas ← GasTable.memory_copier_gas u 3 memory_size
    item ← back 0
    warm ← touch (u.bytes20 item)
    if warm then pure gas else checked (safe_add gas cold_cost)

  unfoldable pub gas_eip2929_account_check : ℕ → M ℕ
  gas_eip2929_account_check memory_size = do
    item ← back 0
    warm ← touch (u.bytes20 item)
    pure (if warm then 0 else cold_cost)

  unfoldable pub create_by_selfdestruct : Address → M ℕ
  create_by_selfdestruct a = do
    empty ← ask (λ db. Ops.empty b db a)
    if empty
        then (has_balance u b >>= λ t. pure (if t then Params.create_by_selfdestruct_gas else 0))
        else pure 0

  unfoldable pub make_selfdestruct_gas_fn : Bool → ℕ → M ℕ
  unfolding create_by_selfdestruct
  make_selfdestruct_gas_fn refunds_enabled memory_size = do
    item ← back 0
    warm ← touch (u.bytes20 item)
    new ← create_by_selfdestruct (u.bytes20 item)
    (if refunds_enabled then refund_selfdestruct u b else pure tt)
    pure ((if warm then 0 else Params.cold_account_access_cost_eip2929) + new)
