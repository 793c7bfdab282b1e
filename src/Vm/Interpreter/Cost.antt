-- ===== src/Vm/Interpreter/Cost.antt =====
-- What the gas functions of a jump table leave of the gas, and the least that they cost.
use cardinal_evm.Prelude.{ℕ, ◌+◌, ◌≡◌, ◌≤◌, refl, arith, true, false, some, IsU64}
use cardinal_evm.State.Account.{Backend}
use cardinal_evm.Vm.Uint256.{Uint256}
use cardinal_evm.Vm.Stack
use cardinal_evm.Vm.Stack.{Stack}
use cardinal_evm.Vm.Math.{safe_add, safe_mul}
use cardinal_evm.Vm.Frame.{Frame, Outcome, ok, err, panic}
use cardinal_evm.Vm.GasTable
use cardinal_evm.Vm.GasTable.{memory_fee}
use cardinal_evm.Vm.GasTable.Sstore
use cardinal_evm.Vm.GasTable.Calls
use cardinal_evm.Vm.GasTable.Calls.Cold
use cardinal_evm.Vm.GasTable.Calls.Keeps.{call, call_code, delegate_call, static_call}
use cardinal_evm.Vm.JumpTable.Operation.{
  GasFunc, exp_frontier_gas, exp_eip158_gas, sstore_gas, sstore_eip2200_gas, sstore_eip2929_gas,
  sstore_eip3529_gas, sload_eip2929_gas, call_gas, call_code_gas, delegate_call_gas,
  static_call_gas, call_eip2929_gas, call_code_eip2929_gas, delegate_call_eip2929_gas,
  static_call_eip2929_gas, call_eip7702_gas, call_code_eip7702_gas, delegate_call_eip7702_gas,
  static_call_eip7702_gas, log_gas,
}
use cardinal_evm.Vm.Interpreter.Dispatch.{gas_of}
use cardinal_evm.Vm.Interpreter.Sound.{adds_cold}
use cardinal_evm.Vm.Interpreter.CallCost.{
  transfer_price, call_price, IsSmallFee, IsVariant, variant_2929-IsVariant, variant_7702-IsVariant,
}

-- What a gas function charges at least, with the gas that it sets aside for a call.
unfoldable pub floor : Uint256 → GasFunc → Stack → ℕ → ℕ
floor u call_gas st temp = temp + transfer_price u (Stack.back st 2)
floor u call_eip2929_gas st temp = temp + transfer_price u (Stack.back st 2)
floor u call_eip7702_gas st temp = temp + transfer_price u (Stack.back st 2)
floor u call_code_gas st temp = temp + transfer_price u (Stack.back st 2)
floor u call_code_eip2929_gas st temp = temp + transfer_price u (Stack.back st 2)
floor u call_code_eip7702_gas st temp = temp + transfer_price u (Stack.back st 2)
floor u delegate_call_gas st temp = temp
floor u delegate_call_eip2929_gas st temp = temp
floor u delegate_call_eip7702_gas st temp = temp
floor u static_call_gas st temp = temp
floor u static_call_eip2929_gas st temp = temp
floor u static_call_eip7702_gas st temp = temp
floor u exp_frontier_gas st temp = 1
floor u exp_eip158_gas st temp = 1
floor u sstore_gas st temp = 1
floor u sstore_eip2200_gas st temp = 1
floor u sstore_eip2929_gas st temp = 1
floor u sstore_eip3529_gas st temp = 1
floor u sload_eip2929_gas st temp = 1
floor u (log_gas n) st temp = 1
floor u g st temp = 0

abbrev pub Costs : Uint256 → GasFunc → Frame → Outcome ℕ × Frame → Type 0
Costs u g f (ok cost, f') = (f'.gas ≤ f.gas) × (floor u g f.stack f'.call_gas_temp ≤ cost)
Costs u g f (err x, f') = Unit {0}
Costs u g f (panic, f') = Unit {0}

IsVariant-Costs :
    (u : Uint256) (g : GasFunc) (price : ℕ) (f : Frame) (r : Outcome ℕ × Frame)
    → ((temp : ℕ) → floor u g f.stack temp ≡ temp + price)
    → IsVariant price f r
    → Costs u g f r
IsVariant-Costs u g price f (ok cost, f') e h = (h.0, omega (arith, h.1, e f'.call_gas_temp))
IsVariant-Costs u g price f (err x, f') e h = tt
IsVariant-Costs u g price f (panic, f') e h = tt

plain-Costs :
    (u : Uint256) (b : Backend) (g : GasFunc) (size : ℕ) (f : Frame)
    → IsU64 f.gas
    → adds_cold (some g) ≡ false
    → Costs u g f (gas_of u b g size f)
unfolding floor gas_of GasTable.gas_keccak256 GasTable.memory_copier_gas
    GasTable.pure_memory_gascost GasTable.gas_create2 GasTable.gas_create_eip3860
    GasTable.gas_create2_eip3860 GasTable.gas_exp_frontier GasTable.gas_exp_eip158 Sstore.gas_sstore
    Sstore.gas_sstore_eip2200 Sstore.gas_sstore_eip2929 Sstore.gas_sstore_eip3529
    Sstore.make_gas_sstore_func Sstore.net_metered Cold.gas_sload_eip2929
    Cold.gas_ext_code_copy_eip2929 Cold.gas_eip2929_account_check Calls.gas_selfdestruct
    Calls.new_account Calls.has_balance Calls.refund_selfdestruct Cold.touch
    Cold.make_selfdestruct_gas_fn GasTable.make_gas_log GasTable.memory_gas_cost safe_add safe_mul
    Calls.gas_call Calls.gas_call_code Calls.gas_delegate_call Calls.gas_static_call
    Calls.add_call_gas Calls.record_call_gas Calls.new_callee Stack.back
plain-Costs u b call_eip2929_gas size f h e = absurd (cc)
plain-Costs u b call_eip7702_gas size f h e =
    IsVariant-Costs u call_eip7702_gas (call_price u call f.stack) f _ (λ temp. omega arith)
      (variant_7702-IsVariant u b call size f h)
plain-Costs u b call_code_eip2929_gas size f h e = absurd (cc)
plain-Costs u b call_code_eip7702_gas size f h e =
    IsVariant-Costs u call_code_eip7702_gas (call_price u call_code f.stack) f _
      (λ temp. omega arith) (variant_7702-IsVariant u b call_code size f h)
plain-Costs u b delegate_call_eip2929_gas size f h e = absurd (cc)
plain-Costs u b delegate_call_eip7702_gas size f h e =
    IsVariant-Costs u delegate_call_eip7702_gas (call_price u delegate_call f.stack) f _
      (λ temp. omega arith) (variant_7702-IsVariant u b delegate_call size f h)
plain-Costs u b static_call_eip2929_gas size f h e = absurd (cc)
plain-Costs u b static_call_eip7702_gas size f h e =
    IsVariant-Costs u static_call_eip7702_gas (call_price u static_call f.stack) f _
      (λ temp. omega arith) (variant_7702-IsVariant u b static_call size f h)
plain-Costs u b g size f h e = ground arith

-- A gas function leaves no more gas than there was when it answers a cost, and the cost is at least
-- its floor; for the functions that add a cold access this rests on a small fee and EIP-150.
pub gas_of-Costs :
    (u : Uint256) (b : Backend) (g : GasFunc) (size : ℕ) (f : Frame)
    → IsU64 f.gas
    → IsSmallFee (memory_fee f.mem size)
    → (adds_cold (some g) ≡ true → f.rules.is_eip150 ≡ true)
    → Costs u g f (gas_of u b g size f)
unfolding floor gas_of
gas_of-Costs u b call_eip2929_gas size f h p q =
    IsVariant-Costs u call_eip2929_gas (call_price u call f.stack) f _ (λ temp. omega arith)
      (variant_2929-IsVariant u b call size f h p (q refl))
gas_of-Costs u b call_code_eip2929_gas size f h p q =
    IsVariant-Costs u call_code_eip2929_gas (call_price u call_code f.stack) f _
      (λ temp. omega arith) (variant_2929-IsVariant u b call_code size f h p (q refl))
gas_of-Costs u b delegate_call_eip2929_gas size f h p q =
    IsVariant-Costs u delegate_call_eip2929_gas (call_price u delegate_call f.stack) f _
      (λ temp. omega arith) (variant_2929-IsVariant u b delegate_call size f h p (q refl))
gas_of-Costs u b static_call_eip2929_gas size f h p q =
    IsVariant-Costs u static_call_eip2929_gas (call_price u static_call f.stack) f _
      (λ temp. omega arith) (variant_2929-IsVariant u b static_call size f h p (q refl))
gas_of-Costs u b g size f h p q = plain-Costs u b g size f h refl
