-- ===== src/Vm/GasTable/Calls/AllBut.antt =====
-- What a caller keeps: the rule of all but one 64th (EIP-150), and the gas that the call variants put
-- back.
use cardinal_evm.Prelude.{ℕ, ◌+◌, ◌-◌, ◌/◌, ◌≤◌, ◌≡◌, arith, ltb}
use cardinal_evm.Prelude.{true, if◌then◌else◌, IsU64}
use cardinal_evm.Prelude.{List, ◌∷◌}
use cardinal_evm.Vm.Uint256.{Uint256}
use cardinal_evm.Vm.Stack
use cardinal_evm.Vm.Math.{safe_add}
use cardinal_evm.Vm.Frame.{Frame, ok}
use cardinal_evm.Vm.GasTable.Calls.{call_gas, add_call_gas, record_call_gas, requested}

-- The most that a call gets of what is left.
abbrev all_but : ℕ → ℕ
all_but left = left - left / 64

-- For a uint64 of available gas and a base cost within it, callGas under EIP-150 does not fail: it is the smaller of the request and all but one 64th of what
-- the base cost leaves.
pub call_gas_lem :
    (u : Uint256) (available base call_cost : ℕ)
    → IsU64 available
    → base ≤ available
    → call_gas u true available base call_cost
      ≡ ok (
          if ltb (all_but (available - base)) call_cost
          then all_but (available - base)
          else call_cost)
unfolding call_gas requested
call_gas_lem u available base call_cost h p =
    rw (u.is_uint64_lem call_cost, u.uint64_lem call_cost) (ground arith)

-- What a call with a request of `call_cost` gets of `available`, on a base cost.
abbrev pub callee_gas : ℕ → ℕ → ℕ → ℕ
callee_gas available base call_cost =
    if ltb (all_but (available - base)) call_cost then all_but (available - base) else call_cost

-- Under EIP-150, with a base cost that the caller can pay and an item on the stack, the call's gas is
-- recorded and added to the base cost; the caller can pay the sum, and at least a 64th of what the base
-- cost left stays with it.
pub add_call_gas_affordable :
    (u : Uint256) (gas call_cost : ℕ) (rest : List ℕ) (f : Frame)
    → f.rules.is_eip150 ≡ true
    → f.stack ≡ call_cost ∷ rest
    → IsU64 f.gas
    → gas ≤ f.gas
    → (add_call_gas u gas f ≡ (
      ok (gas + callee_gas f.gas gas call_cost),
      record f { call_gas_temp = callee_gas f.gas gas call_cost },
    ))
      × (gas + callee_gas f.gas gas call_cost ≤ f.gas)
      × ((f.gas - gas) / 64 ≤ f.gas - (gas + callee_gas f.gas gas call_cost))
unfolding add_call_gas record_call_gas Stack.back safe_add
add_call_gas_affordable u gas call_cost rest f r st h p =
    let e = call_gas_lem u f.gas gas call_cost h p in
    (simp (r, st, e) (ground arith), ground arith, ground arith)
