-- ===== src/Vm/Interpreter/Affords.antt =====
-- The price of an operation covers what its instruction may bring back to the gas.
use cardinal_evm.Prelude.{ℕ, ◌+◌, ◌≤◌, ◌<◌, ◌≡◌, arith, true, false, none, some}
use cardinal_evm.Vm.Uint256.{Uint256}
use cardinal_evm.Vm.Stack
use cardinal_evm.Vm.Stack.{Stack}
use cardinal_evm.Vm.JumpTable.Operation.{
  Execute, simple, calling, op_create, op_create2, op_call, op_call_code, op_delegate_call,
  op_static_call, GasFunc,
}
use cardinal_evm.Vm.Interpreter.{}
use cardinal_evm.Vm.Interpreter.Sound.{halts, charges, pays_value, pays_call, prices}
use cardinal_evm.Vm.Interpreter.CallCost.{transfer_price}
use cardinal_evm.Vm.Interpreter.Cost.{floor}
use cardinal_evm.Vm.Interpreter.Paid.{}
use cardinal_evm.Vm.Interpreter.Spent.{returned}

charges-floor :
    (u : Uint256) (g : GasFunc) (st : Stack) (temp : ℕ)
    → charges (some g) ≡ true
    → floor u g st temp ≡ 1
unfolding floor
charges-floor u g st temp h = ground arith

pays_value-floor :
    (u : Uint256) (g : GasFunc) (st : Stack) (temp : ℕ)
    → pays_value (some g) ≡ true
    → floor u g st temp ≡ temp + transfer_price u (Stack.back st 2)
unfolding floor
pays_value-floor u g st temp h = ground arith

pays_call-floor :
    (u : Uint256) (g : GasFunc) (st : Stack) (temp : ℕ)
    → pays_call (some g) ≡ true
    → floor u g st temp ≡ temp
unfolding floor
pays_call-floor u g st temp h = ground arith

-- With `gas` left when it runs, an instruction that goes on ends with less than `n`.
abbrev pub Affords : Uint256 → Execute → ℕ → ℕ → Stack → ℕ → Type 0
Affords u (simple x) gas temp st n = halts x ≡ false → gas < n
Affords u (calling x) gas temp st n = gas + returned u x temp st < n

pub prices-Affords :
    (u : Uint256) (x : Execute) (const cost gas n temp : ℕ) (g : GasFunc) (st : Stack)
    → prices x const (some g) ≡ true
    → floor u g st temp ≤ cost
    → gas + cost + const ≤ n
    → Affords u x gas temp st n
unfolding Stack.back
prices-Affords u (simple x) const cost gas n temp g st p f l =
    λ goes. ground (arith, charges-floor u g st temp)
prices-Affords u (calling op_create) const cost gas n temp g st p f l = ground arith
prices-Affords u (calling op_create2) const cost gas n temp g st p f l = ground arith
prices-Affords u (calling op_call) const cost gas n temp g st p f l =
    ground (arith, pays_value-floor u g st temp)
prices-Affords u (calling op_call_code) const cost gas n temp g st p f l =
    ground (arith, pays_value-floor u g st temp)
prices-Affords u (calling op_delegate_call) const cost gas n temp g st p f l =
    ground (arith, pays_call-floor u g st temp)
prices-Affords u (calling op_static_call) const cost gas n temp g st p f l =
    ground (arith, pays_call-floor u g st temp)

pub unmetered-Affords :
    (u : Uint256) (x : Execute) (const gas n temp : ℕ) (st : Stack)
    → prices x const none ≡ true
    → gas + const ≤ n
    → Affords u x gas temp st n
unmetered-Affords u (simple x) const gas n temp st p l = λ goes. ground arith
unmetered-Affords u (calling op_create) const gas n temp st p l = ground arith
unmetered-Affords u (calling op_create2) const gas n temp st p l = ground arith
unmetered-Affords u (calling op_call) const gas n temp st p l = absurd (ground arith)
unmetered-Affords u (calling op_call_code) const gas n temp st p l = absurd (ground arith)
unmetered-Affords u (calling op_delegate_call) const gas n temp st p l = absurd (ground arith)
unmetered-Affords u (calling op_static_call) const gas n temp st p l = absurd (ground arith)
