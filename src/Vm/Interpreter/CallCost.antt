-- ===== src/Vm/Interpreter/CallCost.antt =====
-- What the gas functions of the calls leave of the gas, and the least that they cost: the gas set aside for the
-- call and the price of a value transfer.
use cardinal_evm.Prelude.{
  ℕ, ◌+◌, ◌≡◌, ◌≤◌, ◌<◌, ◌^◌, ◌-◌, refl, sym, subst, ap, ◌∙◌, not, arith, Bool, true, false,
  if◌then◌else◌, Option, none, some, IsU64,
}
use cardinal_evm.State.Account.{Address, Backend}
use cardinal_evm.Vm.Uint256.{Uint256}
use cardinal_evm.Vm.Params
use cardinal_evm.Vm.Stack
use cardinal_evm.Vm.Stack.{Stack}
use cardinal_evm.Vm.Math.{safe_add}
use cardinal_evm.Vm.Frame
use cardinal_evm.Vm.Frame.{M, ◌>>=◌, ◌>>◌, back, checked, or_panic, Frame, Outcome, ok, err, panic}
use cardinal_evm.Vm.Memory.{Memory}
use cardinal_evm.Vm.GasTable
use cardinal_evm.Vm.GasTable.{memory_fee}
use cardinal_evm.Vm.GasTable.Calls
use cardinal_evm.Vm.GasTable.Calls.Cold
use cardinal_evm.Vm.GasTable.Calls.Keeps.{
  Call, call, call_code, delegate_call, static_call, calculator, IsSettled,
}
use cardinal_evm.Vm.GasTable.Calls.Settled.{call_variant_7702-IsSettled}
use cardinal_evm.Vm.JumpTable.Operation.{}

-- The price of a value transfer, by the third item of the stack.
abbrev pub transfer_price : Uint256 → Option ℕ → ℕ
transfer_price u none = 0
transfer_price u (some value) = if u.is_zero value then 0 else Params.call_value_transfer_gas

abbrev pub call_price : Uint256 → Call → Stack → ℕ
call_price u call st = transfer_price u (Stack.back st 2)
call_price u call_code st = transfer_price u (Stack.back st 2)
call_price u delegate_call st = 0
call_price u static_call st = 0

-- A fee for memory far below the largest uint64.
abbrev pub IsSmallFee : Outcome ℕ × Memory → Type 0
IsSmallFee (ok fee, mem) = fee ≤ 2 ^ 57
IsSmallFee (err x, mem) = Unit {0}
IsSmallFee (panic, mem) = Unit {0}

abbrev AtMost : ℕ → Outcome ℕ → Type 0
AtMost n (ok gas) = gas ≤ n
AtMost n (err x) = Unit {0}
AtMost n panic = Unit {0}

call_gas-AtMost :
    (u : Uint256) (available base call_cost : ℕ)
    → AtMost (2 ^ 64 - 2 ^ 58) (Calls.call_gas u true available base call_cost)
unfolding Calls.call_gas
call_gas-AtMost u available base call_cost =
    ground (arith, u.is_uint64_lem call_cost, u.uint64_lem call_cost)

-- The end of a gas function of a call.
abbrev Adds : ℕ → Frame → Outcome ℕ × Frame → Type 0
Adds base f (ok cost, f') =
    (f'.gas ≡ f.gas) × (cost ≡ base + f'.call_gas_temp) × (f'.call_gas_temp ≤ 2 ^ 64 - 2 ^ 58)
Adds base f (err x, f') = Unit {0}
Adds base f (panic, f') = Unit {0}

module _ (u : Uint256) where
  add_call_gas-Adds :
      (base : ℕ) (f : Frame) → f.rules.is_eip150 ≡ true → Adds base f (Calls.add_call_gas u base f)
  unfolding Calls.add_call_gas Calls.record_call_gas Stack.back safe_add
  add_call_gas-Adds base f h = grind (arith, call_gas-AtMost)

abbrev Fee : Frame → Outcome ℕ × Frame → Type 0
Fee f (ok fee, f') = (fee ≤ 2 ^ 57) × (f'.gas ≡ f.gas) × (f'.rules ≡ f.rules) × (f'.stack ≡ f.stack)
Fee f (err x, f') = Unit {0}
Fee f (panic, f') = Unit {0}

Fee-record :
    (f : Frame) (r : Outcome ℕ × Memory) → IsSmallFee r → Fee f (r.0, record f { mem = r.1 })
Fee-record f (ok fee, mem) h = (h, refl, refl, refl)
Fee-record f (err x, mem) h = tt
Fee-record f (panic, mem) h = tt

memory_gas_cost-Fee :
    (size : ℕ) (mem : Memory)
    → IsSmallFee (memory_fee mem size)
    → (f : Frame) → f.mem ≡ mem
    → Fee f (GasTable.memory_gas_cost size f)
unfolding GasTable.memory_gas_cost
memory_gas_cost-Fee size mem h f e =
    Fee-record f (memory_fee f.mem size) (subst (λ x. IsSmallFee (memory_fee x size)) (sym e) h)

-- The price of a new account, with the rest of the frame as the call reads it.
abbrev IsNew : Frame → Outcome ℕ × Frame → Type 0
IsNew f (ok new, f') =
    (new ≤ Params.call_new_account_gas)
    × (f'.gas ≡ f.gas)
    × (f'.rules ≡ f.rules)
    × (f'.stack ≡ f.stack)
    × (f'.mem ≡ f.mem)
IsNew f (err x, f') = Unit {0}
IsNew f (panic, f') = Unit {0}

new_callee-IsNew :
    (u : Uint256) (b : Backend) (a : Address) (t : Bool) (f : Frame)
    → IsNew f (Calls.new_callee u b a t f)
unfolding Calls.new_callee Calls.new_account
new_callee-IsNew u b a t f = ground arith

-- A gas function of a call that keeps the gas.
abbrev IsCall : ℕ → Frame → Outcome ℕ × Frame → Type 0
IsCall price f (ok cost, f') =
    (f'.gas ≡ f.gas) × (f'.call_gas_temp + price ≤ cost) × (cost < 2 ^ 64 - Cold.cold_cost)
IsCall price f (err x, f') = Unit {0}
IsCall price f (panic, f') = Unit {0}

-- gasCall after the price of a new account.
abbrev call_rest : Uint256 → ℕ → Bool → ℕ → M ℕ
call_rest u size t new = do
  memory_gas ← GasTable.memory_gas_cost size
  gas ← checked (safe_add (Calls.transfer u t new) memory_gas)
  Calls.add_call_gas u gas

abbrev price_of : Bool → ℕ
price_of t = if t then Params.call_value_transfer_gas else 0

module _ (u : Uint256) (size : ℕ) (mem : Memory) (small : IsSmallFee (memory_fee mem size)) where
  call_rest-IsCall :
      (t : Bool) (new : ℕ) (f : Frame)
      → f.mem ≡ mem
      → f.rules.is_eip150 ≡ true
      → new ≤ Params.call_new_account_gas
      → IsCall (price_of t) f (call_rest u size t new f)
  unfolding safe_add
  call_rest-IsCall t new f e h l =
      grind (arith, memory_gas_cost-Fee size mem small, add_call_gas-Adds u)

  after_new :
      (t : Bool) (f : Frame) (r : Outcome ℕ × Frame)
      → f.mem ≡ mem
      → f.rules.is_eip150 ≡ true
      → IsNew f r
      → IsCall (price_of t) f (((λ g. r) >>= call_rest u size t) r.1)
  after_new t f (ok new, f') e h (l, gas, rules, stack, kept) =
      ground (arith, call_rest-IsCall t new f' (kept ∙ e) (ap (λ x. x.is_eip150) rules ∙ h) l)
  after_new t f (err x, f') e h n = tt
  after_new t f (panic, f') e h n = tt

back_IsCall :
    (price n : ℕ) (f : Frame) (k : ℕ → M ℕ)
    → ((v : ℕ) → Stack.back f.stack n ≡ some v → IsCall price f (k v f))
    → IsCall price f ((back n >>= k) f)
back_IsCall price n f k h = at_item (Stack.back f.stack n) refl
  where
    at_item :
        (o : Option ℕ)
        → Stack.back f.stack n ≡ o
        → IsCall price f (((λ g. (or_panic o, g)) >>= k) f)
    at_item none e = tt
    at_item (some v) e = h v e

repriced : (p q : ℕ) (f : Frame) (r : Outcome ℕ × Frame) → p ≡ q → IsCall q f r → IsCall p f r
repriced p q f r e h = rw e h

calculator-IsCall :
    (u : Uint256) (b : Backend) (c : Call) (size : ℕ) (f : Frame)
    → IsSmallFee (memory_fee f.mem size)
    → f.rules.is_eip150 ≡ true
    → IsCall (call_price u c f.stack) f (calculator u b c size f)
unfolding Calls.gas_call Calls.gas_call_code Calls.gas_delegate_call Calls.gas_static_call
    Stack.back safe_add
calculator-IsCall u b call size f h e =
    back_IsCall (call_price u call f.stack) 2 f _ (λ value at_value.
      back_IsCall (call_price u call f.stack) 1 f _ (λ callee at_callee.
        repriced (call_price u call f.stack) (price_of (not (u.is_zero value))) f
          ((Calls.new_callee u b (u.bytes20 callee) (not (u.is_zero value))
              >>= call_rest u size (not (u.is_zero value)))
            f)
          (ground (arith, at_value))
          (after_new u size f.mem h (not (u.is_zero value)) f _ refl e
            (new_callee-IsNew u b (u.bytes20 callee) (not (u.is_zero value)) f))))
calculator-IsCall u b call_code size f h e =
    grind (arith, memory_gas_cost-Fee size f.mem h, add_call_gas-Adds)
calculator-IsCall u b delegate_call size f h e =
    grind (arith, memory_gas_cost-Fee size f.mem h, add_call_gas-Adds)
calculator-IsCall u b static_call size f h e =
    grind (arith, memory_gas_cost-Fee size f.mem h, add_call_gas-Adds)

-- A gas function of a call that leaves no more gas than there was.
abbrev pub IsVariant : ℕ → Frame → Outcome ℕ × Frame → Type 0
IsVariant price f (ok cost, f') = (f'.gas ≤ f.gas) × (f'.call_gas_temp + price ≤ cost)
IsVariant price f (err x, f') = Unit {0}
IsVariant price f (panic, f') = Unit {0}

pub variant_2929-IsVariant :
    (u : Uint256) (b : Backend) (c : Call) (size : ℕ) (f : Frame)
    → IsU64 f.gas
    → IsSmallFee (memory_fee f.mem size)
    → f.rules.is_eip150 ≡ true
    → IsVariant
        (call_price u c f.stack)
        f
        (Cold.make_call_variant_gas_call_eip2929 u b (calculator u b c) size f)
unfolding Cold.make_call_variant_gas_call_eip2929 Cold.touch Cold.charged_2929 Cold.charge_now
    Cold.give_back Frame.use_gas Stack.back
variant_2929-IsVariant u b c size f h p e = grind (arith, calculator-IsCall u b c)

-- The least cost of an answer.
abbrev Floor : ℕ → Outcome ℕ × Frame → Type 0
Floor price (ok cost, f') = f'.call_gas_temp + price ≤ cost
Floor price (err x, f') = Unit {0}
Floor price (panic, f') = Unit {0}

both :
    (price : ℕ) (f : Frame) (r : Outcome ℕ × Frame)
    → Floor price r
    → IsSettled f.gas r
    → IsVariant price f r
both price f (ok cost, f') h k = (omega (arith, k), h)
both price f (err x, f') h k = tt
both price f (panic, f') h k = tt

-- The same of the gas functions that charge a delegation: they test the sum for an overflow.
abbrev Keeps : ℕ → Frame → Outcome ℕ × Frame → Type 0
Keeps price f (ok cost, f') = (f'.gas ≡ f.gas) × (f'.call_gas_temp + price ≤ cost)
Keeps price f (err x, f') = Unit {0}
Keeps price f (panic, f') = Unit {0}

calculator-Keeps :
    (u : Uint256) (b : Backend) (c : Call) (size : ℕ) (f : Frame)
    → Keeps (call_price u c f.stack) f (calculator u b c size f)
unfolding Calls.gas_call Calls.gas_call_code Calls.gas_delegate_call Calls.gas_static_call
    Calls.add_call_gas Calls.record_call_gas Calls.new_callee Calls.new_account
    GasTable.memory_gas_cost safe_add Stack.back
calculator-Keeps u b call size f = ground arith
calculator-Keeps u b call_code size f = ground arith
calculator-Keeps u b delegate_call size f = ground arith
calculator-Keeps u b static_call size f = ground arith

-- The gas functions of a delegation before the call's own, which leave the stack as it is.
bind-Floor :
    {A : Type 0} (price : ℕ) (st : Stack) (r : Outcome A × Frame) (k : A → M ℕ)
    → r.1.stack ≡ st
    → ((a : A) (f : Frame) → f.stack ≡ st → Floor price (k a f))
    → Floor price (((λ f. r) >>= k) r.1)
bind-Floor price st (ok a, f) k e h = h a f e
bind-Floor price st (err x, f) k e h = tt
bind-Floor price st (panic, f) k e h = tt

touch_stack : (a : Address) (f : Frame) → (Cold.touch a f).1.stack ≡ f.stack
unfolding Cold.touch
touch_stack a f = ground arith

charge_unless_stack :
    (warm : Bool) (cost : ℕ) (f : Frame) → (Cold.charge_unless warm cost f).1.stack ≡ f.stack
unfolding Cold.charge_unless Cold.charge_now Frame.use_gas
charge_unless_stack true cost f = refl
charge_unless_stack false cost f = ground arith

resolve_delegation_stack :
    (target : Option Address) (f : Frame) → (Cold.resolve_delegation target f).1.stack ≡ f.stack
unfolding Cold.resolve_delegation Cold.touch Cold.charge_unless Cold.charge_now Frame.use_gas
resolve_delegation_stack none f = refl
resolve_delegation_stack (some a) f = ground arith

put_back-Floor :
    (price charged : ℕ) (f : Frame) (r : Outcome ℕ × Frame)
    → Keeps price f r
    → Floor price
        (((λ g. r) >>= λ old. Cold.give_back charged >> checked (safe_add old charged)) r.1)
unfolding Cold.give_back safe_add
put_back-Floor price charged f (ok old, f') h = ground arith
put_back-Floor price charged f (err x, f') h = tt
put_back-Floor price charged f (panic, f') h = tt

variant_7702-Floor :
    (u : Uint256) (b : Backend) (c : Call) (size : ℕ) (f : Frame)
    → Floor
        (call_price u c f.stack)
        (Cold.make_call_variant_gas_call_eip7702 u b (calculator u b c) size f)
unfolding Cold.make_call_variant_gas_call_eip7702
variant_7702-Floor u b c size f = bind-Floor price f.stack (back 1 f) _ refl (λ item f1 e1.
    bind-Floor price f.stack (Cold.touch _ f1) _ (touch_stack _ f1 ∙ e1) (λ warm f2 e2.
      bind-Floor price f.stack (Cold.charge_unless warm Cold.cold_cost f2) _
        (charge_unless_stack warm Cold.cold_cost f2 ∙ e2)
        (λ access f3 e3.
          bind-Floor price f.stack (Cold.resolve_delegation _ _) _
            (resolve_delegation_stack _ _ ∙ e3)
            (λ resolution f4 e4.
              put_back-Floor price (access + resolution) f4 (calculator u b c size f4) (
                subst (λ st. Keeps (call_price u c st) f4 (calculator u b c size f4)) e4
                  (calculator-Keeps u b c size f4))))))
  where
    price : ℕ
    price = call_price u c f.stack

pub variant_7702-IsVariant :
    (u : Uint256) (b : Backend) (c : Call) (size : ℕ) (f : Frame)
    → IsU64 f.gas
    → IsVariant
        (call_price u c f.stack)
        f
        (Cold.make_call_variant_gas_call_eip7702 u b (calculator u b c) size f)
variant_7702-IsVariant u b c size f h =
    both (call_price u c f.stack) f _ (variant_7702-Floor u b c size f)
      (call_variant_7702-IsSettled u b c size f h)
