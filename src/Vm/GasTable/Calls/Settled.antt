-- ===== src/Vm/GasTable/Calls/Settled.antt =====
-- The call variants of EIP-2929 and EIP-7702 settle the gas that they charge at once.
use cardinal_evm.Prelude.{ℕ, ◌+◌, ◌-◌, ◌≤◌, ◌≡◌, refl, ap, ◌∙◌, arith, ltb, IsU64}
use cardinal_evm.Prelude.{Bool, true, false, Bool-cases, inl, inr, Option, none, some}
use cardinal_evm.State.Account.{Address, Backend}
use cardinal_evm.State.Db.Ops
use cardinal_evm.Vm.Uint256.{Uint256}
use cardinal_evm.Vm.Math.{safe_add}
use cardinal_evm.Vm.Frame.{Frame, Outcome, ok, err, panic, M, ◌>>=◌, ◌>>◌, use_gas, back, checked}
use cardinal_evm.Vm.GasTable.Calls.Cold
use cardinal_evm.Vm.GasTable.Calls.Keeps.{Call, calculator, calculator-KeepsGas, IsSettled}
use cardinal_evm.Vm.GasTable.Calls.Keeps.{touch-KeepsGas, IsSettled-kept, put_back_2929}

-- A charge that has been taken off `gas`.
abbrev Took : ℕ → Outcome ℕ × Frame → Type 0
Took gas (ok cost, f) = f.gas + cost ≡ gas
Took gas (err e, f) = f.gas ≤ gas
Took gas (panic, f) = f.gas ≤ gas

charge_unless-Took :
    (warm : Bool) (cost : ℕ) (f : Frame) → Took f.gas (Cold.charge_unless warm cost f)
unfolding Cold.charge_unless Cold.charge_now use_gas
charge_unless-Took true cost f = omega arith
charge_unless-Took false cost f = elim (Bool-cases (ltb f.gas cost)) [
  | inl h ↦ rw h (omega arith)
  | inr h ↦ rw h (ground arith)
]

resolve_delegation-Took :
    (target : Option Address) (f : Frame) → Took f.gas (Cold.resolve_delegation target f)
unfolding Cold.resolve_delegation Cold.touch
resolve_delegation-Took none f = omega arith
resolve_delegation-Took (some target) f =
    elim (Bool-cases (Ops.address_in_access_list f.db target)) [
      | inl h ↦ rw h (charge_unless-Took false _ _)
      | inr h ↦ rw h (charge_unless-Took false _ _)
    ]

bind-IsSettled :
    {A : Type 0} (gas : ℕ) (r : Outcome A × Frame) (k : A → M ℕ)
    → r.1.gas ≡ gas
    → ((a : A) (f : Frame) → f.gas ≡ gas → IsSettled gas (k a f))
    → IsSettled gas (((λ f. r) >>= k) r.1)
bind-IsSettled gas (ok a, f) k h hk = hk a f h
bind-IsSettled gas (err e, f) k h hk = omega arith
bind-IsSettled gas (panic, f) k h hk = omega arith

Took-IsSettled :
    (gas left : ℕ) (r : Outcome ℕ × Frame) (k : ℕ → M ℕ)
    → left ≤ gas
    → Took left r
    → ((cost : ℕ) (f : Frame) → f.gas + cost ≡ left → IsSettled gas (k cost f))
    → IsSettled gas (((λ f. r) >>= k) r.1)
Took-IsSettled gas left (ok cost, f) k p h hk = hk cost f h
Took-IsSettled gas left (err e, f) k p h hk = omega (arith, h)
Took-IsSettled gas left (panic, f) k p h hk = omega (arith, h)

module _ (u : Uint256) (b : Backend) where
  charged_2929-IsSettled :
      (c : Call) (n gas : ℕ) (warm : Bool) (f : Frame)
      → IsU64 gas
      → f.gas ≡ gas
      → IsSettled gas (Cold.charged_2929 (calculator u b c) n warm f)
  unfolding Cold.charged_2929 Cold.charge_now use_gas
  charged_2929-IsSettled c n gas true f h e =
      IsSettled-kept gas _ (calculator-KeepsGas u b c n f ∙ e)
  charged_2929-IsSettled c n gas false f h e = elim (Bool-cases (ltb f.gas Cold.cold_cost)) [
    | inl short ↦ rw short (omega (arith, e))
    | inr enough ↦ rw enough (
        put_back_2929 gas Cold.cold_cost _ h (ground arith)
          (calculator-KeepsGas u b c n _ ∙ ap (λ x. x - Cold.cold_cost) e))
  ]

  -- For each of the four calls, a contract whose gas is a uint64: the EIP-2929 variant leaves it the same
  -- gas when it succeeds, though it charges a cold address at once, and no more when it fails.
  pub call_variant_2929-IsSettled :
      (c : Call) (n : ℕ) (f : Frame)
      → IsU64 f.gas
      → IsSettled f.gas (Cold.make_call_variant_gas_call_eip2929 u b (calculator u b c) n f)
  unfolding Cold.make_call_variant_gas_call_eip2929
  call_variant_2929-IsSettled c n f h = bind-IsSettled f.gas (back 1 f) _ refl (λ item f1 e.
      bind-IsSettled f.gas (Cold.touch _ f1) _ (touch-KeepsGas _ f1 ∙ e)
        (λ warm f2 e2. charged_2929-IsSettled c n f.gas warm f2 h e2))

  put_back_7702 :
      (gas charged : ℕ) (r : Outcome ℕ × Frame)
      → IsU64 gas
      → r.1.gas + charged ≡ gas
      → IsSettled gas
          (((λ f. r) >>= (λ old. Cold.give_back charged >> checked (safe_add old charged))) r.1)
  unfolding Cold.give_back safe_add
  put_back_7702 gas charged (ok old, f) h e = ground arith
  put_back_7702 gas charged (err x, f) h e = omega (arith, e)
  put_back_7702 gas charged (panic, f) h e = omega (arith, e)

  -- For each of the four calls, a contract whose gas is a uint64: the EIP-7702 variant leaves it the same
  -- gas when it succeeds, though it charges a cold address and a delegation at once, and no more when it
  -- fails.
  pub call_variant_7702-IsSettled :
      (c : Call) (n : ℕ) (f : Frame)
      → IsU64 f.gas
      → IsSettled f.gas (Cold.make_call_variant_gas_call_eip7702 u b (calculator u b c) n f)
  unfolding Cold.make_call_variant_gas_call_eip7702
  call_variant_7702-IsSettled c n f h = bind-IsSettled f.gas (back 1 f) _ refl (λ item f1 e1.
      bind-IsSettled f.gas (Cold.touch _ f1) _ (touch-KeepsGas _ f1 ∙ e1) (λ warm f2 e2.
        Took-IsSettled f.gas f2.gas (Cold.charge_unless warm Cold.cold_cost f2) _
          (omega (arith, e2)) (charge_unless-Took warm Cold.cold_cost f2)
          (λ access f3 e3.
            Took-IsSettled f.gas f3.gas (Cold.resolve_delegation _ _) _ (omega (arith, e2, e3))
              (resolve_delegation-Took _ _)
              (λ resolution f4 e4.
                put_back_7702 f.gas (access + resolution) (calculator u b c n f4) h
                  (omega (arith, e2, e3, e4, calculator-KeepsGas u b c n f4))))))
