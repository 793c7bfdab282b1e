-- ===== src/Vm/GasTable/Calls/Keeps.antt =====
-- The gas of the contract across the gas functions of the calls: what the variants charge at once for
-- a cold address, or for a delegation, is put back when they succeed.
use cardinal_evm.Prelude.{ℕ, ◌-◌, ◌≤◌, ◌≡◌, refl, ◌∙◌, arith, IsU64, add64}
use cardinal_evm.Prelude.{Bool, true, not, ◌&&◌, Bool-cases, inl, inr}
use cardinal_evm.State.Account.{Address, Backend}
use cardinal_evm.State.Db.Ops
use cardinal_evm.Vm.Uint256.{Uint256}
use cardinal_evm.Vm.Frame.{Frame, Outcome, ok, err, panic, M, ◌>>=◌, ◌>>◌, pure, back, checked}
use cardinal_evm.Vm.GasTable.{memory_gas_cost}
use cardinal_evm.Vm.GasTable.Calls
use cardinal_evm.Vm.GasTable.Calls.Cold

abbrev pub KeepsGas : {A : Type 0} → M A → Type 0
KeepsGas m = (f : Frame) → (m f).1.gas ≡ f.gas

continue-keeps :
    {A B : Type 0} (g : ℕ) (r : Outcome A × Frame) (k : A → M B)
    → r.1.gas ≡ g
    → ((a : A) → KeepsGas (k a))
    → (((λ f. r) >>= k) r.1).1.gas ≡ g
continue-keeps g (ok a, f) k h hk = hk a f ∙ h
continue-keeps g (err e, f) k h hk = h
continue-keeps g (panic, f) k h hk = h

bind-KeepsGas :
    {A B : Type 0} (m : M A) (k : A → M B)
    → KeepsGas m
    → ((a : A) → KeepsGas (k a))
    → KeepsGas (m >>= k)
bind-KeepsGas m k h hk f = continue-keeps f.gas (m f) k (h f) hk

memory_gas_cost-KeepsGas : (size : ℕ) → KeepsGas (memory_gas_cost size)
unfolding memory_gas_cost
memory_gas_cost-KeepsGas size f = refl

module _ (u : Uint256) where
  record_call_gas-KeepsGas : (r : Outcome ℕ) → KeepsGas (Calls.record_call_gas u r)
  unfolding Calls.record_call_gas
  record_call_gas-KeepsGas (ok g) f = refl
  record_call_gas-KeepsGas (err e) f = refl
  record_call_gas-KeepsGas panic f = refl

  add_call_gas-KeepsGas : (gas : ℕ) → KeepsGas (Calls.add_call_gas u gas)
  unfolding Calls.add_call_gas
  add_call_gas-KeepsGas gas f =
      bind-KeepsGas (back 0) _ (λ f. refl)
        (λ cost.
          bind-KeepsGas (Calls.record_call_gas u _) _ (record_call_gas-KeepsGas _) (λ a f. refl))
        f

  gas_delegate_call-KeepsGas : (n : ℕ) → KeepsGas (Calls.gas_delegate_call u n)
  unfolding Calls.gas_delegate_call
  gas_delegate_call-KeepsGas n =
      bind-KeepsGas (memory_gas_cost n) _ (memory_gas_cost-KeepsGas n) add_call_gas-KeepsGas

  gas_static_call-KeepsGas : (n : ℕ) → KeepsGas (Calls.gas_static_call u n)
  unfolding Calls.gas_static_call
  gas_static_call-KeepsGas n =
      bind-KeepsGas (memory_gas_cost n) _ (memory_gas_cost-KeepsGas n) add_call_gas-KeepsGas

  gas_call_code-KeepsGas : (n : ℕ) → KeepsGas (Calls.gas_call_code u n)
  unfolding Calls.gas_call_code
  gas_call_code-KeepsGas n =
      bind-KeepsGas (memory_gas_cost n) _ (memory_gas_cost-KeepsGas n) (λ gas.
        bind-KeepsGas (back 2) _ (λ f. refl)
          (λ value. bind-KeepsGas (checked _) _ (λ f. refl) add_call_gas-KeepsGas))

  module _ (b : Backend) where
    new_account-KeepsGas :
        (price : ℕ) (a : Address) → KeepsGas (Calls.new_account u b price a (pure true))
    unfolding Calls.new_account
    new_account-KeepsGas price a f = elim (Bool-cases f.rules.is_eip158) [
      | inl h ↦ elim (Bool-cases (Ops.empty b f.db a).0) [
        | inl e ↦ rw (h, e) refl
        | inr e ↦ rw (h, e) refl
      ]
      | inr h ↦ rw h refl
    ]

    new_callee-KeepsGas : (a : Address) (t : Bool) → KeepsGas (Calls.new_callee u b a t)
    unfolding Calls.new_callee
    new_callee-KeepsGas a t f = elim (Bool-cases (f.rules.is_eip158 && not t)) [
      | inl h ↦ rw h refl
      | inr h ↦ rw h (new_account-KeepsGas _ a f)
    ]

    gas_call-KeepsGas : (n : ℕ) → KeepsGas (Calls.gas_call u b n)
    unfolding Calls.gas_call
    gas_call-KeepsGas n =
        bind-KeepsGas (back 2) _ (λ f. refl)
          (λ value.
            bind-KeepsGas (back 1) _ (λ f. refl)
              (λ callee.
                bind-KeepsGas (Calls.new_callee u b _ _) _ (new_callee-KeepsGas _ _) (λ new.
                  bind-KeepsGas (memory_gas_cost n) _ (memory_gas_cost-KeepsGas n)
                    (λ gas. bind-KeepsGas (checked _) _ (λ f. refl) add_call_gas-KeepsGas))))

-- The four calls.
pub data Call : Type 0 where
  call call_code delegate_call static_call : Call

abbrev pub calculator : Uint256 → Backend → Call → ℕ → M ℕ
calculator u b call = Calls.gas_call u b
calculator u b call_code = Calls.gas_call_code u
calculator u b delegate_call = Calls.gas_delegate_call u
calculator u b static_call = Calls.gas_static_call u

pub calculator-KeepsGas :
    (u : Uint256) (b : Backend) (c : Call) (n : ℕ) → KeepsGas (calculator u b c n)
calculator-KeepsGas u b call = gas_call-KeepsGas u b
calculator-KeepsGas u b call_code = gas_call_code-KeepsGas u
calculator-KeepsGas u b delegate_call = gas_delegate_call-KeepsGas u
calculator-KeepsGas u b static_call = gas_static_call-KeepsGas u

-- Of a contract with `gas` left: a gas function that succeeds leaves it that gas, and one that fails no
-- more than that.
abbrev pub IsSettled : ℕ → Outcome ℕ × Frame → Type 0
IsSettled gas (ok cost, f) = f.gas ≡ gas
IsSettled gas (err e, f) = f.gas ≤ gas
IsSettled gas (panic, f) = f.gas ≤ gas

pub touch-KeepsGas : (a : Address) → KeepsGas (Cold.touch a)
unfolding Cold.touch
touch-KeepsGas a f = elim (Bool-cases (Ops.address_in_access_list f.db a)) [
  | inl h ↦ rw h refl
  | inr h ↦ rw h refl
]

pub IsSettled-kept : (gas : ℕ) (r : Outcome ℕ × Frame) → r.1.gas ≡ gas → IsSettled gas r
IsSettled-kept gas (ok cost, f) h = h
IsSettled-kept gas (err e, f) h = omega arith
IsSettled-kept gas (panic, f) h = omega arith

-- What is left to do after the old calculator ran with `charged` less.
pub put_back_2929 :
    (gas charged : ℕ) (r : Outcome ℕ × Frame)
    → IsU64 gas
    → charged ≤ gas
    → r.1.gas ≡ gas - charged
    → IsSettled gas
        (((λ f. r) >>= (λ cost. Cold.give_back charged >> pure (add64 cost charged))) r.1)
unfolding Cold.give_back
put_back_2929 gas charged (ok cost, f) h p e = ground arith
put_back_2929 gas charged (err e, f) h p k = omega (arith, k)
put_back_2929 gas charged (panic, f) h p k = omega (arith, k)
