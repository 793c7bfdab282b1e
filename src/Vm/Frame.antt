-- ===== src/Vm/Frame.antt =====
-- What a gas function of the vm package works on: the parts of EVM, Contract, Stack and Memory that it
-- reads or changes. A gas function answers a cost, an error, or panics, and leaves the frame changed
-- on every one of these ways out.
use cardinal_evm.Prelude.{ℕ, Bool, true, false, if◌then◌else◌, Option, none, some, ltb, ◌-◌}
use cardinal_evm.State.Account.{Address}
use cardinal_evm.State.Db.{StateDb}
use cardinal_evm.Vm.Memory.{Memory}
use cardinal_evm.Vm.Stack
use cardinal_evm.Vm.Stack.{Stack}

pub data VmError : Type 0 where
  gas_uint_overflow out_of_gas reentrancy_sentry : VmError

pub data Outcome (A : Type 0) : Type 0 where
  ok : A → Outcome A
  err : VmError → Outcome A
  panic : Outcome A

-- The fields of params.Rules that the gas functions test.
pub record Rules : Type 0 where
  pub is_eip150 : Bool
  pub is_eip158 : Bool
  pub is_petersburg : Bool
  pub is_constantinople : Bool

-- `address` is contract.Address(), `gas` contract.Gas, `call_gas_temp` evm.callGasTemp.
pub record Frame : Type 0 where
  pub rules : Rules
  pub address : Address
  pub gas : ℕ
  pub stack : Stack
  pub mem : Memory
  pub call_gas_temp : ℕ
  pub db : StateDb

abbrev pub M : Type 0 → Type 0
M A = Frame → Outcome A × Frame

infixl 5 ◌>>=◌ ◌>>◌
abbrev continue : {A B : Type 0} → Outcome A → (A → M B) → M B
continue (ok a) k f = k a f
continue (err e) k f = (err e, f)
continue panic k f = (panic, f)

abbrev pub ◌>>=◌ : {A B : Type 0} → M A → (A → M B) → M B
◌>>=◌ m k f = let (r, f') = m f in continue r k f'

abbrev pub ◌>>◌ : {B : Type 0} → M (Unit {0}) → M B → M B
m >> k = m >>= λ _. k

abbrev pub pure : {A : Type 0} → A → M A
pure a f = (ok a, f)

abbrev pub fail : {A : Type 0} → VmError → M A
fail e f = (err e, f)

abbrev pub gets : {A : Type 0} → (Frame → A) → M A
gets g f = (ok (g f), f)

-- A result that a panic may take the place of.
abbrev pub or_panic : {A : Type 0} → Option A → Outcome A
or_panic none = panic
or_panic (some a) = ok a

abbrev pub lift : {A : Type 0} → (Frame → Option A) → M A
lift g f = (or_panic (g f), f)

-- An answer with an overflow flag.
abbrev pub checked : ℕ × Bool → M ℕ
checked (x, overflow) f = (if overflow then err gas_uint_overflow else ok x, f)

-- stack.Back(n)
abbrev pub back : ℕ → M ℕ
back n = lift (λ f. Stack.back f.stack n)

-- A call of a StateDB method that answers a value, and of one that does not.
abbrev pub ask : {A : Type 0} → (StateDb → A × StateDb) → M A
ask g f = let (a, db) = g f.db in (ok a, record f { db = db })

abbrev pub tell : (StateDb → StateDb) → M (Unit {0})
tell g f = (ok tt, record f { db = g f.db })

-- contract.UseGas: whether the gas was there and is paid.
unfoldable pub use_gas : ℕ → M Bool
use_gas n f = if ltb f.gas n then (ok false, f) else (ok true, record f { gas = f.gas - n })

-- A StateDB method that may panic.
abbrev pub tell_checked : (StateDb → Option StateDb) → M (Unit {0})
tell_checked g f = elim (g f.db) [ none ↦ (panic, f) | some db ↦ (ok tt, record f { db = db }) ]

abbrev pub ask_checked : {A : Type 0} → (StateDb → Option A) → M A
ask_checked g f = (or_panic (g f.db), f)
