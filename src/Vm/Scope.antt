-- ===== src/Vm/Scope.antt =====
-- What an instruction of the vm package works on: the fields of ScopeContext and of the interpreter
-- that it may change, and what it only reads. An instruction goes on, ends the run with an error or the
-- stop token and the data that it returns, or panics.
use cardinal_evm.Prelude.{ℕ, Bool, Option, none, some, List, [], ◌∷◌, ℤ}
use cardinal_evm.State.Account.{Address, Hash, Bytes, Backend}
use cardinal_evm.State.Db.{StateDb}
use cardinal_evm.Vm.Uint256.{Uint256}
use cardinal_evm.Vm.Memory.{Memory}
use cardinal_evm.Vm.Stack
use cardinal_evm.Vm.Stack.{Stack}
use cardinal_evm.Vm.Contract.{Contract}
use cardinal_evm.Vm.Frame.{Rules}

-- errStopToken and the errors of vm/errors.go.
pub data Exit : Type 0 where
  stop_token execution_reverted invalid_jump write_protection return_data_out_of_bounds : Exit
  stack_underflow stack_overflow out_of_gas gas_uint_overflow : Exit
  invalid_op_code : ℕ → Exit

-- `return_data` is the interpreter's.
pub record Scope : Type 0 where
  pub stack : Stack
  pub mem : Memory
  pub db : StateDb
  pub pc : ℕ
  pub return_data : Bytes
  pub contract : Contract

-- The arithmetic of holiman/uint256 that only the instructions call; `rem` and `srem` are Mod and SMod, `from_big` is FromBig, which
-- takes the low 256 bits, `set_bytes` SetBytes, and `sign` whether Sign() is not negative.
pub record Arith : Type 0 where
  pub add : ℕ → ℕ → ℕ
  pub sub : ℕ → ℕ → ℕ
  pub mul : ℕ → ℕ → ℕ
  pub div : ℕ → ℕ → ℕ
  pub sdiv : ℕ → ℕ → ℕ
  pub rem : ℕ → ℕ → ℕ
  pub srem : ℕ → ℕ → ℕ
  pub exp : ℕ → ℕ → ℕ
  pub extend_sign : ℕ → ℕ → ℕ
  pub and : ℕ → ℕ → ℕ
  pub or : ℕ → ℕ → ℕ
  pub xor : ℕ → ℕ → ℕ
  pub byte : ℕ → ℕ → ℕ
  pub lsh : ℕ → ℕ → ℕ
  pub rsh : ℕ → ℕ → ℕ
  pub srsh : ℕ → ℕ → ℕ
  pub add_mod : ℕ → ℕ → ℕ → ℕ
  pub mul_mod : ℕ → ℕ → ℕ → ℕ
  pub not : ℕ → ℕ
  pub lt : ℕ → ℕ → Bool
  pub slt : ℕ → ℕ → Bool
  pub sgt : ℕ → ℕ → Bool
  pub eq : ℕ → ℕ → Bool
  pub sign : ℕ → Bool
  pub from_big : ℤ → ℕ
  pub set_bytes : Bytes → ℕ

-- The block, the transaction and the configuration, as an instruction sees them. `abort` is the flag
-- that another thread may set: whether it is set when this much gas is left.
pub record Host : Type 0 where
  pub words : Uint256
  pub arith : Arith
  pub backend : Backend
  pub rules : Rules
  pub is_homestead : Bool
  pub read_only : Bool
  pub abort : ℕ → Bool
  pub origin : Address
  pub coinbase : Address
  pub gas_price : ℕ
  pub timestamp : ℕ
  pub number : ℕ
  pub difficulty : ℕ
  pub random : ℕ
  pub gas_limit : ℕ
  pub base_fee : ℕ
  pub blob_base_fee : ℕ
  pub chain_id : ℕ
  pub blob_hashes : List Hash
  pub get_hash : ℕ → Hash

pub data Step (A : Type 0) : Type 0 where
  ok : A → Scope → Step A
  exit : Exit → Bytes → Scope → Step A
  crash : Step A

abbrev pub X : Type 0 → Type 0
X A = Scope → Step A

infixl 5 ◌>>=◌ ◌>>◌
abbrev after : {A B : Type 0} → Step A → (A → X B) → Step B
after (ok a s) k = k a s
after (exit e ret s) k = exit e ret s
after crash k = crash

abbrev pub ◌>>=◌ : {A B : Type 0} → X A → (A → X B) → X B
◌>>=◌ m k s = after (m s) k

abbrev pub ◌>>◌ : {B : Type 0} → X (Unit {0}) → X B → X B
m >> k = m >>= λ _. k

abbrev pub pure : {A : Type 0} → A → X A
pure a s = ok a s

-- `return ret, err`
abbrev pub leave : Exit → Bytes → X (Unit {0})
leave e ret s = exit e ret s

abbrev pub gets : {A : Type 0} → (Scope → A) → X A
gets g s = ok (g s) s

abbrev pub modify : (Scope → Scope) → X (Unit {0})
modify g s = ok tt (g s)

abbrev pub popped : Scope → Option (ℕ × Stack) → Step ℕ
popped s none = crash
popped s (some (x, st)) = ok x (record s { stack = st })

unfoldable pub pop : X ℕ
unfolding Stack.pop
pop s = popped s (Stack.pop s.stack)

unfoldable pub push : ℕ → X (Unit {0})
unfolding Stack.push
push x s = ok tt (record s { stack = Stack.push s.stack x })

abbrev seen : Scope → Option ℕ → Step ℕ
seen s none = crash
seen s (some x) = ok x s

unfoldable pub peek : X ℕ
unfolding Stack.peek
peek s = seen s (Stack.peek s.stack)

-- A write through the pointer that peek answered.
abbrev overwritten : Scope → ℕ → Stack → Step (Unit {0})
overwritten s x [] = crash
overwritten s x (y ∷ st) = ok tt (record s { stack = x ∷ st })

unfoldable pub put_top : ℕ → X (Unit {0})
put_top x s = overwritten s x s.stack

abbrev restacked : Scope → Option Stack → Step (Unit {0})
restacked s none = crash
restacked s (some st) = ok tt (record s { stack = st })

unfoldable pub on_stack : (Stack → Option Stack) → X (Unit {0})
on_stack f s = restacked s (f s.stack)

abbrev stored : Scope → Option Memory → Step (Unit {0})
stored s none = crash
stored s (some m) = ok tt (record s { mem = m })

unfoldable pub on_memory : (Memory → Option Memory) → X (Unit {0})
on_memory f s = stored s (f s.mem)

abbrev loaded : Scope → Option Bytes → Step Bytes
loaded s none = crash
loaded s (some bytes) = ok bytes s

unfoldable pub from_memory : (Memory → Option Bytes) → X Bytes
from_memory f s = loaded s (f s.mem)

-- A StateDB method that answers a value, and one that does not.
abbrev pub ask : {A : Type 0} → (StateDb → A × StateDb) → X A
ask g s = let (a, db) = g s.db in ok a (record s { db = db })

abbrev pub tell : (StateDb → StateDb) → X (Unit {0})
tell g s = ok tt (record s { db = g s.db })
