-- ===== src/Vm/Contract.antt =====
-- vm/contract.go: a contract, with its two caches of the jump analysis. `jumpdests` is the map that a
-- contract shares with its callers; `analysis` is its own copy.
use cardinal_evm.Prelude.{
  ℕ, ◌==◌, leb, Bool, false, ◌||◌, not, if◌then◌else◌, Option, none, some, ◌>>=◌, [], length,
  get_elem?, Map, empty_map, insert,
}
use cardinal_evm.State.Account.{Address, Hash, Bytes}
use cardinal_evm.Vm.Uint256.{Uint256, uint64_overflows}
use cardinal_evm.Vm.Analysis.{Bitvec, code_bitmap, code_segment, jumpdest}

-- The gas stands in the interpreter's Machine; `address` is self.Address().
pub record Contract : Type 0 where
  pub caller : Address
  pub address : Address
  pub jumpdests : Map Bitvec
  pub analysis : Option Bitvec
  pub code : Bytes
  pub code_hash : Hash
  pub input : Bytes
  pub value : ℕ

-- NewContract: the map of a caller that is a contract, or a new one.
unfoldable pub new_contract : Address → Option (Map Bitvec) → Address → ℕ → Contract
new_contract caller parent object value = record {
  caller = caller;
  address = object;
  jumpdests = elim parent [ none ↦ empty_map | some m ↦ m ];
  analysis = none;
  code = [];
  code_hash = 0;
  input = [];
  value = value;
}

-- AsDelegate: the caller and the value of the parent.
unfoldable pub as_delegate : Contract → Contract → Contract
as_delegate parent c = record c { caller = parent.caller; value = parent.value }

unfoldable pub set_call_code : Contract → Hash → Bytes → Contract
set_call_code c hash code = record c { code = code; code_hash = hash }

abbrev pub stop : ℕ
stop = 0

-- GetOp: STOP past the end.
unfoldable pub get_op : Contract → ℕ → ℕ
get_op c n = elim (get_elem? c.code n) [ none ↦ stop | some op ↦ op ]

-- The analysis that isCode finds or makes, in the order in which it looks; `none` is a panic.
unfoldable pub find_analysis : Contract → Option Bitvec → Option (Bitvec × Contract)
find_analysis c (some bits) = some (bits, record c { analysis = some bits })
find_analysis c none = do
  bits ← code_bitmap c.code
  some (bits, record c { jumpdests = insert c.jumpdests c.code_hash bits; analysis = some bits })

unfoldable pub analyse : Contract → Option Bitvec → Option (Bitvec × Contract)
unfolding find_analysis
analyse c (some bits) = some (bits, c)
analyse c none =
    if not (c.code_hash == 0)
    then find_analysis c (c.jumpdests c.code_hash)
    else (code_bitmap c.code >>= λ bits. some (bits, record c { analysis = some bits }))

unfoldable pub is_code : Contract → ℕ → Option (Bool × Contract)
unfolding analyse
is_code c udest = do
  (bits, c') ← analyse c c.analysis
  answer ← code_segment bits udest
  some (answer, c')

unfoldable pub valid_jumpdest : Uint256 → Contract → ℕ → Option (Bool × Contract)
valid_jumpdest u c dest =
    if uint64_overflows u dest || leb (length c.code) (u.uint64 dest)
    then some (false, c)
    else if not (get_op c (u.uint64 dest) == jumpdest)
    then some (false, c)
    else is_code c (u.uint64 dest)
