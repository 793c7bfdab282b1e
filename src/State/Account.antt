-- ===== src/State/Account.antt =====
-- state/account.go, and what the state package takes from outside: the storage transaction
-- (cardinal-storage), the RLP decoder, Keccak and the 32-byte hash type (cardinal-types).
use cardinal_evm.Prelude.{ℕ, ◌==◌, length, if◌then◌else◌, ℤ}
use cardinal_evm.Prelude.{Option, some, List, [], ◌>>=◌}

-- An address and a hash are the numbers that their 20 and 32 bytes spell.
abbrev pub Address : Type 0
Address = ℕ

abbrev pub Hash : Type 0
Hash = ℕ

abbrev pub Bytes : Type 0
Bytes = List ℕ

pub record Account : Type 0 where
  pub nonce : ℕ
  pub balance : Option ℤ
  pub root : Bytes
  pub code_hash : Bytes

-- The keys that schema/schema.go spells for the chain of the stateDB.
pub data Key : Type 0 where
  account_data : Address → Key
  account_code : Bytes → Key
  account_storage : Address → Hash → Key

-- `get` is `tx.Get` and `tx.ZeroCopyGet` (`none` is an error, a missing key among them),
-- `decode_account` is `rlp.DecodeBytes` into an Account, `split_content` the content that
-- `rlp.Split` returns, `to_hash` is BytesToHash and SetBytes, `to_bytes` is Bytes().
pub record Backend : Type 0 where
  pub get : Key → Option Bytes
  pub decode_account : Bytes → Option Account
  pub split_content : Bytes → Bytes
  pub keccak : Bytes → Hash
  pub to_hash : Bytes → Hash
  pub to_bytes : Hash → Bytes

abbrev pub empty_root : Hash
empty_root = 0x56e81f171bcc55a6ff8345e692c0f86e5b48e01b996cadc001622fb5e363b421

module _ (b : Backend) where
  abbrev pub empty_code : Hash
  empty_code = b.keccak []

  abbrev or_default : Bytes → Hash → Bytes
  or_default bytes h = if length bytes == 0 then b.to_bytes h else bytes

  pub full_account : Bytes → Option Account
  full_account bytes = do
    account ← b.decode_account bytes
    some (record account {
      root = or_default account.root empty_root;
      code_hash = or_default account.code_hash empty_code;
    })

  -- What the storage transaction holds for an account: the read and the parse of loadAccount.
  unfoldable pub stored_account : Address → Option Account
  unfolding full_account
  stored_account a = do bytes ← b.get (account_data a); full_account bytes
