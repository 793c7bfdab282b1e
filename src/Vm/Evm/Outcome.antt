-- ===== src/Vm/Evm/Outcome.antt =====
-- What a caller of EVM's Call, CallCode, DelegateCall, StaticCall and create gets back (vm/evm.go).
use cardinal_evm.Prelude.{ℕ, ◌≤◌, ◌≡◌, true, Bool, Option, some, IsU64}
use cardinal_evm.State.Account.{Address, Hash, Bytes}
use cardinal_evm.State.Db.{StateDb}
use cardinal_evm.State.Db.Kept.{Unchanged}
use cardinal_evm.State.Db.Undo.{IsValid}
use cardinal_evm.Vm.JumpTable.Validate.{fork_of}
use cardinal_evm.Vm.Interpreter.Sound.{from_berlin}
use cardinal_evm.Vm.Interpreter.Calls.{Answer, CallError}
use cardinal_evm.Vm.Evm.{
  Setup, ContractRef, evm_at, call, call_code, delegate_call, static_call, create_entered,
}
use cardinal_evm.Vm.Evm.Frugal
use cardinal_evm.Vm.Evm.Frugal.{Leaves, to_frugal}
use cardinal_evm.Vm.Evm.Restores.{Undone, Undone-Unchanged, FailsClean, Undone-FailsClean}
use cardinal_evm.Vm.Evm.Restores.Methods

pub data Method : Type 0 where
  by_call by_call_code by_delegate_call by_static_call : Method

-- One of the four at a depth, over the EVM with `n` levels left; the last two have no value.
unfoldable pub called :
    (x : Setup) (n level : ℕ) (read_only : Bool)
    → Method
    → ContractRef
    → StateDb
    → Bytes
    → Address
    → ℕ
    → ℕ
    → Option Answer
unfolding call call_code delegate_call static_call
called x n level read_only by_call caller db input a gas value =
    call x level (evm_at x n) read_only caller db input a gas value
called x n level read_only by_call_code caller db input a gas value =
    call_code x level (evm_at x n) read_only caller db input a gas value
called x n level read_only by_delegate_call caller db input a gas value =
    delegate_call x level (evm_at x n) read_only caller db input a gas
called x n level read_only by_static_call caller db input a gas value =
    static_call x level (evm_at x n) read_only caller db input a gas

module _ (x : Setup) where
  called-Undone :
      (n level : ℕ) (read_only : Bool) (m : Method) (caller : ContractRef) (db : StateDb)
      (input : Bytes) (a : Address) (gas value : ℕ)
      → Undone x.host.backend db (called x n level read_only m caller db input a gas value)
  unfolding called
  called-Undone n level read_only by_call caller db input a gas value =
      (Methods.calls-Undone x n level read_only caller db input a gas value).0
  called-Undone n level read_only by_call_code caller db input a gas value =
      (Methods.calls-Undone x n level read_only caller db input a gas value).1
  called-Undone n level read_only by_delegate_call caller db input a gas value =
      (Methods.calls-Undone x n level read_only caller db input a gas value).2
  called-Undone n level read_only by_static_call caller db input a gas value =
      (Methods.calls-Undone x n level read_only caller db input a gas value).3

  -- Where Call, CallCode, DelegateCall or StaticCall, by any caller, at any depth and in any mode,
  -- with all the calls and creations that it makes, answers an error from a valid state: the journal
  -- is as before, and each getter of the stateDB but GetCodeHash, Exist and Empty answers as before.
  pub failed_call-Unchanged :
      (n level : ℕ) (read_only : Bool) (m : Method) (caller : ContractRef) (db : StateDb)
      (input : Bytes) (a : Address) (gas value : ℕ) (r : Answer) (e : CallError)
      → IsValid db
      → called x n level read_only m caller db input a gas value ≡ some r
      → r.error ≡ some e
      → Unchanged x.host.backend db r.db
  failed_call-Unchanged n level read_only m caller db input a gas value r e v h q =
      Undone-Unchanged x.host.backend db _ r e
        (called-Undone n level read_only m caller db input a gas value) v h q

  -- From Homestead on, at any depth and in any mode: where a creation that has passed its checks
  -- answers an error, from a valid state, the journal and the answers of each getter of the stateDB but
  -- GetCodeHash, Exist and Empty are as they were when the caller's nonce was raised and the address was
  -- put on the access list.
  pub create_entered-FailsClean :
      (n level : ℕ) (read_only : Bool) (caller : ContractRef) (db : StateDb) (code : Bytes)
      (hash : Hash) (gas value : ℕ) (a : Address)
      → x.rules.is_homestead ≡ true
      → IsValid db
      → FailsClean x.host.backend db
          (create_entered x level (evm_at x n) read_only caller db code hash gas value a)
  create_entered-FailsClean n level read_only caller db code hash gas value a o v =
      Undone-FailsClean x.host.backend db _
        (Methods.creation-Undone x n level read_only caller db code hash gas value a o) v

  module _ (since : from_berlin (fork_of x.rules) ≡ true → x.host.rules.is_eip150 ≡ true) where
    called-Leaves :
        (n level : ℕ) (read_only : Bool) (m : Method) (caller : ContractRef) (db : StateDb)
        (input : Bytes) (a : Address) (gas value : ℕ)
        → IsU64 gas
        → Leaves gas (called x n level read_only m caller db input a gas value)
    unfolding called
    called-Leaves n level read_only by_call caller db input a gas value u =
        Frugal.call-Leaves x since level (evm_at x n) read_only (Frugal.evm_at-IsFrugal x since n)
          caller db input a gas value u
    called-Leaves n level read_only by_call_code caller db input a gas value u =
        Frugal.call_code-Leaves x since level (evm_at x n) read_only
          (Frugal.evm_at-IsFrugal x since n) caller db input a gas value u
    called-Leaves n level read_only by_delegate_call caller db input a gas value u =
        Frugal.delegate_call-Leaves x since level (evm_at x n) read_only
          (Frugal.evm_at-IsFrugal x since n) caller db input a gas u
    called-Leaves n level read_only by_static_call caller db input a gas value u =
        Frugal.static_call-Leaves x since level (evm_at x n) read_only
          (Frugal.evm_at-IsFrugal x since n) caller db input a gas u

    -- Call, CallCode, DelegateCall and StaticCall, by any caller, at any depth and in any mode, leave
    -- over no more than the uint64 of gas they are given, with or without an error, where from Berlin
    -- on the rules include EIP-150.
    pub called-left_le :
        (n level : ℕ) (read_only : Bool) (m : Method) (caller : ContractRef) (db : StateDb)
        (input : Bytes) (a : Address) (gas value : ℕ) (r : Answer)
        → IsU64 gas
        → called x n level read_only m caller db input a gas value ≡ some r
        → r.left ≤ gas
    called-left_le n level read_only m caller db input a gas value r u e =
        Frugal.to_frugal x since level (evm_at x n) read_only (Frugal.evm_at-IsFrugal x since n) gas
          r _ (called-Leaves n level read_only m caller db input a gas value u) e
