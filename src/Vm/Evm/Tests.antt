-- ===== src/Vm/Evm/Tests.antt =====
-- EVM on the small chain of the state tests, and uses of its theorems there.
use cardinal_evm.Prelude.{◌+◌, ◌≡◌, ◌≢◌, refl, arith, false, none, some, [], ◌∷◌, empty_map, ◌≤◌}
use cardinal_evm.State.Db.{new_state_db, revert_to_snapshot, snapshot}
use cardinal_evm.State.Tests.{chain, new_state_db-IsValid}
use cardinal_evm.Vm.Contract.{Contract, new_contract, set_call_code}
use cardinal_evm.Vm.Contracts.{precompile, lookup, contracts_of, cancun_contracts}
use cardinal_evm.Vm.Contracts.Gas.{required_gas}
use cardinal_evm.Vm.Contracts.Runs.{Crypto, run_precompiled_contract}
use cardinal_evm.Vm.Interpreter.Tests.{host, cancun_rules}
use cardinal_evm.Vm.Interpreter.Calls.{Answer, precompile_failed}
use cardinal_evm.Vm.Evm.{Setup, account_ref, delegate_call, evm_at, interpret, create_entered}
use cardinal_evm.Vm.Evm.Frugal
use cardinal_evm.Vm.Evm.Outcome
use cardinal_evm.Vm.Evm.Restores.{FailsClean}
use cardinal_evm.Vm.Evm.Outcome.{called, by_delegate_call}
use cardinal_evm.State.Db.Kept.{Unchanged}

-- Every hash is empty, every signature is refused, and no point is on a curve.
abbrev crypto : Crypto
crypto = record {
  valid_signature_values = λ v r s. false;
  recover = λ hash sig. none;
  keccak256 = λ bytes. bytes;
  sha256 = λ bytes. bytes;
  ripemd160 = λ bytes. bytes;
  exp = λ base exponent modulus. 0;
  big_bytes = λ n. [];
  curve_point = λ bytes. none;
  twist_point = λ bytes. none;
  bn256_add = λ p q. [];
  bn256_scalar_mult = λ p n. [];
  pairing_check = λ pairs. false;
  blake2b = λ rounds h m t final. [];
  verify_proof = λ commitment point claim proof. false;
  secp256r1_verify = λ hash r s x y. false;
  bls = λ p input. none;
}

abbrev setup : Setup
setup = record {
  host = host false;
  rules = cancun_rules;
  disabled = [];
  crypto = crypto;
  create_address = λ a nonce. a + nonce + 1000;
  create_address2 = λ a salt hash. a + salt + 2000;
}

-- JUMPDEST, PUSH1 0, JUMP.
abbrev spinning : Contract
unfolding set_call_code new_contract
spinning = set_call_code (new_contract 1 none 2 0) 0 (0x5b ∷ 0x60 ∷ 0 ∷ 0x56 ∷ [])

interpret-ne-none_example :
    interpret setup 0 (evm_at setup 1024) false false new_state_db spinning [] 100000 ≢ none
interpret-ne-none_example =
    Frugal.interpret-ne-none setup (λ h. refl) 1024 0 false false new_state_db spinning [] 100000
      (omega arith)

-- A call of ECRECOVER with 2999 gas, which is one too few, by a delegate call.
abbrev failed : Answer
failed = record {
  ret = [];
  created = 0;
  left = 0;
  error = some precompile_failed;
  db = new_state_db;
  jumpdests = empty_map;
}

fails :
    called setup 1024 0 false by_delegate_call (account_ref 1) new_state_db [] 1 2999 0
    ≡ some failed
unfolding called delegate_call precompile lookup contracts_of cancun_contracts required_gas
    run_precompiled_contract revert_to_snapshot snapshot new_state_db
fails = refl

failed_call-Unchanged_example : Unchanged chain new_state_db failed.db
failed_call-Unchanged_example =
    Outcome.failed_call-Unchanged setup 1024 0 false by_delegate_call (account_ref 1) new_state_db
      [] 1 2999 0 failed precompile_failed new_state_db-IsValid fails refl

called-left_le_example : failed.left ≤ 2999
called-left_le_example =
    Outcome.called-left_le setup (λ h. refl) 1024 0 false by_delegate_call (account_ref 1)
      new_state_db [] 1 2999 0 failed (omega arith) fails

-- A creation with 3 of value whose code is an invalid opcode.
create_entered-FailsClean_example : FailsClean chain new_state_db (
    create_entered setup 0
      (evm_at setup 1024)
      false
      (account_ref 1)
      new_state_db
      (0xfe ∷ [])
      0
      50000
      3
      7)
create_entered-FailsClean_example =
    Outcome.create_entered-FailsClean setup 1024 0 false (account_ref 1) new_state_db (0xfe ∷ []) 0
      50000 3 7 refl new_state_db-IsValid
