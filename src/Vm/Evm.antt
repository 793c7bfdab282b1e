-- ===== src/Vm/Evm.antt =====
-- vm/evm.go: the calls and the creations of EVM, on which the interpreter's instructions depend and
-- which run the interpreter again one level deeper. The tracer's calls are left out, and CanTransfer
-- and Transfer are the default ones.
pub mod Tests
pub mod Frugal
pub mod Restores
pub mod Outcome
use cardinal_evm.Prelude.{
  ℕ, zero, suc, ◌+◌, ◌-◌, ◌==◌, ltb, Bool, true, false, not, ◌&&◌, ◌||◌, if◌then◌else◌, Option,
  none, some, ◌>>=◌, List, [], ◌∷◌, length, Map, empty_map, add64, mul64, ℤ, pos,
}
use cardinal_evm.Prelude.Int.{ltb_ℤ}
use cardinal_evm.State.Account.{Address, Hash, Bytes, Backend, empty_code}
use cardinal_evm.State.Db.{StateDb, snapshot, revert_to_snapshot}
use cardinal_evm.State.Db.Ops
use cardinal_evm.Vm.Analysis.{Bitvec}
use cardinal_evm.Vm.Contract.{Contract, new_contract, as_delegate, set_call_code}
use cardinal_evm.Vm.Contracts.{Precompiled, precompile}
use cardinal_evm.Vm.Contracts.Prices
use cardinal_evm.Vm.Contracts.Runs.{Crypto, run_precompiled_contract}
use cardinal_evm.Vm.GasTable.Calls.Cold.{parse_delegation}
use cardinal_evm.Vm.JumpTable.Validate.{ChainRules, jump_table}
use cardinal_evm.Vm.Scope.{Scope, Host, stop_token, execution_reverted}
use cardinal_evm.Vm.Interpreter.{Round, next, done, panic, run}
use cardinal_evm.Vm.Interpreter.Calls.{
  Answer, CallError, Evm, reverted, code_store_out_of_gas, depth, insufficient_balance,
  contract_address_collision, max_code_size_exceeded, invalid_code, precompile_failed, ended_with,
  without,
}

-- What NewEVM is given, and the two address functions of the crypto package.
pub record Setup : Type 0 where
  pub host : Host
  pub rules : ChainRules
  pub disabled : List ℕ
  pub crypto : Crypto
  pub create_address : Address → ℕ → Address
  pub create_address2 : Address → Hash → Hash → Address

-- The caller: an account, or a running contract.
pub data ContractRef : Type 0 where
  account_ref : Address → ContractRef
  contract_ref : Contract → ContractRef

abbrev pub address_of : ContractRef → Address
address_of (account_ref a) = a
address_of (contract_ref c) = c.address

-- The jump analyses that a contract made by this caller shares.
abbrev pub parent : ContractRef → Option (Map Bitvec)
parent (account_ref a) = none
parent (contract_ref c) = some c.jumpdests

abbrev pub shared : ContractRef → Map Bitvec
shared (account_ref a) = empty_map
shared (contract_ref c) = c.jumpdests

-- AsDelegate, which panics where the caller is no contract.
abbrev pub delegating : ContractRef → Contract → Option Contract
delegating (account_ref a) c = none
delegating (contract_ref c') c = some (as_delegate c' c)

-- The answer of a method without a run.
abbrev pub answer : ContractRef → StateDb → Bytes → ℕ → Option CallError → Answer
answer caller db ret left error = record {
  ret = ret;
  created = 0;
  left = left;
  error = error;
  db = db;
  jumpdests = shared caller;
}

abbrev pub precompiled_answer : ContractRef → StateDb → Option Bytes × ℕ → Answer
precompiled_answer caller db (some ret, left) = answer caller db ret left none
precompiled_answer caller db (none, left) = answer caller db [] left (some precompile_failed)

-- What Run returns, the stop token being no error.
abbrev pub result_of : Option Round → Option Answer
result_of none = none
result_of (some (next m)) = none
result_of (some panic) = none
result_of (some (done stop_token ret m)) = some (record {
  ret = ret;
  created = 0;
  left = m.gas;
  error = none;
  db = m.scope.db;
  jumpdests = m.scope.contract.jumpdests;
})
result_of (some (done execution_reverted ret m)) = some (record {
  ret = ret;
  created = 0;
  left = m.gas;
  error = some reverted;
  db = m.scope.db;
  jumpdests = m.scope.contract.jumpdests;
})
result_of (some (done e ret m)) = some (record {
  ret = ret;
  created = 0;
  left = m.gas;
  error = some (ended_with e);
  db = m.scope.db;
  jumpdests = m.scope.contract.jumpdests;
})

abbrev pub reverted_to : ℕ → Answer → ℕ → Option Answer
reverted_to snap r left = do
  db ← revert_to_snapshot snap r.db
  some (record r { db = db; left = left })

-- The end of the four calls: an error reverts to the snapshot, and takes the gas unless it is
-- ErrExecutionReverted.
unfoldable pub end_call : ℕ → Option CallError → Answer → Option Answer
end_call snap none r = some r
end_call snap (some reverted) r = reverted_to snap r r.left
end_call snap (some e) r = reverted_to snap r 0

unfoldable pub end_of : ℕ → Answer → Option Answer
unfolding end_call
end_of snap r = end_call snap r.error r

abbrev is_none : {A : Type 0} → Option A → Bool
is_none none = true
is_none (some a) = false

abbrev starts_with_ef : Bytes → Bool
starts_with_ef [] = false
starts_with_ef (x ∷ xs) = x == 0xef

module _ (x : Setup) where
  abbrev backend : Backend
  backend = x.host.backend

  unfoldable pub can_transfer : StateDb → Address → ℕ → Bool × StateDb
  unfolding Ops.get_balance
  can_transfer db a value =
      let (balance, db') = Ops.get_balance backend db a in (not (ltb_ℤ balance (pos value)), db')

  unfoldable pub transfer : StateDb → Address → Address → ℕ → StateDb
  unfolding Ops.sub_balance Ops.add_balance
  transfer db sender recipient value =
      Ops.add_balance (Ops.sub_balance db sender (pos value)) recipient (pos value)

  unfoldable pub resolve_code : StateDb → Address → Bytes × StateDb
  unfolding Ops.get_code
  resolve_code db a =
      let (code, db') = Ops.get_code backend db a in
      if x.rules.is_prague
      then elim (parse_delegation code) [
        | none ↦ (code, db')
        | some target ↦ Ops.get_code backend db' target
      ]
      else (code, db')

  unfoldable pub resolve_code_hash : StateDb → Address → Hash × StateDb
  unfolding Ops.get_code Ops.get_code_hash
  resolve_code_hash db a =
      let (code, db') = Ops.get_code backend db a in
      if x.rules.is_prague
      then elim (parse_delegation code) [
        | none ↦ Ops.get_code_hash backend db' a
        | some target ↦ Ops.get_code_hash backend db' target
      ]
      else Ops.get_code_hash backend db a

  -- The methods of an EVM at a depth, whose runs call `inner`, one level deeper; `read_only` is the
  -- interpreter's flag.
  module _ (level : ℕ) (inner : Bool → Evm) (read_only : Bool) where
    -- Run, which sets the flag for its length. Every round but the last takes gas, so that the fuel is
    -- enough. The first gas function sets callGasTemp before it is read.
    unfoldable pub interpret : Bool → StateDb → Contract → Bytes → ℕ → Option Round
    interpret static db c input gas =
        run (record x.host { read_only = read_only || static }) (inner (read_only || static))
          (jump_table x.rules x.disabled) (gas + 1) db c input gas 0

    too_deep : Bool
    too_deep = ltb Prices.call_create_depth level

    -- The code of an account, run as `c`: the hash is resolved before the code, as Go evaluates the
    -- arguments.
    unfoldable pub run_code_of : StateDb → Address → Contract → Bytes → ℕ → Option Answer
    unfolding interpret resolve_code resolve_code_hash set_call_code
    run_code_of db a c input gas =
        let (hash, db1) = resolve_code_hash db a in
        let (code, db2) = resolve_code db1 a in
        result_of (interpret false db2 (set_call_code c hash code) input gas)

    module _ (caller : ContractRef) where
      unfoldable pub run_precompile : Precompiled → StateDb → Bytes → ℕ → Answer
      run_precompile p db input gas =
          precompiled_answer caller db (run_precompiled_contract x.crypto p input gas)

      unfoldable pub run_account : StateDb → Bytes → Address → ℕ → ℕ → Option Answer
      unfolding interpret resolve_code resolve_code_hash set_call_code new_contract
      run_account db input a gas value =
          let (code, db1) = resolve_code db a in
          let (hash, db2) = resolve_code_hash db1 a in
          if length code == 0
          then some (answer caller db1 [] gas none)
          else result_of (
              interpret false db2
                (set_call_code (new_contract (address_of caller) (parent caller) a value) hash code)
                input gas)

      unfoldable pub call_body :
          Option Precompiled → StateDb → Bytes → Address → ℕ → ℕ → Option Answer
      unfolding run_precompile run_account
      call_body (some p) db input a gas value = some (run_precompile p db input gas)
      call_body none db input a gas value = run_account db input a gas value

      unfoldable pub call_entered : StateDb → Bytes → Address → ℕ → ℕ → Option Answer
      unfolding call_body end_of transfer
      call_entered db input a gas value =
          let p = precompile x.rules a in
          let (there, db1) = Ops.exist backend db a in
          if not there && is_none p && x.rules.is_eip158 && (value == 0)
          then some (answer caller db1 [] gas none)
          else (do
            let db2 = if there then db1 else Ops.create_account backend db1 a
            r ← call_body p (transfer db2 (address_of caller) a value) input a gas value
            end_of (snapshot db) r)

      unfoldable pub call : StateDb → Bytes → Address → ℕ → ℕ → Option Answer
      unfolding call_entered can_transfer too_deep
      call db input a gas value =
          let (funded, db1) =
            if value == 0 then (true, db) else can_transfer db (address_of caller) value in
          if too_deep
          then some (answer caller db [] gas (some depth))
          else if not funded
          then some (answer caller db1 [] gas (some insufficient_balance))
          else call_entered db1 input a gas value

      unfoldable pub call_code_body :
          Option Precompiled → StateDb → Bytes → Address → ℕ → ℕ → Option Answer
      unfolding run_precompile run_code_of new_contract
      call_code_body (some p) db input a gas value = some (run_precompile p db input gas)
      call_code_body none db input a gas value =
          run_code_of db a
            (new_contract (address_of caller) (parent caller) (address_of caller) value) input gas

      unfoldable pub call_code : StateDb → Bytes → Address → ℕ → ℕ → Option Answer
      unfolding call_code_body can_transfer too_deep end_of
      call_code db input a gas value =
          let (funded, db1) = can_transfer db (address_of caller) value in
          if too_deep
          then some (answer caller db [] gas (some depth))
          else if not funded
          then some (answer caller db1 [] gas (some insufficient_balance))
          else (call_code_body (precompile x.rules a) db1 input a gas value >>= λ r.
              end_of (snapshot db1) r)

      unfoldable pub delegate_call_body :
          Option Precompiled → StateDb → Bytes → Address → ℕ → Option Answer
      unfolding run_precompile run_code_of new_contract
      delegate_call_body (some p) db input a gas = some (run_precompile p db input gas)
      delegate_call_body none db input a gas = do
        c ←
            delegating caller
              (new_contract (address_of caller) (parent caller) (address_of caller) 0)
        run_code_of db a c input gas

      unfoldable pub delegate_call : StateDb → Bytes → Address → ℕ → Option Answer
      unfolding delegate_call_body too_deep end_of
      delegate_call db input a gas =
          if too_deep
          then some (answer caller db [] gas (some depth))
          else (delegate_call_body (precompile x.rules a) db input a gas >>= λ r.
              end_of (snapshot db) r)

      unfoldable pub static_call_body :
          Option Precompiled → StateDb → Bytes → Address → ℕ → Option Answer
      unfolding run_precompile interpret new_contract set_call_code
      static_call_body (some p) db input a gas = some (run_precompile p db input gas)
      static_call_body none db input a gas =
          let (hash, db1) = Ops.get_code_hash backend db a in
          let (code, db2) = Ops.get_code backend db1 a in
          result_of (
            interpret true db2
              (set_call_code (new_contract (address_of caller) (parent caller) a 0) hash code) input
              gas)

      unfoldable pub static_call : StateDb → Bytes → Address → ℕ → Option Answer
      unfolding static_call_body too_deep end_of
      static_call db input a gas =
          if too_deep
          then some (answer caller db [] gas (some depth))
          else (static_call_body (precompile x.rules a) (Ops.add_balance db a (pos 0)) input a gas
              >>= λ r. end_of (snapshot db) r)

      -- The checks of the code that the creation returned, and its storage.
      unfoldable pub oversized : Bytes → Bool
      oversized ret =
          x.rules.is_eip158
          && (if x.rules.is_pip30 && ltb Prices.max_code_size_pip30 (length ret)
              then true
              else ltb Prices.max_code_size (length ret))

      unfoldable pub check_code : Answer → Answer
      unfolding oversized
      check_code r =
          if is_none r.error && oversized r.ret
          then record r { error = some max_code_size_exceeded }
          else if is_none r.error && starts_with_ef r.ret && x.rules.is_london
          then record r { error = some invalid_code }
          else r

      unfoldable pub store_code : Address → Answer → Answer
      store_code a r =
          let cost = mul64 (length r.ret) Prices.create_data_gas in
          if not (is_none r.error)
          then r
          else if ltb r.left cost
          then record r { error = some code_store_out_of_gas }
          else record r { left = r.left - cost; db = Ops.set_code backend r.db a r.ret }

      -- Before Homestead, ErrCodeStoreOutOfGas keeps the state and the gas.
      unfoldable pub end_create : ℕ → Option CallError → Answer → Option Answer
      unfolding end_call
      end_create snap (some code_store_out_of_gas) r =
          if x.rules.is_homestead then reverted_to snap r 0 else some r
      end_create snap e r = end_call snap e r

      unfoldable pub finish_create : ℕ → Address → Answer → Option Answer
      unfolding end_create check_code store_code
      finish_create snap a r =
          let stored = store_code a (check_code r) in
          end_create snap stored.error (record stored { created = a })

      unfoldable pub init_state : StateDb → Address → ℕ → StateDb
      unfolding transfer
      init_state db a value =
          let db1 = Ops.create_account backend db a in
          transfer (if x.rules.is_eip158 then Ops.set_nonce db1 a 1 else db1) (address_of caller) a
            value

      unfoldable pub create_entered : StateDb → Bytes → Hash → ℕ → ℕ → Address → Option Answer
      unfolding init_state finish_create interpret new_contract set_call_code
      create_entered db code hash gas value a = do
        r ← result_of (
            interpret false (init_state db a value)
              (set_call_code (new_contract (address_of caller) (parent caller) a value) hash code)
              [] gas)
        finish_create (snapshot db) a r

      -- What stays of a creation that fails: the caller's nonce, and the address on the access list.
      unfoldable pub before_create : StateDb → Address → StateDb
      before_create db a =
          let (nonce, db1) = Ops.get_nonce backend db (address_of caller) in
          let db2 = Ops.set_nonce db1 (address_of caller) (add64 nonce 1) in
          if x.rules.is_berlin then Ops.add_address_to_access_list db2 a else db2

      unfoldable pub create_funded : StateDb → Bytes → Hash → ℕ → ℕ → Address → Option Answer
      unfolding create_entered before_create
      create_funded db code hash gas value a =
          let (contract_hash, db1) = Ops.get_code_hash backend (before_create db a) a in
          let (nonce, db2) = Ops.get_nonce backend db1 a in
          if not (nonce == 0)
            || (not (contract_hash == 0) && not (contract_hash == empty_code backend))
          then some (answer caller db2 [] 0 (some contract_address_collision))
          else create_entered db2 code hash gas value a

      unfoldable pub create_at : StateDb → Bytes → Hash → ℕ → ℕ → Address → Option Answer
      unfolding create_funded can_transfer too_deep
      create_at db code hash gas value a =
          let (funded, db1) = can_transfer db (address_of caller) value in
          if too_deep
          then some (answer caller db [] gas (some depth))
          else if not funded
          then some (answer caller db1 [] gas (some insufficient_balance))
          else create_funded db1 code hash gas value a

      unfoldable pub create : StateDb → Bytes → ℕ → ℕ → Option Answer
      unfolding create_at
      create db code gas value =
          let (nonce, db1) = Ops.get_nonce backend db (address_of caller) in
          create_at db1 code 0 gas value (x.create_address (address_of caller) nonce)

      unfoldable pub create2 : StateDb → Bytes → ℕ → ℕ → ℕ → Option Answer
      unfolding create_at
      create2 db code gas endowment salt =
          let hash = backend.keccak code in
          create_at db code hash gas endowment (x.create_address2 (address_of caller) salt hash)

    -- What the instructions of a contract call.
    unfoldable pub methods : Evm
    unfolding call call_code delegate_call static_call create create2
    methods = record {
      call = λ s input a gas value. call (contract_ref s.contract) s.db input a gas value;
      call_code = λ s input a gas value. call_code (contract_ref s.contract) s.db input a gas value;
      delegate_call = λ s input a gas. delegate_call (contract_ref s.contract) s.db input a gas;
      static_call = λ s input a gas. static_call (contract_ref s.contract) s.db input a gas;
      create = λ s input gas value. create (contract_ref s.contract) s.db input gas value;
      create2 =
          λ s input gas value salt. create2 (contract_ref s.contract) s.db input gas value salt;
    }

  -- Below the depth where every method refuses.
  no_evm : Evm
  no_evm = record {
    call = λ s input a gas value. none;
    call_code = λ s input a gas value. none;
    delegate_call = λ s input a gas. none;
    static_call = λ s input a gas. none;
    create = λ s input gas value. none;
    create2 = λ s input gas value salt. none;
  }

  -- The EVM with `n` levels left: the depth is CallCreateDepth + 1 - n.
  unfoldable pub evm_at : ℕ → Bool → Evm
  unfolding methods no_evm
  evm_at zero read_only = methods (Prices.call_create_depth + 1) (λ r. no_evm) read_only
  evm_at (suc n) read_only = methods (Prices.call_create_depth - n) (evm_at n) read_only
