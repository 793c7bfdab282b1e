-- ===== src/Vm/Evm/Frugal.antt =====
-- The gas that the methods of EVM leave over, at every depth.
use cardinal_evm.Prelude.{
  ℕ, zero, suc, ◌+◌, ◌-◌, ◌≤◌, ◌≡◌, ◌≢◌, refl, arith, Bool, true, false, ◌||◌, if◌then◌else◌,
  Option, none, some, ◌>>=◌, IsU64,
}
use cardinal_evm.State.Account.{Address, Hash, Bytes}
use cardinal_evm.State.Db.{StateDb}
use cardinal_evm.Vm.Contract.{Contract, new_contract}
use cardinal_evm.Vm.Contracts.{Precompiled}
use cardinal_evm.Vm.Contracts.Prices
use cardinal_evm.Vm.Contracts.Runs.{run_precompiled_contract}
use cardinal_evm.Vm.JumpTable.Validate.{fork_of}
use cardinal_evm.Vm.Interpreter.{Round}
use cardinal_evm.Vm.Interpreter.Calls.{Answer, CallError, Evm, reverted, code_store_out_of_gas}
use cardinal_evm.Vm.Interpreter.Sound.{from_berlin}
use cardinal_evm.Vm.Interpreter.Spent.{IsFrugal}
use cardinal_evm.Vm.Interpreter.Progress.{Finishes, run-Finishes, run-ne-none}
use cardinal_evm.Vm.Evm.{
  Setup, ContractRef, address_of, parent, contract_ref, result_of, end_call, end_of, reverted_to,
  delegating, evm_at, interpret, run_code_of, run_precompile, run_account, call_body, call_entered,
  call, call_code_body, call_code, delegate_call_body, delegate_call, static_call_body, static_call,
  end_create, check_code, store_code, finish_create, create_entered, create_at, create_funded,
  create, create2, methods, no_evm, too_deep,
}

-- The errors after which a method's caller keeps what is left.
abbrev keeps_left : Option CallError → Bool
keeps_left none = true
keeps_left (some reverted) = true
keeps_left (some e) = false

-- A creation keeps it, too, where the code's gas was missing, before Homestead.
abbrev keeps_created : Option CallError → Bool
keeps_created (some code_store_out_of_gas) = true
keeps_created e = keeps_left e

le_refl : (n : ℕ) → n ≤ n
le_refl n = omega arith

zero-le : (n : ℕ) → 0 ≤ n
zero-le n = omega arith

IsFine : ℕ → Option Answer → Type 0
IsFine n none = Unit {0}
IsFine n (some r) = keeps_created r.error ≡ true → r.left ≤ n

pub Leaves : ℕ → Option Answer → Type 0
Leaves n none = Unit {0}
Leaves n (some r) = r.left ≤ n

some-IsFine : (n : ℕ) (r : Answer) → r.left ≤ n → IsFine n (some r)
unfolding IsFine
some-IsFine n r l = λ k. l

none-IsFine : (n : ℕ) → IsFine n none
unfolding IsFine
none-IsFine n = tt

some-Leaves : (n : ℕ) (r : Answer) → r.left ≤ n → Leaves n (some r)
unfolding Leaves
some-Leaves n r l = l

result_of-IsFine : (n : ℕ) (r : Option Round) → Finishes n r → IsFine n (result_of r)
unfolding IsFine
result_of-IsFine n r f = ground (arith, f)

reverted_to-Leaves :
    (snap : ℕ) (r : Answer) (left n : ℕ) → left ≤ n → Leaves n (reverted_to snap r left)
unfolding Leaves
reverted_to-Leaves snap r left n l = ground arith

end_call-Leaves :
    (n snap : ℕ) (e : Option CallError) (r : Answer)
    → (keeps_left e ≡ true → r.left ≤ n)
    → Leaves n (end_call snap e r)
unfolding end_call Leaves
end_call-Leaves n snap e r f = ground (arith, f, reverted_to-Leaves snap r)

keeps_left-created : (e : Option CallError) → keeps_left e ≡ true → keeps_created e ≡ true
keeps_left-created e k = ground arith

ended-Leaves : (n snap : ℕ) (r : Option Answer) → IsFine n r → Leaves n (r >>= λ a. end_of snap a)
unfolding end_of IsFine Leaves
ended-Leaves n snap none f = tt
ended-Leaves n snap (some a) f =
    end_call-Leaves n snap a.error a (λ k. f (keeps_left-created a.error k))

either :
    (P : Option Answer → Type 0) (b : Bool) (r s : Option Answer)
    → P r
    → P s
    → P (if b then r else s)
either P true r s p q = p
either P false r s p q = q

bind-Leaves :
    (n : ℕ) (r : Option Answer) (f : Answer → Option Answer)
    → IsFine n r
    → ((a : Answer) → (keeps_created a.error ≡ true → a.left ≤ n) → Leaves n (f a))
    → Leaves n (r >>= f)
unfolding IsFine Leaves
bind-Leaves n none f h k = tt
bind-Leaves n (some a) f h k = k a h

module _ (x : Setup)
    (since : from_berlin (fork_of x.rules) ≡ true → x.host.rules.is_eip150 ≡ true) where
  module _ (level : ℕ) (inner : Bool → Evm) (read_only : Bool)
      (frugal : (r : Bool) → IsFrugal (inner r)) where
    interpret-IsFine :
        (static : Bool) (db : StateDb) (c : Contract) (input : Bytes) (gas : ℕ)
        → IsU64 gas
        → IsFine gas (result_of (interpret x level inner read_only static db c input gas))
    unfolding interpret
    interpret-IsFine static db c input gas u = result_of-IsFine gas _ (
        run-Finishes _ (inner (read_only || static)) (frugal (read_only || static)) x.rules
          x.disabled since (gas + 1) db c input gas 0 u)

    run_code_of-IsFine :
        (db : StateDb) (a : Address) (c : Contract) (input : Bytes) (gas : ℕ)
        → IsU64 gas
        → IsFine gas (run_code_of x level inner read_only db a c input gas)
    unfolding run_code_of
    run_code_of-IsFine db a c input gas u = interpret-IsFine false _ _ input gas u

    module _ (caller : ContractRef) where
      run_precompile-IsFine :
          (p : Precompiled) (db : StateDb) (input : Bytes) (gas : ℕ)
          → IsU64 gas
          → IsFine gas (some (run_precompile x level inner read_only caller p db input gas))
      unfolding run_precompile run_precompiled_contract IsFine
      run_precompile-IsFine p db input gas u = ground arith

      run_account-IsFine :
          (db : StateDb) (input : Bytes) (a : Address) (gas value : ℕ)
          → IsU64 gas
          → IsFine gas (run_account x level inner read_only caller db input a gas value)
      unfolding run_account
      run_account-IsFine db input a gas value u =
          either (IsFine gas) _ _ _ (some-IsFine gas _ (omega arith))
            (interpret-IsFine false _ _ input gas u)

      call_body-IsFine :
          (p : Option Precompiled) (db : StateDb) (input : Bytes) (a : Address) (gas value : ℕ)
          → IsU64 gas
          → IsFine gas (call_body x level inner read_only caller p db input a gas value)
      unfolding call_body
      call_body-IsFine (some p) db input a gas value u = run_precompile-IsFine p db input gas u
      call_body-IsFine none db input a gas value u = run_account-IsFine db input a gas value u

      call_code_body-IsFine :
          (p : Option Precompiled) (db : StateDb) (input : Bytes) (a : Address) (gas value : ℕ)
          → IsU64 gas
          → IsFine gas (call_code_body x level inner read_only caller p db input a gas value)
      unfolding call_code_body new_contract
      call_code_body-IsFine (some p) db input a gas value u = run_precompile-IsFine p db input gas u
      call_code_body-IsFine none db input a gas value u =
          run_code_of-IsFine db a
            (new_contract (address_of caller) (parent caller) (address_of caller) value) input gas u

      delegate_call_body-IsFine :
          (p : Option Precompiled) (db : StateDb) (input : Bytes) (a : Address) (gas : ℕ)
          → IsU64 gas
          → IsFine gas (delegate_call_body x level inner read_only caller p db input a gas)
      unfolding delegate_call_body new_contract
      delegate_call_body-IsFine (some p) db input a gas u = run_precompile-IsFine p db input gas u
      delegate_call_body-IsFine none db input a gas u = delegated (
          delegating caller
            (new_contract (address_of caller) (parent caller) (address_of caller) 0))
        where
          delegated :
              (c : Option Contract)
              → IsFine gas (c >>= λ c'. run_code_of x level inner read_only db a c' input gas)
          delegated none = none-IsFine gas
          delegated (some c) = run_code_of-IsFine db a c input gas u

      static_call_body-IsFine :
          (p : Option Precompiled) (db : StateDb) (input : Bytes) (a : Address) (gas : ℕ)
          → IsU64 gas
          → IsFine gas (static_call_body x level inner read_only caller p db input a gas)
      unfolding static_call_body
      static_call_body-IsFine (some p) db input a gas u = run_precompile-IsFine p db input gas u
      static_call_body-IsFine none db input a gas u = interpret-IsFine true _ _ input gas u

      -- Each answers a left-over of at most the gas it was given.
      call_entered-Leaves :
          (db : StateDb) (input : Bytes) (a : Address) (gas value : ℕ)
          → IsU64 gas
          → Leaves gas (call_entered x level inner read_only caller db input a gas value)
      unfolding call_entered
      call_entered-Leaves db input a gas value u =
          either (Leaves gas) _ _ _ (some-Leaves gas _ (omega arith))
            (ended-Leaves gas _ _ (call_body-IsFine _ _ input a gas value u))

      pub call-Leaves :
          (db : StateDb) (input : Bytes) (a : Address) (gas value : ℕ)
          → IsU64 gas
          → Leaves gas (call x level inner read_only caller db input a gas value)
      unfolding call
      call-Leaves db input a gas value u =
          either (Leaves gas) (too_deep x level inner read_only) _ _
            (some-Leaves gas _ (le_refl gas))
            (either (Leaves gas) _ _ _ (some-Leaves gas _ (le_refl gas))
              (call_entered-Leaves _ input a gas value u))

      pub call_code-Leaves :
          (db : StateDb) (input : Bytes) (a : Address) (gas value : ℕ)
          → IsU64 gas
          → Leaves gas (call_code x level inner read_only caller db input a gas value)
      unfolding call_code
      call_code-Leaves db input a gas value u =
          either (Leaves gas) (too_deep x level inner read_only) _ _
            (some-Leaves gas _ (le_refl gas))
            (either (Leaves gas) _ _ _ (some-Leaves gas _ (le_refl gas))
              (ended-Leaves gas _ _ (call_code_body-IsFine _ _ input a gas value u)))

      pub delegate_call-Leaves :
          (db : StateDb) (input : Bytes) (a : Address) (gas : ℕ)
          → IsU64 gas
          → Leaves gas (delegate_call x level inner read_only caller db input a gas)
      unfolding delegate_call
      delegate_call-Leaves db input a gas u =
          either (Leaves gas) _ _ _ (some-Leaves gas _ (le_refl gas))
            (ended-Leaves gas _ _ (delegate_call_body-IsFine _ db input a gas u))

      pub static_call-Leaves :
          (db : StateDb) (input : Bytes) (a : Address) (gas : ℕ)
          → IsU64 gas
          → Leaves gas (static_call x level inner read_only caller db input a gas)
      unfolding static_call
      static_call-Leaves db input a gas u =
          either (Leaves gas) _ _ _ (some-Leaves gas _ (le_refl gas))
            (ended-Leaves gas _ _ (static_call_body-IsFine _ _ input a gas u))

      check_code-left : (r : Answer) → (check_code x level inner read_only caller r).left ≡ r.left
      unfolding check_code
      check_code-left r = ground arith

      check_code-keeps_left :
          (r : Answer)
          → keeps_created (check_code x level inner read_only caller r).error ≡ true
          → keeps_created r.error ≡ true
      unfolding check_code
      check_code-keeps_left r h = ground arith

      store_code-left :
          (a : Address) (r : Answer) (n : ℕ)
          → (keeps_created r.error ≡ true → r.left ≤ n)
          → keeps_created (store_code x level inner read_only caller a r).error ≡ true
          → (store_code x level inner read_only caller a r).left ≤ n
      unfolding store_code
      store_code-left a r n f k = ground (arith, f)

      end_create-Leaves :
          (n snap : ℕ) (e : Option CallError) (r : Answer)
          → (keeps_created e ≡ true → r.left ≤ n)
          → Leaves n (end_create x level inner read_only caller snap e r)
      unfolding end_create end_call
      end_create-Leaves n snap (some code_store_out_of_gas) r f =
          either (Leaves n) x.rules.is_homestead _ _ (reverted_to-Leaves snap r 0 n (zero-le n))
            (some-Leaves n r (f refl))
      end_create-Leaves n snap none r f = some-Leaves n r (f refl)
      end_create-Leaves n snap (some reverted) r f = reverted_to-Leaves snap r r.left n (f refl)
      end_create-Leaves n snap (some e) r f =
          ground (arith, reverted_to-Leaves snap r 0 n (zero-le n))

      finish_create-Leaves :
          (n snap : ℕ) (a : Address) (r : Answer)
          → (keeps_created r.error ≡ true → r.left ≤ n)
          → Leaves n (finish_create x level inner read_only caller snap a r)
      unfolding finish_create
      finish_create-Leaves n snap a r f = end_create-Leaves n snap _ _ (
          store_code-left a (check_code x level inner read_only caller r) n
            (λ k. rw (check_code-left r) (f (check_code-keeps_left r k))))

      create_funded-Leaves :
          (db : StateDb) (code : Bytes) (hash : Hash) (gas value : ℕ) (a : Address)
          → IsU64 gas
          → Leaves gas (create_funded x level inner read_only caller db code hash gas value a)
      unfolding create_funded create_entered
      create_funded-Leaves db code hash gas value a u =
          either (Leaves gas) _ _ _ (some-Leaves gas _ (zero-le gas)) (
            bind-Leaves gas _ _ (interpret-IsFine false _ _ _ gas u) (finish_create-Leaves gas _ a))

      create_at-Leaves :
          (db : StateDb) (code : Bytes) (hash : Hash) (gas value : ℕ) (a : Address)
          → IsU64 gas
          → Leaves gas (create_at x level inner read_only caller db code hash gas value a)
      unfolding create_at
      create_at-Leaves db code hash gas value a u =
          either (Leaves gas) (too_deep x level inner read_only) _ _
            (some-Leaves gas _ (le_refl gas))
            (either (Leaves gas) _ _ _ (some-Leaves gas _ (le_refl gas))
              (create_funded-Leaves _ code hash gas value a u))

    pub to_frugal : (n : ℕ) (r : Answer) (o : Option Answer) → Leaves n o → o ≡ some r → r.left ≤ n
    unfolding Leaves
    to_frugal n r o l e = ground arith

    methods-IsFrugal : IsFrugal (methods x level inner read_only)
    unfolding methods create create2
    methods-IsFrugal = record {
      call = λ s input a gas value r u e.
          to_frugal gas r _ (call-Leaves (contract_ref s.contract) s.db input a gas value u) e;
      call_code = λ s input a gas value r u e.
          to_frugal gas r _ (call_code-Leaves (contract_ref s.contract) s.db input a gas value u) e;
      delegate_call = λ s input a gas r u e.
          to_frugal gas r _ (delegate_call-Leaves (contract_ref s.contract) s.db input a gas u) e;
      static_call = λ s input a gas r u e.
          to_frugal gas r _ (static_call-Leaves (contract_ref s.contract) s.db input a gas u) e;
      create = λ s input gas value r u e.
          to_frugal gas r _ (create_at-Leaves (contract_ref s.contract) _ input 0 gas value _ u) e;
      create2 = λ s input gas value salt r u e.
          to_frugal gas r _ (create_at-Leaves (contract_ref s.contract) s.db input _ gas value _ u)
            e;
    }

  no_evm-IsFrugal : IsFrugal (no_evm x)
  unfolding no_evm
  no_evm-IsFrugal = record {
    call = λ s input a gas value r u e. absurd (ground arith);
    call_code = λ s input a gas value r u e. absurd (ground arith);
    delegate_call = λ s input a gas r u e. absurd (ground arith);
    static_call = λ s input a gas r u e. absurd (ground arith);
    create = λ s input gas value r u e. absurd (ground arith);
    create2 = λ s input gas value salt r u e. absurd (ground arith);
  }

  -- At every depth, a call or a creation that answers leaves over no more gas than it was given, with
  -- or without an error, for a uint64 of gas, where from Berlin on the rules include EIP-150.
  pub evm_at-IsFrugal : (n : ℕ) (read_only : Bool) → IsFrugal (evm_at x n read_only)
  unfolding evm_at
  evm_at-IsFrugal zero read_only =
      methods-IsFrugal (Prices.call_create_depth + 1) (λ r. no_evm x) read_only
        (λ r. no_evm-IsFrugal)
  evm_at-IsFrugal (suc n) read_only =
      methods-IsFrugal (Prices.call_create_depth - n) (evm_at x n) read_only (evm_at-IsFrugal n)

  -- Every run that a method of the EVM starts, at every depth and in every mode, ends: with one round
  -- more than the uint64 of gas that it is given, Run returns or panics, where from Berlin on the rules
  -- include EIP-150.
  pub interpret-ne-none :
      (n level : ℕ) (read_only static : Bool) (db : StateDb) (c : Contract) (input : Bytes)
      (gas : ℕ)
      → IsU64 gas
      → interpret x level (evm_at x n) read_only static db c input gas ≢ none
  unfolding interpret
  interpret-ne-none n level read_only static db c input gas u =
      run-ne-none _ (evm_at x n (read_only || static)) (evm_at-IsFrugal n (read_only || static))
        x.rules x.disabled since db c input gas 0 u
