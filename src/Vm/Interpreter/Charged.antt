-- ===== src/Vm/Interpreter/Charged.antt =====
-- What the gas functions leave of the memory: the bytes as they were, and no more recorded as paid
-- than before or than a memory of the new size costs.
use cardinal_evm.Prelude.{
  ℕ, ◌/◌, ◌%◌, ◌≡◌, ◌≤◌, ◌∙◌, add64, mul64, arith, Bool, true, false, Option, none, some, List,
}
use cardinal_evm.State.Account.{Address, Backend}
use cardinal_evm.Vm.Uint256.{Uint256}
use cardinal_evm.Vm.Common.{to_word_size}
use cardinal_evm.Vm.Params
use cardinal_evm.Vm.Memory.{Memory}
use cardinal_evm.Vm.Stack
use cardinal_evm.Vm.Frame
use cardinal_evm.Vm.Frame.{Frame, Outcome, ok, err, panic, M, ◌>>=◌, ◌>>◌, pure, back, checked, ask}
use cardinal_evm.Vm.GasTable
use cardinal_evm.Vm.GasTable.{memory_fee, memory_gas_cost, charge}
use cardinal_evm.Vm.GasTable.MemoryCost.{memory_cost, word_size, total_exact}
use cardinal_evm.Vm.GasTable.Sstore
use cardinal_evm.Vm.GasTable.Calls
use cardinal_evm.Vm.GasTable.Calls.Cold
use cardinal_evm.Vm.GasTable.Calls.Keeps.{
  Call, call, call_code, delegate_call, static_call, calculator,
}
use cardinal_evm.Vm.JumpTable.Operation.{
  GasFunc, call_gas, call_code_gas, delegate_call_gas, static_call_gas, call_eip2929_gas,
  call_code_eip2929_gas, delegate_call_eip2929_gas, static_call_eip2929_gas, call_eip7702_gas,
  call_code_eip7702_gas, delegate_call_eip7702_gas, static_call_eip7702_gas,
}
use cardinal_evm.Vm.Interpreter.Dispatch.{gas_of}

abbrev pub Within : ℕ → List ℕ → Memory → Type 0
Within c st mem = (mem.store ≡ st) × (mem.last_gas_cost ≤ c)

abbrev KeepsMemory : ℕ → List ℕ → {A : Type 0} → M A → Type 0
KeepsMemory c st m = (f : Frame) → Within c st f.mem → Within c st (m f).1.mem

module _ (size c : ℕ) (le : memory_cost (size / 32) ≤ c) (whole : size % 32 ≡ 0) (st : List ℕ) where
  pub total_lem :
      size ≤ 0x1f_ffff_ffe0
      → add64
          (mul64 (to_word_size size) Params.memory_gas)
          (mul64 (to_word_size size) (to_word_size size) / Params.quad_coeff_div)
        ≡ memory_cost (size / 32)
  total_lem h =
      let w : to_word_size size ≡ size / 32 = word_size size h ∙ omega (arith, whole) in
      rw w (total_exact (size / 32) (omega (arith, h)))

  memory_fee-Within : (mem : Memory) → Within c st mem → Within c st (memory_fee mem size).1
  unfolding memory_fee charge
  memory_fee-Within mem h = ground (arith, total_lem)

  memory_gas_cost-KeepsMemory : KeepsMemory c st (memory_gas_cost size)
  unfolding memory_gas_cost
  memory_gas_cost-KeepsMemory f h = memory_fee-Within f.mem h

  bind-KeepsMemory :
      {A B : Type 0} (m : M A) (k : A → M B)
      → KeepsMemory c st m
      → ((a : A) → KeepsMemory c st (k a))
      → KeepsMemory c st (m >>= k)
  bind-KeepsMemory {A} m k hm hk f h = continued (m f) (hm f h)
    where
      continued :
          (r : Outcome A × Frame) → Within c st r.1.mem → Within c st (((λ g. r) >>= k) r.1).1.mem
      continued (ok a, f') h' = hk a f' h'
      continued (err x, f') h' = h'
      continued (panic, f') h' = h'

  touch-KeepsMemory : (a : Address) → KeepsMemory c st (Cold.touch a)
  unfolding Cold.touch
  touch-KeepsMemory a f h = ground arith

  charge_now-KeepsMemory : (cost : ℕ) → KeepsMemory c st (Cold.charge_now cost)
  unfolding Cold.charge_now Frame.use_gas
  charge_now-KeepsMemory cost f h = ground arith

  charge_unless-KeepsMemory :
      (warm : Bool) (cost : ℕ) → KeepsMemory c st (Cold.charge_unless warm cost)
  unfolding Cold.charge_unless Cold.charge_now Frame.use_gas
  charge_unless-KeepsMemory true cost f h = h
  charge_unless-KeepsMemory false cost f h = ground arith

  resolve_delegation-KeepsMemory :
      (target : Option Address) → KeepsMemory c st (Cold.resolve_delegation target)
  unfolding Cold.resolve_delegation Cold.touch Cold.charge_unless Cold.charge_now Frame.use_gas
  resolve_delegation-KeepsMemory none f h = h
  resolve_delegation-KeepsMemory (some a) f h = ground arith

  module _ (u : Uint256) where
    add_call_gas-KeepsMemory : (gas : ℕ) → KeepsMemory c st (Calls.add_call_gas u gas)
    unfolding Calls.add_call_gas Calls.record_call_gas
    add_call_gas-KeepsMemory gas f h = ground arith

    checked_call-KeepsMemory :
        (n : ℕ × Bool) → KeepsMemory c st (checked n >>= Calls.add_call_gas u)
    checked_call-KeepsMemory n =
        bind-KeepsMemory (checked n) (Calls.add_call_gas u) (λ f h. h) add_call_gas-KeepsMemory

    module _ (b : Backend) where
      new_callee-KeepsMemory :
          (a : Address) (t : Bool) → KeepsMemory c st (Calls.new_callee u b a t)
      unfolding Calls.new_callee Calls.new_account
      new_callee-KeepsMemory a t f h = ground arith

      calculator-KeepsMemory : (x : Call) → KeepsMemory c st (calculator u b x size)
      unfolding Calls.gas_call Calls.gas_call_code Calls.gas_delegate_call Calls.gas_static_call
      calculator-KeepsMemory delegate_call =
          bind-KeepsMemory (memory_gas_cost size) _ memory_gas_cost-KeepsMemory
            add_call_gas-KeepsMemory
      calculator-KeepsMemory static_call =
          bind-KeepsMemory (memory_gas_cost size) _ memory_gas_cost-KeepsMemory
            add_call_gas-KeepsMemory
      calculator-KeepsMemory call_code =
          bind-KeepsMemory (memory_gas_cost size) _ memory_gas_cost-KeepsMemory
            (λ gas. bind-KeepsMemory (back 2) _ (λ f h. h) (λ value. checked_call-KeepsMemory _))
      calculator-KeepsMemory call =
          bind-KeepsMemory (back 2) _ (λ f h. h)
            (λ value.
              bind-KeepsMemory (back 1) _ (λ f h. h)
                (λ callee.
                  bind-KeepsMemory (Calls.new_callee u b _ _) _ (new_callee-KeepsMemory _ _) (λ new.
                    bind-KeepsMemory (memory_gas_cost size) _ memory_gas_cost-KeepsMemory
                      (λ gas. checked_call-KeepsMemory _))))

      charged_2929-KeepsMemory :
          (x : Call) (warm : Bool)
          → KeepsMemory c st (Cold.charged_2929 (calculator u b x) size warm)
      unfolding Cold.charged_2929 Cold.give_back
      charged_2929-KeepsMemory x true = calculator-KeepsMemory x
      charged_2929-KeepsMemory x false =
          bind-KeepsMemory (Cold.charge_now Cold.cold_cost) _ (charge_now-KeepsMemory _) (λ done.
            bind-KeepsMemory (calculator u b x size) _ (calculator-KeepsMemory x) (λ gas f h. h))

      variant_2929-KeepsMemory :
          (x : Call)
          → KeepsMemory c st (Cold.make_call_variant_gas_call_eip2929 u b (calculator u b x) size)
      unfolding Cold.make_call_variant_gas_call_eip2929
      variant_2929-KeepsMemory x =
          bind-KeepsMemory (back 1) _ (λ f h. h)
            (λ item.
              bind-KeepsMemory (Cold.touch _) _ (touch-KeepsMemory _) (charged_2929-KeepsMemory x))

      variant_7702-KeepsMemory :
          (x : Call)
          → KeepsMemory c st (Cold.make_call_variant_gas_call_eip7702 u b (calculator u b x) size)
      unfolding Cold.make_call_variant_gas_call_eip7702 Cold.give_back
      variant_7702-KeepsMemory x =
          bind-KeepsMemory (back 1) _ (λ f h. h)
            (λ item. bind-KeepsMemory (Cold.touch _) _ (touch-KeepsMemory _) (λ warm.
              bind-KeepsMemory (Cold.charge_unless warm Cold.cold_cost) _
                (charge_unless-KeepsMemory warm Cold.cold_cost)
                (λ access f h.
                  bind-KeepsMemory (Cold.resolve_delegation _) _ (resolve_delegation-KeepsMemory _)
                    (λ resolution.
                      bind-KeepsMemory (calculator u b x size) _ (calculator-KeepsMemory x)
                        (λ old f h. h))
                    _ h)))

  pub gas_of-KeepsMemory :
      (u : Uint256) (b : Backend) (g : GasFunc) → KeepsMemory c st (gas_of u b g size)
  unfolding gas_of GasTable.gas_keccak256 GasTable.memory_copier_gas GasTable.pure_memory_gascost
      GasTable.gas_create2 GasTable.gas_create_eip3860 GasTable.gas_create2_eip3860
      GasTable.gas_exp_frontier GasTable.gas_exp_eip158 Sstore.gas_sstore Sstore.gas_sstore_eip2200
      Sstore.gas_sstore_eip2929 Sstore.gas_sstore_eip3529 Sstore.make_gas_sstore_func
      Sstore.net_metered Cold.gas_sload_eip2929 Cold.gas_ext_code_copy_eip2929
      Cold.gas_eip2929_account_check Calls.gas_selfdestruct Calls.new_account Calls.has_balance
      Calls.refund_selfdestruct Cold.touch Cold.make_selfdestruct_gas_fn GasTable.make_gas_log
      Stack.back
  gas_of-KeepsMemory u b call_gas f h = calculator-KeepsMemory u b call f h
  gas_of-KeepsMemory u b call_code_gas f h = calculator-KeepsMemory u b call_code f h
  gas_of-KeepsMemory u b delegate_call_gas f h = calculator-KeepsMemory u b delegate_call f h
  gas_of-KeepsMemory u b static_call_gas f h = calculator-KeepsMemory u b static_call f h
  gas_of-KeepsMemory u b call_eip2929_gas f h = variant_2929-KeepsMemory u b call f h
  gas_of-KeepsMemory u b call_code_eip2929_gas f h = variant_2929-KeepsMemory u b call_code f h
  gas_of-KeepsMemory u b delegate_call_eip2929_gas f h =
      variant_2929-KeepsMemory u b delegate_call f h
  gas_of-KeepsMemory u b static_call_eip2929_gas f h = variant_2929-KeepsMemory u b static_call f h
  gas_of-KeepsMemory u b call_eip7702_gas f h = variant_7702-KeepsMemory u b call f h
  gas_of-KeepsMemory u b call_code_eip7702_gas f h = variant_7702-KeepsMemory u b call_code f h
  gas_of-KeepsMemory u b delegate_call_eip7702_gas f h =
      variant_7702-KeepsMemory u b delegate_call f h
  gas_of-KeepsMemory u b static_call_eip7702_gas f h = variant_7702-KeepsMemory u b static_call f h
  gas_of-KeepsMemory u b g f h = ground (arith, memory_gas_cost-KeepsMemory f h)
