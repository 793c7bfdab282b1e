-- ===== src/Vm/Instructions/Context.antt =====
-- The instructions that push what the contract, the transaction or the block says.
use cardinal_evm.Prelude.{
  ℕ, ◌-◌, ltb, leb, ◌&&◌, if◌then◌else◌, Option, none, some, length, get_elem?,
}
use cardinal_evm.State.Account.{Hash, Bytes}
use cardinal_evm.Vm.Uint256.{uint64_overflows}
use cardinal_evm.Vm.Common.{get_data}
use cardinal_evm.Vm.Memory
use cardinal_evm.Vm.Memory.{Memory}
use cardinal_evm.Vm.Scope.{Host, X, ◌>>=◌, gets, push, peek, put_top}

module _ (h : Host) where
  unfoldable pub op_origin : X (Unit {0})
  op_origin = push h.origin

  unfoldable pub op_gasprice : X (Unit {0})
  op_gasprice = push h.gas_price

  unfoldable pub op_coinbase : X (Unit {0})
  op_coinbase = push h.coinbase

  unfoldable pub op_timestamp : X (Unit {0})
  op_timestamp = push h.timestamp

  unfoldable pub op_number : X (Unit {0})
  op_number = push h.number

  unfoldable pub op_difficulty : X (Unit {0})
  op_difficulty = push h.difficulty

  unfoldable pub op_random : X (Unit {0})
  op_random = push h.random

  unfoldable pub op_gas_limit : X (Unit {0})
  op_gas_limit = push h.gas_limit

  unfoldable pub op_base_fee : X (Unit {0})
  op_base_fee = push h.base_fee

  unfoldable pub op_blob_base_fee : X (Unit {0})
  op_blob_base_fee = push h.blob_base_fee

  unfoldable pub op_chain_id : X (Unit {0})
  op_chain_id = push h.chain_id

  unfoldable pub op_push0 : X (Unit {0})
  op_push0 = push 0

  unfoldable pub op_address : X (Unit {0})
  op_address = do x ← gets (λ s. s.contract.address); push x

  unfoldable pub op_caller : X (Unit {0})
  op_caller = do x ← gets (λ s. s.contract.caller); push x

  unfoldable pub op_call_value : X (Unit {0})
  op_call_value = do x ← gets (λ s. s.contract.value); push x

  unfoldable pub op_call_data_size : X (Unit {0})
  op_call_data_size = do x ← gets (λ s. length s.contract.input); push x

  unfoldable pub op_return_data_size : X (Unit {0})
  op_return_data_size = do x ← gets (λ s. length s.return_data); push x

  unfoldable pub op_code_size : X (Unit {0})
  op_code_size = do x ← gets (λ s. length s.contract.code); push x

  unfoldable pub op_msize : X (Unit {0})
  op_msize = do x ← gets (λ s. Memory.len s.mem); push x

  unfoldable pub op_pc : X (Unit {0})
  op_pc = do x ← gets (λ s. s.pc); push x

  -- The hash of one of the last 256 blocks.
  abbrev recent_hash : ℕ → Hash
  recent_hash num =
      if uint64_overflows h.words num
      then 0
      else (let num64 = h.words.uint64 num in
          let lower = if ltb h.number 257 then 0 else h.number - 256 in
          if leb lower num64 && ltb num64 h.number then h.get_hash num64 else 0)

  unfoldable pub op_blockhash : X (Unit {0})
  op_blockhash = do num ← peek; put_top (recent_hash num)

  abbrev or_zero : Option Hash → ℕ
  or_zero none = 0
  or_zero (some x) = x

  unfoldable pub op_blob_hash : X (Unit {0})
  op_blob_hash = do index ← peek; put_top (or_zero (get_elem? h.blob_hashes index))

  abbrev data_word : Bytes → ℕ → ℕ
  data_word input x =
      if uint64_overflows h.words x
      then 0
      else h.arith.set_bytes (get_data input (h.words.uint64 x) 32)

  unfoldable pub op_call_data_load : X (Unit {0})
  op_call_data_load = do x ← peek; input ← gets (λ s. s.contract.input); put_top (data_word input x)
