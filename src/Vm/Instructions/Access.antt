-- ===== src/Vm/Instructions/Access.antt =====
-- The instructions on memory, storage and the accounts of the state.
use cardinal_evm.Prelude.{
  ℕ, zero, suc, ◌/◌, ◌%◌, ◌^◌, ltb, ◌||◌, if◌then◌else◌, [], ◌∷◌, Option, none, some, length, set,
  take, drop, max_u64,
}
use cardinal_evm.State.Account.{Bytes}
use cardinal_evm.State.Db.Ops
use cardinal_evm.Vm.Uint256.{uint64_overflows}
use cardinal_evm.Vm.Common.{get_data}
use cardinal_evm.Vm.Memory
use cardinal_evm.Vm.Memory.{Memory}
use cardinal_evm.Vm.Scope.{
  Host, write_protection, return_data_out_of_bounds, X, ◌>>=◌, ◌>>◌, pure, leave, gets, pop, push,
  peek, put_top, on_memory, from_memory, ask, tell, crash,
}

-- The topics are popped, and stateDB.AddLog keeps no log.
unfoldable pub drop_topics : ℕ → X (Unit {0})
drop_topics zero = pure tt
drop_topics (suc n) = do topic ← pop; drop_topics n

module _ (h : Host) where
  unfoldable pub op_pop : X (Unit {0})
  op_pop = do x ← pop; pure tt

  unfoldable pub op_keccak256 : X (Unit {0})
  op_keccak256 = do
    offset ← pop
    size ← peek
    bytes ← from_memory (λ m. Memory.get_ptr m (h.words.uint64 offset) (h.words.uint64 size))
    put_top (h.backend.keccak bytes)

  unfoldable pub op_mload : X (Unit {0})
  op_mload = do
    v ← peek
    bytes ← from_memory (λ m. Memory.get_ptr m (h.words.uint64 v) 32)
    put_top (h.arith.set_bytes bytes)

  -- The 32 bytes of a word, the highest first.
  abbrev bytes_of : ℕ → ℕ → Bytes → Bytes
  bytes_of zero x acc = acc
  bytes_of (suc n) x acc = bytes_of n (x / 256) (x % 256 ∷ acc)

  unfoldable pub op_mstore : X (Unit {0})
  op_mstore = do
    start ← pop
    val ← pop
    on_memory (λ m. Memory.set32 m (h.words.uint64 start) (bytes_of 32 val []))

  abbrev set_byte : Memory → ℕ → ℕ → Option Memory
  set_byte m off x =
      if ltb off (length m.store) then some (record m { store = set m.store off x }) else none

  unfoldable pub op_mstore8 : X (Unit {0})
  op_mstore8 = do
    off ← pop
    val ← pop
    on_memory (λ m. set_byte m (h.words.uint64 off) (h.words.uint64 val % 2 ^ 8))

  unfoldable pub op_mcopy : X (Unit {0})
  op_mcopy = do
    dst ← pop
    src ← pop
    len ← pop
    on_memory (λ m. Memory.copy m (h.words.uint64 dst) (h.words.uint64 src) (h.words.uint64 len))

  -- An offset into data: the largest uint64 for one that is larger.
  abbrev clamp64 : ℕ → ℕ
  clamp64 x = if uint64_overflows h.words x then max_u64 else h.words.uint64 x

  -- The last statements of the copies: a range of `bytes`, padded, to memory.
  unfoldable pub copy_data : Bytes → ℕ → ℕ → ℕ → X (Unit {0})
  copy_data bytes mem_offset data_offset len = on_memory (λ m.
      Memory.set m (h.words.uint64 mem_offset) (h.words.uint64 len)
        (get_data bytes (clamp64 data_offset) (h.words.uint64 len)))

  unfoldable pub op_call_data_copy : X (Unit {0})
  op_call_data_copy = do
    mem_offset ← pop
    data_offset ← pop
    len ← pop
    input ← gets (λ s. s.contract.input)
    copy_data input mem_offset data_offset len

  unfoldable pub op_code_copy : X (Unit {0})
  op_code_copy = do
    mem_offset ← pop
    code_offset ← pop
    len ← pop
    code ← gets (λ s. s.contract.code)
    copy_data code mem_offset code_offset len

  unfoldable pub op_ext_code_copy : X (Unit {0})
  op_ext_code_copy = do
    a ← pop
    mem_offset ← pop
    code_offset ← pop
    len ← pop
    code ← ask (λ db. Ops.get_code h.backend db (h.words.bytes20 a))
    copy_data code mem_offset code_offset len

  -- The range of the return data from an offset to an end that has been checked.
  abbrev return_range : Bytes → ℕ → ℕ → Bytes
  return_range bytes offset end = drop offset (take end bytes)

  unfoldable pub op_return_data_copy : X (Unit {0})
  op_return_data_copy = do
    mem_offset ← pop
    data_offset ← pop
    len ← pop
    bytes ← gets (λ s. s.return_data)
    let end = h.arith.add data_offset len
    if uint64_overflows h.words data_offset
          || uint64_overflows h.words end
          || ltb (length bytes) (h.words.uint64 end)
        then leave return_data_out_of_bounds []
        else if ltb (h.words.uint64 end) (h.words.uint64 data_offset)
        then (λ s. crash)
        else on_memory (λ m.
          Memory.set m (h.words.uint64 mem_offset) (h.words.uint64 len)
            (return_range bytes (h.words.uint64 data_offset) (h.words.uint64 end)))

  unfoldable pub op_balance : X (Unit {0})
  op_balance = do
    slot ← peek
    balance ← ask (λ db. Ops.get_balance h.backend db (h.words.bytes20 slot))
    put_top (h.arith.from_big balance)

  unfoldable pub op_self_balance : X (Unit {0})
  op_self_balance = do
    a ← gets (λ s. s.contract.address)
    balance ← ask (λ db. Ops.get_balance h.backend db a)
    push (h.arith.from_big balance)

  unfoldable pub op_ext_code_size : X (Unit {0})
  op_ext_code_size = do
    slot ← peek
    size ← ask (λ db. Ops.get_code_size h.backend db (h.words.bytes20 slot))
    put_top size

  unfoldable pub op_ext_code_hash : X (Unit {0})
  op_ext_code_hash = do
    slot ← peek
    empty ← ask (λ db. Ops.empty h.backend db (h.words.bytes20 slot))
    if empty
        then put_top 0
        else (ask (λ db. Ops.get_code_hash h.backend db (h.words.bytes20 slot)) >>= put_top)

  unfoldable pub op_sload : X (Unit {0})
  op_sload = do
    loc ← peek
    a ← gets (λ s. s.contract.address)
    val ← ask (λ db. Ops.get_state h.backend db a (h.words.bytes32 loc))
    put_top val

  -- `if interpreter.readOnly { return nil, ErrWriteProtection }`
  unfoldable pub unless_read_only : X (Unit {0}) → X (Unit {0})
  unless_read_only m = if h.read_only then leave write_protection [] else m

  unfoldable pub op_sstore : X (Unit {0})
  op_sstore = unless_read_only do
    loc ← pop
    val ← pop
    a ← gets (λ s. s.contract.address)
    tell (λ db. Ops.set_state h.backend db a (h.words.bytes32 loc) (h.words.bytes32 val))

  unfoldable pub op_tload : X (Unit {0})
  op_tload = do
    loc ← peek
    a ← gets (λ s. s.contract.address)
    val ← gets (λ s. Ops.get_transient_state s.db a (h.words.bytes32 loc))
    put_top val

  unfoldable pub op_tstore : X (Unit {0})
  op_tstore = unless_read_only do
    loc ← pop
    val ← pop
    a ← gets (λ s. s.contract.address)
    tell (λ db. Ops.set_transient_state db a (h.words.bytes32 loc) (h.words.bytes32 val))

  unfoldable pub make_log : ℕ → X (Unit {0})
  unfolding drop_topics
  make_log size = unless_read_only do
    start ← pop
    m_size ← pop
    drop_topics size
    d ← from_memory (λ m. Memory.get_copy m (h.words.uint64 start) (h.words.uint64 m_size))
    pure tt
