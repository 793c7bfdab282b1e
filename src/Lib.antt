-- ===== src/Lib.antt =====
-- A verification library for the state, the interpreter and the gas accounting of cardinal-evm.
--
-- The program executes EVM messages against a chain's state that a storage layer keeps. The state
-- package (state/) holds the uncommitted state: accounts as objects that cache what storage says, an
-- access list, and a journal of undo closures to which every write appends, so that a failed call goes
-- back to the snapshot taken before it. The vm package (vm/) reads and writes that state through the
-- StateDB interface: its interpreter steps through the code of a contract by the jump table of the
-- chain's fork, whose gas functions price every operation.
--
-- State (state/*.go):
--   State/Account.antt        account.go, and the parameters: storage transaction, RLP, Keccak, hashes
--   State/AccessList.antt     access_list.go; Laws: what the journal needs of it
--   State/Object.antt         state_object.go: the object; Load: reads that fill caches; Change: writes
--                             with the journal entries they answer; Views, Caches: what reads see
--   State/Db.antt             statedb.go: the journal, snapshots, Finalise; Ops: the methods of StateDB;
--                             Run: sequences of calls with nested scopes; Agree, Undo, Restore, Globals,
--                             Answers, Scopes: going back to a snapshot; Cells: storage slots; Kept: what
--                             stays of a state whatever is called on it
-- Gas (vm/*.go):
--   Vm/Uint256.antt           the methods of holiman/uint256 that are called, as parameters with laws
--   Vm/Math.antt              common/math/integer.go: the checked operations on uint64
--   Vm/Stack.antt, Memory, MemoryTable, Common
--                             stack.go, memory.go, memory_table.go, common.go
--   Vm/Params.antt            params/protocol_params.go: the constants used
--   Vm/Frame.antt             the parts of EVM and Contract that gas functions see; errors and panics
--   Vm/GasTable.antt          gas_table.go; MemoryCost: the fee for memory; Sstore: the three versions of
--                             SSTORE and their refunds; Calls: gas.go and the calls, with
--                             operations_acl.go in Calls/Cold.antt
-- Interpreter (vm/*.go):
--   Vm/Analysis.antt          analysis.go: the bitmap of push data; Rounds: its loop; Total: the spare bytes
--   Vm/Contract.antt          contract.go: a contract with the caches of its jump analysis
--   Vm/Scope.antt             what an instruction reads and changes (ScopeContext), its ways out, the host
--   Vm/Jumps.antt             where jumps land
--   Vm/Instructions/          instructions.go and the instructions of eips.go: Words, Context, Access
--                             (memory, storage, accounts), Control
--   Vm/Opcodes.antt           opcodes.go
--   Vm/JumpTable/             jump_table.go, stack_table.go, eips.go: Operation, Frontier, Forks; Gas: the
--                             constants; Validate: the choice of a table and its check
--   Vm/Interpreter.antt       interpreter.go: the step and the loop of Run; Dispatch: what the names in a
--                             table stand for; Calls: the calls and creations; Effect, Depth, Bounds: the
--                             stack; Sound: the tables; CallCost, Cost, Charged, Paid, Spent, Affords,
--                             Progress: the gas; ReadOnly: static calls; Kept: that the state before a
--                             run can be restored after it
--   Vm/Contracts.antt         contracts.go: the precompiled contracts of each fork; Prices, Gas: what they
--                             cost; Runs: what they answer; Active, Dearer: theorems on them
--   Vm/Evm.antt               evm.go: the calls and the creations, over the interpreter; Frugal: their gas;
--                             Restores, Outcome: the state after an error
-- Chains:
--   Config.antt               params/config.go: the fork conditions and Rules; Order: CheckConfigForkOrder;
--                             Compatible: checkCompatible; Compatible/Rewind: CheckCompatible
--   Blob.antt                 eips/eip4844/eip.go; Exponential, Excess: theorems on it
-- Messages (api/*.go):
--   Transition/GasPool.antt   gaspool.go
--   Transition/Intrinsic.antt IntrinsicGas and FloorDataGas of state_transition.go; Exact: the price
--   Transition/Settlement.antt calcRefund and the gas that TransitionDb leaves
-- Prelude.antt passes on the library's names, and adds Go's slices and maps (as functions), 64-bit words
-- with their wrap-around, and big integers. The Tests modules run the model on a small chain and on
-- concrete messages.
--
-- Conventions. A method on a shared object takes the object and answers the changed one. A journal
-- closure is data (Revert) that `revert` interprets; the journal's newest entry stands first. An Option
-- result is `none` where Go panics; a gas function answers a cost, an error or a panic, with the frame
-- it leaves. An instruction goes on, ends the run with an error or the stop token, or panics. Addresses,
-- hashes and 256-bit words are the numbers that their bytes spell. A jump table refers to its functions
-- by name. The arithmetic of holiman/uint256 is a parameter, as is the cryptography of the precompiled
-- contracts. For the interpreter EVM's calls and creations are an interface, of which its results ask
-- that they leave over no more gas than they are given, and that the state before them can be restored;
-- Vm/Evm.antt builds them over the interpreter, one level of depth after another up from the limit of
-- 1024 calls.
--
-- Recursion is structural, on scripts, journals, lists and the levels of calls, but for four loops on
-- fuel: codeBitmap's, with one test of its condition more than the code has bytes, of which each round
-- passes one at least; Run's, which gets one round more than the gas, and whose every round lowers the
-- gas; that of CheckCompatible, which gets two rounds more than the height and the time; and that of
-- fakeExponential, whose rounds are an argument.
--
-- Not modelled: the maps that stateDB.Copy shares, the storage diff (kv), the tracers and their calls,
-- the extra EIPs of a configuration, the points of BLS12-381, the tables of chains, the rest of the
-- state transition and the RPC services, and transactions; and the copies of go-ethereum's rlp, abi and
-- crypto packages.
pub mod Prelude
pub mod State
pub mod Vm
pub mod Transition
pub mod Blob
pub mod Config
