-- ===== src/Vm.antt =====
-- The vm package (vm/*.go): words, the stack and memory, gas, and the analysis of code.
pub mod Uint256
pub mod Math
pub mod Stack
pub mod Memory
pub mod Common
pub mod MemoryTable
pub mod Analysis
pub mod Contract
pub mod Contracts
pub mod Evm
pub mod Params
pub mod Opcodes
pub mod JumpTable
pub mod Scope
pub mod Instructions
pub mod Frame
pub mod GasTable
pub mod Interpreter
pub mod Jumps
pub mod Tests
