-- ===== src/Vm/JumpTable.antt =====
-- vm/jump_table.go, vm/stack_table.go and the enablers of vm/eips.go: the operations of each fork.
pub mod Gas
pub mod Operation
pub mod Frontier
pub mod Forks
pub mod Validate
