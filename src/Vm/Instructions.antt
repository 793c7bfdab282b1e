-- ===== src/Vm/Instructions.antt =====
-- vm/instructions.go and the instructions of vm/eips.go: what each operation executes.
pub mod Words
pub mod Context
pub mod Access
pub mod Control
