-- ===== src/Transition.antt =====
-- api/state_transition.go and api/gaspool.go: the gas of a message.
pub mod GasPool
pub mod Intrinsic
pub mod Settlement
pub mod Tests
