-- ===== src/State.antt =====
-- The state package (state/*.go): accounts, state objects, the access list and the journaled
-- stateDB.
pub mod Account
pub mod AccessList
pub mod Object
pub mod Db
pub mod Tests
