-- ===== src/Handler/Keeps.antt =====
-- What every handler keeps, when the queries and the steps of the review keep it.
pub mod Writes
pub mod Rules
pub mod User
pub mod Admin
