-- ===== src/Server.antt =====
-- The state of the server, what it asks of the code around it, and the actions that a request is
-- made of.
pub mod Env
pub mod World
pub mod Exec
pub mod Json
pub mod Request
