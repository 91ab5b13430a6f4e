-- ===== src/Seed.antt =====
-- server/cmd/seed: the command that fills a database for development.
pub mod Videos
pub mod Queries
pub mod Footage
pub mod Run
pub mod Settled
pub mod Keeps
pub mod References
pub mod Command
