-- ===== src/Db.antt =====
-- server/db: the tables of server/db/migrations and the queries of server/db/generated, each as a
-- function on the tables. What a query does is what its SQL text says; a constraint that it
-- breaks is an error, and a query that fails leaves the tables as they were.
pub mod Models
pub mod Order
pub mod Users
pub mod Wallpapers
pub mod Favorites
pub mod Reports
pub use Models.*
