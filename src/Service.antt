-- ===== src/Service.antt =====
-- server/internal/service: the business logic, behind the handlers.
pub mod Wallpaper
pub mod Favorite
pub mod Report
pub mod Auth
