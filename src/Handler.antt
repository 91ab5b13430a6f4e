-- ===== src/Handler.antt =====
-- server/internal/handler: the HTTP handlers. A response is its status and its body.
pub mod Adapter
pub mod Rows
pub mod Wallpaper
pub mod Admin
pub mod Auth
pub mod Social
pub mod Keeps
