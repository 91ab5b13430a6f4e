-- ===== src/Tests.antt =====
-- Runs of the model on concrete inputs, and the theorems at such inputs.
mod Sample
mod Pure
mod Middleware
mod Service
mod Routes
mod Interleaved
mod Video
mod Files
mod Seed
mod Created
mod Startup
