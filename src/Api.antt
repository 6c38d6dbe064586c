-- ===== src/Api.antt =====
-- The HTTP API: src/api/.
pub mod Errors
pub mod Models
pub mod Middleware
pub mod Routes
pub mod Kept
pub mod Serve
pub mod Orders
pub mod Traced
mod Tests
