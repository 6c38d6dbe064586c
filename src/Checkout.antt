-- ===== src/Checkout.antt =====
-- The checkout service and its settings: src/checkout/ and src/settings.py.
pub mod Settings
pub mod State
pub mod Service
pub mod Growing
pub mod Kept
pub mod Degrades
pub mod Startup
mod Tests
