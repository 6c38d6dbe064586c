-- ===== src/Session.antt =====
-- Checkout sessions: src/session/models.py and src/session/store.py.
pub mod Models
pub mod Store
