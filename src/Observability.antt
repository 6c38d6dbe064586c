-- ===== src/Observability.antt =====
-- Counters and the context of log lines: src/observability/.
pub mod Metrics
pub mod Context
pub mod Logging
