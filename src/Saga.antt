-- ===== src/Saga.antt =====
-- The checkout saga: src/saga/.
pub mod Idempotency
pub mod Steps
pub mod World
pub mod Coordinator
pub mod Leads
pub mod Machine
pub mod Refines
pub mod Replay
pub mod Released
pub mod Settled
pub mod Confirms
pub mod Posts
pub mod Threads
pub mod Tests
