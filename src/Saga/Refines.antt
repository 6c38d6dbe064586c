-- ===== src/Saga/Refines.antt =====
-- The methods of the coordinator do to the store what the state machine allows, on every path and
-- whatever the upstream services answer.
pub mod Orders
pub mod Confirm
pub mod Methods
pub mod Requests
pub mod Outcomes
