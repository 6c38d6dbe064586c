-- ===== src/Saga/Coordinator.antt =====
-- src/saga/coordinator.py, a module for each group of methods.
pub mod Outcomes
pub mod Hold
pub mod Creation
pub mod Confirm
pub mod PlaceOrder
