-- ===== src/Gateway.antt =====
-- The upstream gateways: src/gateway/.
pub mod Models
pub mod Errors
pub mod Http
pub mod Ihms
pub mod Ecops
