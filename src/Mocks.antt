-- ===== src/Mocks.antt =====
-- The stand-ins for the two upstream services, docker/mock-upstreams/.
pub mod Ihms
pub mod Ecops
