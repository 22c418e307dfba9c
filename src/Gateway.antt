-- ===== src/Gateway.antt =====
-- net/gateway.hpp, the core of the gateway.
pub mod OrderIds
pub mod Feed
pub mod Frames
