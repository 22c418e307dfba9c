-- ===== src/Protocol/RoundTrip.antt =====
-- Each `encode` of net/protocol.hpp, read by its decoder.
pub mod Orders
pub mod Reports
pub mod Book
