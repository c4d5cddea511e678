-- ===== src/Networks.antt =====
-- commons/networks: the test network that a test runs against.
pub mod IpTracker
pub mod ServiceNetwork
pub mod Builder
mod Tests
