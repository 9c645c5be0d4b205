-- ===== src/Transport.antt =====
-- Delivery to the server: agent/src/transport.rs.
pub mod Failure
pub mod Judged
pub mod Deadlines
pub mod Retry
pub mod Receipt
mod Examples
