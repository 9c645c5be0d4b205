-- ===== src/Osquery.antt =====
-- The client of osquery's extension socket: agent/src/osquery.
pub mod Words
pub mod Lossy
pub mod Thrift
pub mod Client
mod Examples
