-- ===== src/Smbios.antt =====
-- The firmware's tables: agent/src/smbios/table.rs.
pub mod Text
pub mod Table
pub mod Fields
pub mod Collected
pub mod Walk
pub mod Encoding
mod Examples
