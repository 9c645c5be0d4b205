-- ===== src/Jobs.antt =====
-- On-demand jobs: agent/src/jobs.
pub mod Record
pub mod Catalog
pub mod Reporter
pub mod Supervision
pub mod Worker
mod Examples
