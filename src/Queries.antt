-- ===== src/Queries.antt =====
-- The queries that Renga asks of a host: agent/src/jobs/queries.
pub mod Statement
pub mod Bounded
pub mod Table
pub mod Sql
mod Examples
