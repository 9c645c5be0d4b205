-- ===== src/Exporters.antt =====
-- The scraping of Prometheus exporters: agent/src/exporters.
pub mod Text
pub mod Scrape
mod Examples
