-- ===== src/ScrapeOptimize.antt =====
-- scrape_optimize.py: asking Telegram less. The throttle of that file computes with floats and is
-- not modelled.
pub mod Oracle
pub mod Harvester
