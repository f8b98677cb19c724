-- ===== src/Scraping.antt =====
-- The package scraping/: the harvest of result pages, the rotation of proxies and the worker that
-- hydrates details.
pub mod Cards
pub mod Challenge
pub mod Harvester
pub mod Http
pub mod Proxy
pub mod Refarmer
pub mod Worker
mod Tests
