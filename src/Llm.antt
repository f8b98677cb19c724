-- ===== src/Llm.antt =====
-- The package llm/: the shortlist of harvested listings.
pub mod Completion
pub mod QueryParser
pub mod Shortlist
pub mod Transport
pub mod Recommend
mod Tests
