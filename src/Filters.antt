-- ===== src/Filters.antt =====
-- The package filters/: the conditions of each flow's fields and the encoder of a plan's hard filters.
pub mod Conditions
pub mod Encoder
pub mod Schema
mod Tests
