-- ===== src/Tests.antt =====
-- Runs of the modelled code at concrete inputs, which meet the conditions of the theorems.
pub mod Sample
pub mod Users
pub mod Crawler
pub mod Contest
pub mod Binding
pub mod Statistics
pub mod Achievements
