-- ===== src/Spider.antt =====
-- The crawler of the core-data service (app/core_data): what it makes of fetched submissions, how it
-- stores them, and its refresh jobs.
pub mod Normalize
pub mod Store
pub mod Jobs
pub mod Load
pub mod Service
pub mod Sync
pub mod Binding
pub mod Listing
