-- ===== src/Statistics.antt =====
-- The statistics of the core-data service (app/core_data/internal/service/statistic_ops.go): the
-- snapshots that the pages of a user keep.
pub mod Snapshots
pub mod Achievements
