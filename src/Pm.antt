-- ===== src/Pm.antt =====
-- services/pm-integration/: reading the project management platform and keeping copies of its
-- iterations, issues and assignments.
pub mod Client
pub mod Tables
pub mod Mapper
pub mod Upsert
pub mod Sync
pub mod Recompute
pub mod Workload
pub mod Tests
