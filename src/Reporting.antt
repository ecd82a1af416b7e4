-- ===== src/Reporting.antt =====
-- packages/reporting/devmanager_reporting.
pub mod Service
pub mod Tests
