-- ===== src/Worker.antt =====
-- apps/worker/: the analysis of a change in the background.
pub mod Runs
pub mod Workflow
pub mod Pipeline
pub mod Phases
pub mod Tests
