-- ===== src/Scoring.antt =====
-- packages/scoring/devmanager_scoring.
pub mod Engine
pub mod Service
pub mod Tests
