-- ===== src/Codemap.antt =====
-- apps/api-gateway/api_gateway/routers/code_map/: the map of the repository's modules.
pub mod Schema
pub mod Store
pub mod Diff
pub mod Lines
pub mod Changes
pub mod Regen
pub mod Tests
