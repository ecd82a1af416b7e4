-- ===== src/Db.antt =====
-- The rows of the database, the session through which the services read and write them, and the
-- accesses of packages/db/devmanager_db/daos.
pub mod Session
pub mod Repositories
pub mod Tables
pub mod Daos
pub mod Tests
