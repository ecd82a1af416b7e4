-- ===== src/Git.antt =====
-- packages/git/devmanager_git: reading `git diff`, classifying files, ingesting a run.
pub mod Classifier
pub mod Differ
pub mod Fetcher
pub mod Codeowners
pub mod Hunks
pub mod Service
pub mod Tests
