-- ===== src/Agents.antt =====
-- packages/agents/devmanager_agents: the chunker, the skill registry and the agent's loop.
pub mod Chunker
pub mod Tests
pub mod Registry
pub mod Reviewer
pub mod Filters
pub mod Enrich
pub mod Numbering
pub mod Service
