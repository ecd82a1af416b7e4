-- ===== src/Lib.antt =====
-- Verification of the platform's deterministic core: how a change is read, classified and scored,
-- how documents are cut for the knowledge base, how an analysis is started and led through its
-- phases, how the code map is kept, and how the copies of the project management platform are kept
-- in step.
--
-- The parts, and the modules that model them:
--   * Db: packages/db/devmanager_db. The rows of models.py (Db.Tables, Db.Repositories), the accesses
--     of daos/ (Db.Daos) and the session they are given (Db.Session), in which a step goes on or
--     raises. Db.Daos.Rules has a rule for each access, by which the services' theorems are proved.
--   * Scoring: packages/scoring/devmanager_scoring. `compute_score` takes the findings of a run
--     (Scoring.Engine), `score_run` hands it the stored ones and stores the score (Scoring.Service).
--   * Reporting: packages/reporting/devmanager_reporting/service.py (Reporting.Service).
--   * Git: packages/git/devmanager_git. `parse_diff` reads the two outputs of `git diff` (Git.Differ)
--     and asks the classifier (Git.Classifier) for each file. `ingest` (Git.Service) runs git by
--     fetcher.py (Git.Fetcher), asks CODEOWNERS for owners (Git.Codeowners), writes the patches
--     (Git.Hunks) and stores the units.
--   * Agents: packages/agents/devmanager_agents/chunker.py. `HybridChunker.chunk` (Agents.Chunker.Hybrid)
--     picks a splitter and cuts what is too large by `_split_by_tokens` (Agents.Chunker).
--     The skills of the agent are packages/agents/devmanager_agents/registry.py (Agents.Registry), its
--     loop agent_reviewer.py (Agents.Reviewer). `review_run` of service.py (Agents.Service) picks the
--     units that are worth it (Agents.Filters), runs the loop on each, completes what the model wrote
--     (Agents.Enrich), numbers it (Agents.Numbering) and stores it.
--   * Codemap: apps/api-gateway/api_gateway/routers/code_map/. The data of schema.py (Codemap.Schema),
--     the store (Codemap.Store), diff.py (Codemap.Diff), line_context.py (Codemap.Lines), and regen.py
--     (Codemap.Changes and Codemap.Regen), which asks the language model for a graph and puts it into
--     the store.
--   * Pm: services/pm-integration/ with packages/db/devmanager_db/daos/team_ops/. The client
--     (Pm.Client), the tables and their DAOs (Pm.Tables), mapper.py (Pm.Mapper), sync/upsert.py
--     (Pm.Upsert), sync/full.py and sync/incremental.py (Pm.Sync), and recompute/: familiarity.py
--     (Pm.Recompute) and workload.py (Pm.Workload).
--   * Worker: apps/worker/worker/tasks.py and the run's DAO. `full_pipeline` (Worker.Pipeline) leads a
--     run through its phases and writes its status (Worker.Runs), over any phases. Worker.Phases gives
--     it the four services, each in a session of its own; Worker.Workflow is the specification that
--     they implement, the statuses that a phase may leave committed.
--   * Webhook: apps/api-gateway/api_gateway/routers/webhook_gitlab.py (Webhook.Events and
--     Webhook.Route) makes a run and a job of the queue from an event of GitLab; the worker takes the
--     job from there.
--
-- Conventions. A text is a list of code points, a dict an association list in insertion order, a
-- table the list of its rows, a set a list without repetition. Numbers are natural numbers; where the
-- program can go below zero (counts read by `int`) they are integers. Names are those of the source
-- without the leading underscore. An exception is a constructor of a result, or `none`.
--
-- Parameters. Python's float is the record Float with the laws that are used of it; `str.lower`, the
-- answers of the language model, of the project management platform and of pydantic's readers, the
-- file system, git's processes, `fnmatch`, the JSON schema check, the clock, `uuid4` and the jitter of
-- a backoff are arguments. SQLAlchemy's session is the record Sessions: a write is seen at once and
-- committed later, a refused write loses the transaction, and a lost transaction commits nothing.
-- Db.Tests has such a session in memory.
--
-- Order. The tasks that asyncio.gather starts are run one after the other, in the order of the list.
--
-- Fuel. Two loops can run for ever, and take fuel: `_split_by_tokens` and `get_paginated`. `none` is
-- that the fuel ran out; what fuel is enough, and when none is, is proved for each. The retries of a
-- request and of a regeneration are bounded by the program itself.
--
-- Not modelled: the user interfaces, migrations, HTTP, logging, the text of the reports, the providers
-- of language models, the routers of the API but for the webhook and the code map, and the suggestions
-- for the team.
pub mod Prelude
pub mod Agents
pub mod Git
pub mod Codemap
pub mod Db
pub mod Float
pub mod Scoring
pub mod Reporting
pub mod Pm
pub mod Worker
pub mod Webhook
