-- ===== src/Worker/Workflow.antt =====
-- The workflow of an analysis run, as apps/worker/worker/tasks.py describes its phases: the statuses
-- that each of them may leave committed. A run that is not there has no status.
use agentic_dev_ops.Prelude.{ℕ, ◌≡◌, refl, Option, none, some, String, nat_eq}
use agentic_dev_ops.Prelude.Dict.{lookup, lookup-insert_same}
use agentic_dev_ops.Prelude.Text.{Text}
use agentic_dev_ops.Worker.Runs.{AnalysisRun, Runs, with_status, set_status, update_status}

unfoldable pub status_in : Option AnalysisRun → Option String
status_in none = none
status_in (some run) = some run.status

unfoldable pub status_of : ℕ → Runs → Option String
unfolding status_in
status_of run_id runs = status_in (lookup run_id runs)

-- The statuses that an ingestion may leave committed if it raises: the one that it found, or its own.
pub data Ingesting (start : Option String) : Option String → Type 0 where
  untouched : Ingesting start start
  fetching : Ingesting start (some "git_fetching")
  given_up : Ingesting start (some "failed")

-- The statuses that a review of an ingested run may leave committed if it raises.
pub data Reviewing : Option String → Type 0 where
  not_started : Reviewing (some "git_ingested")
  started : Reviewing (some "agent_review_started")

-- The statuses that a pipeline may leave committed if it raises. "completed" is none of them.
pub data Running (start : Option String) : Option String → Type 0 where
  not_begun : Running start start
  fetching : Running start (some "git_fetching")
  ingested : Running start (some "git_ingested")
  review_started : Running start (some "agent_review_started")
  reviewed : Running start (some "agent_review_completed")
  scored : Running start (some "scored")
  failed : Running start (some "failed")

pub Ingesting-Running :
    {start now later : Option String}
    → Running start now
    → Ingesting now later
    → Running start later
Ingesting-Running r untouched = r
Ingesting-Running r fetching = Running.fetching
Ingesting-Running r given_up = failed

pub Reviewing-Running : {start later : Option String} → Reviewing later → Running start later
Reviewing-Running not_started = ingested
Reviewing-Running started = review_started

-- A status that is set, of a run that is there.
set_status-status :
    (now run_id : ℕ) (status : String) (reason : Option Text) (runs : Runs) (old : String)
    (o : Option AnalysisRun)
    → status_in o ≡ some old
    → status_of run_id (set_status now run_id status reason runs o) ≡ some status
unfolding set_status status_of status_in with_status
set_status-status now run_id status reason runs old none e = absurd (cc)
set_status-status now run_id status reason runs old (some run) e =
    rw (lookup-insert_same run_id (with_status now status reason run) runs) refl

pub update_status-status :
    (now run_id : ℕ) (status : String) (reason : Option Text) (runs : Runs) (old : String)
    → status_of run_id runs ≡ some old
    → status_of run_id (update_status now run_id status reason runs) ≡ some status
unfolding update_status status_of
update_status-status now run_id status reason runs old e =
    set_status-status now run_id status reason runs old (lookup run_id runs) e

-- A run that is not there is not made.
set_status-missing :
    (now run_id : ℕ) (status : String) (reason : Option Text) (runs : Runs) (o : Option AnalysisRun)
    → lookup run_id runs ≡ o
    → status_in o ≡ none
    → status_of run_id (set_status now run_id status reason runs o) ≡ none
unfolding set_status status_of status_in
set_status-missing now run_id status reason runs none e h = rw e refl
set_status-missing now run_id status reason runs (some run) e h = absurd (cc)

pub update_status-missing :
    (now run_id : ℕ) (status : String) (reason : Option Text) (runs : Runs)
    → status_of run_id runs ≡ none
    → status_of run_id (update_status now run_id status reason runs) ≡ none
unfolding update_status status_of
update_status-missing now run_id status reason runs h =
    set_status-missing now run_id status reason runs (lookup run_id runs) refl h
