-- ===== src/Worker/Pipeline.antt =====
-- apps/worker/worker/tasks.py, `full_pipeline`: the phases of an analysis, each in a session of its
-- own. What a phase leaves committed, and the text of the exception that it raises if it does, are
-- parameters, and so is `Rest`, all of the database but the runs. The pipeline's own writes of a
-- status are such phases as well: they may be refused, the handler's too.
pub mod Ends
use agentic_dev_ops.Prelude.{ℕ, nat_eq, Option, none, some, List, [], String, take}
use agentic_dev_ops.Prelude.Dict.{lookup}
use agentic_dev_ops.Prelude.Text.{Text, codes}
use agentic_dev_ops.Worker.Runs.{AnalysisRun, Runs, update_status}

module _ (Rest : Type 0) where
  pub record Database : Type 0 where
    pub runs : Runs
    pub rest : Rest

  -- How a phase ends: with the database, and the text of an exception.
  pub data PhaseEnd : Type 0 where
    finished : Database → PhaseEnd
    raised : Text → Database → PhaseEnd

  -- How `wait_for(review_run(...))` ends. After a timeout, the status is written in the session of the
  -- review, which holds what the review wrote; the constructor says how that ends.
  pub data ReviewEnd : Type 0 where
    reviewed : Database → ReviewEnd
    review_raised : Text → Database → ReviewEnd
    timed_out : (String → Option Text → PhaseEnd) → ReviewEnd

  -- What `_load_llm_provider` finds.
  pub data ProviderEnd (Provider : Type 0) : Type 0 where
    no_provider : ProviderEnd Provider
    provider_ready : Provider → ProviderEnd Provider
    provider_raised : Text → ProviderEnd Provider

  pub record Phases : Type 1 where
    pub Provider : Type 0
    pub ingest : ℕ → Database → PhaseEnd
    pub load_provider : Database → ProviderEnd Provider
    -- The text of the exception of the query of the run, if it raises one.
    pub query_problem : Database → Option Text
    -- The text of the FileNotFoundError, if the repository is not cloned.
    pub repo_problem : ℕ → Option Text
    pub review_run : ℕ → Provider → ℕ → Database → ReviewEnd
    pub score_run : ℕ → Database → PhaseEnd
    pub generate_report : ℕ → Database → PhaseEnd
    -- `update_status` and `commit`, in a session of their own.
    pub mark : ℕ → String → Option Text → Database → PhaseEnd

  module _ (ph : Phases) (run_id : ℕ) (timeout_text : Text) where
    open ph use {
      Provider, ingest, load_provider, query_problem, repo_problem, review_run, score_run,
      generate_report, mark,
    }

    -- `str(TimeoutError())`
    abbrev pub timeout_message : Text
    timeout_message = []

    -- What follows an exception is not run.
    unfoldable pub then_phase : PhaseEnd → (Database → PhaseEnd) → PhaseEnd
    then_phase (finished db) next = next db
    then_phase (raised e db) next = raised e db

    unfoldable pub after_review : ReviewEnd → PhaseEnd
    unfolding then_phase
    after_review (reviewed db) = finished db
    after_review (review_raised e db) = raised e db
    after_review (timed_out mark_late) =
        then_phase (mark_late "failed" (some timeout_text)) λ db. raised timeout_message db

    unfoldable pub review_in : Provider → Database → AnalysisRun → Option Text → PhaseEnd
    unfolding after_review
    review_in provider db run (some e) = raised e db
    review_in provider db run none = after_review (review_run run_id provider run.repository_id db)

    -- A run that is not there has no `repository_id`.
    unfoldable pub review_with : Provider → Database → Option AnalysisRun → PhaseEnd
    unfolding review_in
    review_with provider db none =
        raised (codes "'NoneType' object has no attribute 'repository_id'") db
    review_with provider db (some run) = review_in provider db run (repo_problem run.repository_id)

    unfoldable pub review_queried : Provider → Database → Option Text → PhaseEnd
    unfolding review_with
    review_queried provider db (some e) = raised e db
    review_queried provider db none = review_with provider db (lookup run_id db.runs)

    unfoldable pub review_for : Database → ProviderEnd Provider → PhaseEnd
    unfolding review_queried
    review_for db no_provider = mark run_id "agent_review_completed" none db
    review_for db (provider_ready provider) = review_queried provider db (query_problem db)
    review_for db (provider_raised e) = raised e db

    unfoldable pub review_phase : Database → PhaseEnd
    unfolding review_for
    review_phase db = review_for db (load_provider db)

    unfoldable pub complete_phase : Database → PhaseEnd
    complete_phase db = mark run_id "completed" none db

    -- The body of the outer `try`.
    unfoldable pub run_phases : Database → PhaseEnd
    unfolding then_phase review_phase complete_phase
    run_phases db =
        then_phase
          (then_phase (then_phase (then_phase (ingest run_id db) review_phase) (score_run run_id))
            (generate_report run_id))
          complete_phase

    -- The handler: the run has failed, with the first 500 characters of the exception's text, which
    -- is raised again. An exception of the handler itself is passed over.
    unfoldable pub handled : Text → PhaseEnd → PhaseEnd
    handled e (finished db) = raised e db
    handled e (raised x db) = raised e db

    unfoldable pub handle : PhaseEnd → PhaseEnd
    unfolding handled
    handle (finished db) = finished db
    handle (raised e db) = handled e (mark run_id "failed" (some (take 500 e)) db)

    unfoldable pub full_pipeline : Database → PhaseEnd
    unfolding run_phases handle
    full_pipeline db = handle (run_phases db)
