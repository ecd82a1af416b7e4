-- ===== src/Worker/Phases.antt =====
-- apps/worker/worker/tasks.py: the phases of the pipeline by the services that it calls, each in a
-- session of its own, which leaves what it has committed. The provider that is loaded, where a
-- repository is cloned and what a review that is cut short leaves in its session are parameters.
pub mod Marks
pub mod States
pub mod Refines
pub mod Tests
use agentic_dev_ops.Prelude.{ℕ, Bool, Option, none, some, List, String}
use agentic_dev_ops.Prelude.Text.{Text}
use agentic_dev_ops.Db.Session.{Result, ok, failed, ◌>>◌}
use agentic_dev_ops.Db.Tables.{Tables, UnitRow}
use agentic_dev_ops.Db.Daos.{Env, Rows, commit, update_run}
use agentic_dev_ops.Git.Service.{Disk, ingest}
use agentic_dev_ops.Agents.Filters.{OnDisk}
use agentic_dev_ops.Agents.Numbering.{Reviewers, Numbered}
use agentic_dev_ops.Agents.Service.{review_run}
use agentic_dev_ops.Scoring.Service.{score_run}
use agentic_dev_ops.Reporting.Service.{Content, generate_report}
use agentic_dev_ops.Worker.Pipeline.{
  PhaseEnd, finished, raised, ReviewEnd, reviewed, review_raised, timed_out, ProviderEnd, Phases,
}

-- What the services use of their surroundings.
pub record Surroundings ⦃env : Env⦄ : Type 1 where
  pub Provider : Type 0
  pub disk : Disk
  pub load_provider : Rows → ProviderEnd (Tables env.fl env.lower) Provider
  pub repo_problem : ℕ → Option Text
  pub reviewers : Provider → Reviewers env.fl
  pub at : UnitRow → Text → OnDisk
  pub validate : Numbered env.fl.F → List Text
  -- The session of a review that takes too long, when it is cancelled.
  pub cancelled : ℕ → Rows → Option env.sessions.Session
  pub scoring_version : Text
  pub render_markdown : Content → Text
  pub reports_root : Text
  pub write_text : Text → Text → Option Text
  pub is_truthy : env.fl.F → Bool

module _ ⦃env : Env⦄ (around : Surroundings) where
  open env use {fl, lower, sessions}
  open sessions use {Session, saved}

  unfoldable pub phase_end : {A : Type 0} → Result Session A → PhaseEnd (Tables fl lower)
  phase_end (ok a s) = finished (saved s)
  phase_end (failed e s) = raised e (saved s)

  -- `update_status` and `commit` in a session.
  unfoldable pub mark_in : ℕ → String → Option Text → Session → PhaseEnd (Tables fl lower)
  unfolding update_run phase_end
  mark_in run_id status reason s = phase_end ((update_run run_id status reason >> commit) s)

  unfoldable pub review_end :
      {A : Type 0} → ℕ → Option Session → Result Session A → ReviewEnd (Tables fl lower)
  unfolding mark_in
  review_end run_id (some s) r = timed_out (λ status reason. mark_in run_id status reason s)
  review_end run_id none (ok a s) = reviewed (saved s)
  review_end run_id none (failed e s) = review_raised e (saved s)

  abbrev pub services : Phases (Tables fl lower)
  services = record {
    Provider = around.Provider;
    ingest = λ run_id db. phase_end (ingest around.disk run_id (sessions.begin db));
    load_provider = around.load_provider;
    query_problem = λ db. sessions.problem (sessions.begin db);
    repo_problem = around.repo_problem;
    review_run = λ run_id provider repository_id db.
        review_end run_id (around.cancelled run_id db) (
          review_run (around.reviewers provider) around.at around.validate run_id
            (sessions.begin db));
    score_run =
        λ run_id db. phase_end (score_run around.scoring_version run_id (sessions.begin db));
    generate_report = λ run_id db. phase_end (
        generate_report around.render_markdown around.reports_root around.write_text
          around.is_truthy run_id (sessions.begin db));
    mark = λ run_id status reason db. mark_in run_id status reason (sessions.begin db);
  }
