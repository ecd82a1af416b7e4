-- ===== src/Worker/Tests.antt =====
-- The pipeline's theorem at one run.
use agentic_dev_ops.Prelude.{ℕ, refl, nat_eq, Option, none, [], ◌∷◌, String}
use agentic_dev_ops.Prelude.Text.{Text, codes}
use agentic_dev_ops.Db.Tests.{run_with}
use agentic_dev_ops.Worker.Runs.{AnalysisRun, update_status}
use agentic_dev_ops.Worker.Pipeline.{
  Database, PhaseEnd, finished, timed_out, provider_ready, Phases, full_pipeline,
}
use agentic_dev_ops.Worker.Pipeline.Ends.{Ended, full_pipeline-Ended}

abbrev run : AnalysisRun
run = run_with "trigger_received"

abbrev start : Database Unit
start = record { runs = (3, run) ∷ []; rest = tt }

-- The pipeline's write of a status, as the database takes it.
abbrev mark : ℕ → String → Option Text → Database Unit → PhaseEnd Unit
mark run_id status reason db =
    finished (record db { runs = update_status 9 run_id status reason db.runs })

-- Every phase ends well but the review, which times out.
abbrev slow_review : Phases Unit
slow_review = record {
  Provider = Unit;
  ingest = λ id db. finished db;
  load_provider = λ db. provider_ready tt;
  query_problem = λ db. none;
  repo_problem = λ id. none;
  review_run = λ id provider repository db. timed_out (λ status reason. mark id status reason db);
  score_run = λ id db. finished db;
  generate_report = λ id db. finished db;
  mark = mark;
}

full_pipeline-Ended_example :
    Ended Unit slow_review 9 3
      (codes "timed out")
      (λ status reason db. refl)
      start
      (full_pipeline Unit slow_review 3 (codes "timed out") start)
full_pipeline-Ended_example =
    full_pipeline-Ended Unit slow_review 9 3 (codes "timed out") (λ status reason db. refl) start
