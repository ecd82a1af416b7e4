-- ===== src/Worker/Runs.antt =====
-- packages/db/devmanager_db/daos/analysis_run.py: the rows of the analysis runs.
use agentic_dev_ops.Prelude.{
  ℕ, Bool, ◌||◌, Option, none, some, String, nat_eq, string_eq, ◌==◌, if◌then◌else◌,
}
use agentic_dev_ops.Prelude.Dict.{Dict, lookup, insert}
use agentic_dev_ops.Prelude.Text.{Text}

pub record AnalysisRun : Type 0 where
  pub repository_id : ℕ
  pub repository_full_name : Text
  pub trigger_type : String
  pub target_branch : Text
  pub baseline_sha : Text
  pub target_sha : Text
  pub policy_version : Text
  pub scoring_version : Text
  pub status : String
  pub failure_reason : Option Text
  pub started_at : ℕ
  pub completed_at : Option ℕ
  pub merge_base_sha : Option Text
  pub history_rewrite_detected : Bool

-- The runs by their ids.
abbrev pub Runs : Type 0
Runs = Dict ℕ AnalysisRun

unfoldable pub is_final : String → Bool
is_final status =
    status == "completed"
    || status == "partial_analysis"
    || status == "failed"
    || status == "rejected"

-- `if failure_reason is not None`
abbrev pub reason_after : Option Text → Option Text → Option Text
reason_after none old = old
reason_after (some r) old = some r

unfoldable pub with_status : ℕ → String → Option Text → AnalysisRun → AnalysisRun
unfolding is_final
with_status now status failure_reason run = record run {
  status = status;
  failure_reason = reason_after failure_reason run.failure_reason;
  completed_at = if is_final status then some now else run.completed_at;
}

unfoldable pub set_status : ℕ → ℕ → String → Option Text → Runs → Option AnalysisRun → Runs
unfolding with_status
set_status now run_id status failure_reason runs none = runs
set_status now run_id status failure_reason runs (some run) =
    insert run_id (with_status now status failure_reason run) runs

unfoldable pub update_status : ℕ → ℕ → String → Option Text → Runs → Runs
unfolding set_status
update_status now run_id status failure_reason runs =
    set_status now run_id status failure_reason runs (lookup run_id runs)
