-- ===== src/Scoring/Service.antt =====
-- packages/scoring/devmanager_scoring/service.py, `score_run`. The configured version is a parameter.
pub mod Atomic
pub mod Returns
use agentic_dev_ops.Prelude.{ℕ, Option, none, some, List, [], ◌∷◌, map, ◌++◌, length}
use agentic_dev_ops.Prelude.Text.{Text, codes}
use agentic_dev_ops.Scoring.Engine.{Finding, ScoreResult, compute_score}
use agentic_dev_ops.Db.Session.{◌>>=◌, ◌>>◌, pure, raise, best_effort}
use agentic_dev_ops.Db.Tables.{FindingRow, Score, AuditEvent, text, number, float}
use agentic_dev_ops.Db.Daos.{
  Env, Do, get_run, get_score, list_findings, create_score, update_run, append, commit, audit_event,
}
use agentic_dev_ops.Worker.Runs.{AnalysisRun}

module _ ⦃env : Env⦄ (scoring_version : Text) where
  open env use {fl, lower, str_id}

  -- What the engine reads of a row; the key stands for the object.
  abbrev pub as_finding : FindingRow fl lower → Finding fl.F
  as_finding row = record {
    finding_id = row.finding_id;
    category = row.category;
    severity = row.severity;
    confidence = row.confidence;
    dedupe_key = row.dedupe_key;
    object = row.finding_pk;
  }

  abbrev pub scored_event : ℕ → Score fl lower → ScoreResult fl lower → ℕ → AuditEvent fl lower
  scored_event run_id score result findings_count = audit_event "system" run_id "run.scored" none (
      ("score_id", text (str_id score.score_id))
      ∷ ("final_score", float result.final_score)
      ∷ ("grade", text (codes result.grade))
      ∷ ("findings_count", number findings_count)
      ∷ [])

  unfoldable pub score_findings : ℕ → List (FindingRow fl lower) → Do (Score fl lower)
  unfolding create_score update_run append
  score_findings run_id findings =
      let result = compute_score fl lower (map as_finding findings) in
      do
        score ← create_score run_id scoring_version result
        update_run run_id "scored" none
        best_effort (append (scored_event run_id score result (length findings)))
        commit
        pure score

  unfoldable pub score_unless : ℕ → Option (Score fl lower) → Do (Score fl lower)
  unfolding list_findings score_findings
  score_unless run_id (some existing) = raise (
      codes "Run "
      ++ (str_id run_id
          ++ (codes " already scored (score_id=" ++ (str_id existing.score_id ++ codes ")"))))
  score_unless run_id none = list_findings run_id >>= score_findings run_id

  unfoldable pub score_existing : ℕ → Option AnalysisRun → Do (Score fl lower)
  unfolding get_score score_unless
  score_existing run_id none = raise (codes "AnalysisRun " ++ (str_id run_id ++ codes " not found"))
  score_existing run_id (some run) = get_score run_id >>= score_unless run_id

  unfoldable pub score_run : ℕ → Do (Score fl lower)
  unfolding get_run score_existing
  score_run run_id = get_run run_id >>= score_existing run_id
