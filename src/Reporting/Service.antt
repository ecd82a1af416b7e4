-- ===== src/Reporting/Service.antt =====
-- packages/reporting/devmanager_reporting/service.py, `generate_report`. The text of the report, the
-- directory and what writing a file raises are parameters.
pub mod Atomic
use agentic_dev_ops.Prelude.{
  ℕ, Bool, if◌then◌else◌, Option, none, some, List, [], ◌∷◌, ◌++◌, length,
}
use agentic_dev_ops.Prelude.Text.{Text, codes}
use agentic_dev_ops.Db.Session.{◌>>=◌, ◌>>◌, pure, raise, best_effort}
use agentic_dev_ops.Db.Repositories.{Repository}
use agentic_dev_ops.Db.Tables.{
  FindingRow, Score, UnitRow, Report, AuditEvent, Meta, text, number, float, missing,
}
use agentic_dev_ops.Db.Daos.{
  Env, Do, get_run, get_repository, get_score, get_report, list_findings, list_units, create_report,
  append, commit, audit_event,
}
use agentic_dev_ops.Worker.Runs.{AnalysisRun}

module _ ⦃env : Env⦄ where
  -- What the report is rendered from.
  pub record Content : Type 0 where
    pub run : AnalysisRun
    pub repository_full_name : Text
    pub score : Option (Score env.fl env.lower)
    pub findings : List (FindingRow env.fl env.lower)
    pub change_units : List UnitRow

module _ ⦃env : Env⦄ (render_markdown : Content → Text) (reports_root : Text)
    (write_text : Text → Text → Option Text) (is_truthy : env.fl.F → Bool) where
  open env use {fl, lower, str_id}

  -- `repo.full_name if repo else str(run.repository_id)`
  unfoldable pub name_of : AnalysisRun → Option Repository → Text
  name_of run (some repo) = repo.full_name
  name_of run none = str_id run.repository_id

  abbrev pub report_path : ℕ → Text
  report_path run_id = reports_root ++ (codes "/" ++ (str_id run_id ++ codes ".md"))

  -- `float(score.final_score) if score and score.final_score else None`
  abbrev pub points : Option (Score fl lower) → Meta fl lower
  points none = missing
  points (some score) =
      if is_truthy score.result.final_score then float score.result.final_score else missing

  abbrev pub grade : Option (Score fl lower) → Meta fl lower
  grade none = missing
  grade (some score) = text (codes score.result.grade)

  abbrev pub report_event : ℕ → Text → Report → ℕ → Option (Score fl lower) → AuditEvent fl lower
  report_event run_id reference report findings_count score =
      audit_event "system" run_id "run.report_generated" (some reference) (
        ("report_id", text (str_id report.report_id))
        ∷ ("findings_count", number findings_count)
        ∷ ("score", points score)
        ∷ ("grade", grade score)
        ∷ [])

  -- Behind the file: the row, the audit event and the commit.
  unfoldable pub record_report : ℕ → Content → Option Text → Do Report
  unfolding create_report append
  record_report run_id content (some problem) = raise problem
  record_report run_id content none =
      let reference = codes "file://" ++ report_path run_id in
      do
        report ← create_report run_id reference
        best_effort
            (append (report_event run_id reference report (length content.findings) content.score))
        commit
        pure report

  unfoldable pub write_report : ℕ → Content → Do Report
  unfolding record_report
  write_report run_id content =
      record_report run_id content (write_text (report_path run_id) (render_markdown content))

  unfoldable pub report_unless : ℕ → AnalysisRun → Option Report → Do Report
  unfolding name_of get_repository get_score list_findings list_units write_report
  report_unless run_id run (some existing) = raise (
      codes "Run "
      ++ (str_id run_id
          ++ (codes " already has a report (report_id="
              ++ (str_id existing.report_id ++ codes ")"))))
  report_unless run_id run none = do
    repo ← get_repository run.repository_id
    score ← get_score run_id
    findings ← list_findings run_id
    units ← list_units run_id
    write_report run_id (record {
      run = run;
      repository_full_name = name_of run repo;
      score = score;
      findings = findings;
      change_units = units;
    })

  unfoldable pub report_existing : ℕ → Option AnalysisRun → Do Report
  unfolding get_report report_unless
  report_existing run_id none =
      raise (codes "AnalysisRun " ++ (str_id run_id ++ codes " not found"))
  report_existing run_id (some run) = get_report run_id >>= report_unless run_id run

  unfoldable pub generate_report : ℕ → Do Report
  unfolding get_run report_existing
  generate_report run_id = get_run run_id >>= report_existing run_id
