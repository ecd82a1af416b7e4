-- ===== src/Worker/Phases/Refines.antt =====
-- The pipeline of the services, against the workflow of a run.
use agentic_dev_ops.Prelude.{
  ℕ, ◌≡◌, refl, sym, ap, subst, ◌∙◌, Option, none, some, List, [], ◌∷◌, ◌++◌, map, String, take,
  nat_eq, arith,
}
use agentic_dev_ops.Prelude.Text.{Text}
use agentic_dev_ops.Scoring.Engine.{compute_score}
use agentic_dev_ops.Scoring.Service.{as_finding, score_run}
use agentic_dev_ops.Scoring.Service.Atomic.{score_run-Scored}
use agentic_dev_ops.Reporting.Service.{generate_report}
use agentic_dev_ops.Reporting.Service.Atomic.{Reported, generate_report-Reported}
use agentic_dev_ops.Db.Session.{Ends-map}
use agentic_dev_ops.Db.Tables.{Tables, Report, score_of, report_of, findings_of_run}
use agentic_dev_ops.Db.Daos.{Env, Rows, with_run_status}
use agentic_dev_ops.Worker.Pipeline.{
  PhaseEnd, finished, raised, review_phase, complete_phase, run_phases, handled, handle,
  full_pipeline,
}
use agentic_dev_ops.Worker.Pipeline.Ends.{Marked}
use agentic_dev_ops.Worker.Phases.{Surroundings, phase_end, mark_in, services}
use agentic_dev_ops.Worker.Phases.Marks.{services-Marks}
use agentic_dev_ops.Worker.Phases.States.{
  Walk, Is, After, KeepsRun, HasScore, HasReport, then_phase-After, phase_end-After, ingest_phase,
  write-After, review_for-After, Scored-state,
}
use agentic_dev_ops.Worker.Workflow.{
  status_of, Running, not_begun, failed, update_status-status, update_status-missing,
}

report_of-last :
    (run_id : ℕ) (rows : List Report) (row : Report)
    → report_of run_id rows ≡ none
    → row.run_id ≡ run_id
    → report_of run_id (rows ++ row ∷ []) ≡ some row
unfolding report_of
report_of-last run_id [] row new same = ground arith
report_of-last run_id (r ∷ rows) row new same = ground (arith, report_of-last run_id rows row)

module _ ⦃env : Env⦄ (around : Surroundings) (run_id : ℕ) (start : Option String)
    (timeout_text : Text) where
  open env use {fl, lower, sessions, now}
  open sessions use {Session, view, saved}

  abbrev Moved : Rows → Type 0
  Moved = Walk around run_id start timeout_text

  abbrev Status : String → Rows → Type 0
  Status = Is around run_id start timeout_text

  abbrev Leaves : (Rows → Type 0) → PhaseEnd (Tables fl lower) → Type 0
  Leaves = After around run_id start timeout_text

  abbrev at_begin : (P : Rows → Type 0) (db : Rows) → P db → P (view (sessions.begin db))
  at_begin P db h = subst P (sym (sessions.view-begin db)) h

  abbrev IsScored : Rows → Type 0
  IsScored db = Status "scored" db × HasScore around run_id start timeout_text db

  score_phase :
      (db : Rows)
      → Status "agent_review_completed" db
      → Leaves IsScored
          (phase_end around (score_run around.scoring_version run_id (sessions.begin db)))
  score_phase db is =
      let r = score_run around.scoring_version run_id (sessions.begin db) in
      phase_end-After around run_id start timeout_text IsScored r (
        Ends-map _ _ _ _ r
          (λ score t h.
            Scored-state around run_id start timeout_text (view (sessions.begin db)) (saved t) score
              (at_begin (Status "agent_review_completed") db is) h)
          (λ e t same. subst Moved (sym (same ∙ sessions.saved-begin db)) is.0)
          (score_run-Scored around.scoring_version run_id (sessions.begin db)))

  abbrev IsReported : Rows → Type 0
  IsReported db =
      Status "scored" db
      × HasScore around run_id start timeout_text db
      × HasReport around run_id start timeout_text db

  Reported-state :
      (before after : Rows) (report : Report)
      → IsScored before
      → Reported around.render_markdown around.reports_root around.write_text around.is_truthy
          run_id before report after
      → IsReported after
  Reported-state before after report ((walk, x), (score, has, result)) h =
      let (new, mine, file, rows, scores, findings, runs) = h in
      let same = ap (status_of run_id) runs in
      (
        (subst (Running start) (sym same) walk, same ∙ x),
        (
          score,
          ap (score_of fl lower run_id) scores ∙ has,
          result
              ∙ ap
                  (λ fs.
                    compute_score fl lower (
                      map (as_finding around.scoring_version) (findings_of_run fl lower run_id fs)))
                  (sym findings),
        ),
        (
          report,
          ap (report_of run_id) rows ∙ report_of-last run_id before.rest.reports report new mine,
        ),
      )

  report_phase :
      (db : Rows)
      → IsScored db
      → Leaves IsReported (
          phase_end around (
            generate_report around.render_markdown around.reports_root around.write_text
              around.is_truthy run_id
              (sessions.begin db)))
  report_phase db is =
      let r =
        generate_report around.render_markdown around.reports_root around.write_text
          around.is_truthy run_id (sessions.begin db) in
      phase_end-After around run_id start timeout_text IsReported r (
        Ends-map _ _ _ _ r
          (λ report t h.
            Reported-state (view (sessions.begin db)) (saved t) report (at_begin IsScored db is) h)
          (λ e t same. subst Moved (sym (same ∙ sessions.saved-begin db)) is.0.0)
          (generate_report-Reported around.render_markdown around.reports_root around.write_text
            around.is_truthy run_id (sessions.begin db)))

  abbrev pub IsCompleted : Rows → Type 0
  IsCompleted db =
      (status_of run_id db.runs ≡ some "completed")
      × HasScore around run_id start timeout_text db
      × HasReport around run_id start timeout_text db

  complete_phase-After :
      (db : Rows)
      → IsReported db
      → Leaves IsCompleted
          (complete_phase (Tables fl lower) (services around) run_id timeout_text db)
  unfolding complete_phase
  complete_phase-After db (is, score, report) =
      write-After around run_id start timeout_text IsCompleted "completed" none "scored" db
        (mark_in around run_id "completed" none (sessions.begin db)) is.0 is.1
        (services-Marks around run_id "completed" none db)
        λ later e x. (
          x,
          subst (HasScore around run_id start timeout_text) (sym e) score,
          subst (HasReport around run_id start timeout_text) (sym e) report,
        )

  run_phases-After :
      (db : Rows)
      → KeepsRun around run_id start timeout_text
      → Moved db
      → Leaves IsCompleted (run_phases (Tables fl lower) (services around) run_id timeout_text db)
  unfolding run_phases review_phase
  run_phases-After db keeps walk =
      then_phase-After around run_id start timeout_text IsReported IsCompleted _ _
        (then_phase-After around run_id start timeout_text IsScored IsReported _ _
          (then_phase-After around run_id start timeout_text (Status "agent_review_completed")
            IsScored _ _
            (then_phase-After around run_id start timeout_text (Status "git_ingested")
              (Status "agent_review_completed") _ _
              (ingest_phase around run_id start timeout_text db walk)
              (λ d is.
                review_for-After around run_id start timeout_text d (around.load_provider d) keeps
                  is))
            score_phase)
          report_phase)
        complete_phase-After

  failed_from :
      (reason : Option Text) (db later : Rows) (o : Option String)
      → status_of run_id db.runs ≡ o
      → Moved db
      → later ≡ with_run_status run_id "failed" reason db
      → Moved later
  failed_from reason db later none e walk same =
      let x =
        ap (λ (d : Rows). status_of run_id d.runs) same
        ∙ update_status-missing now run_id "failed" reason db.runs e in
      subst (Running start) (sym x) (subst (Running start) e walk)
  failed_from reason db later (some old) e walk same =
      let x =
        ap (λ (d : Rows). status_of run_id d.runs) same
        ∙ update_status-status now run_id "failed" reason db.runs old e in
      rw x failed

  handled-After :
      (e : Text) (reason : Option Text) (db : Rows) (end : PhaseEnd (Tables fl lower))
      → Moved db
      → Marked (Tables fl lower) (services around) now run_id "failed" reason db end
      → Leaves IsCompleted (handled (Tables fl lower) (services around) run_id timeout_text e end)
  unfolding handled
  handled-After e reason db (finished later) walk h =
      failed_from reason db later (status_of run_id db.runs) refl walk h
  handled-After e reason db (raised x later) walk h = subst Moved (sym h) walk

  handle-After :
      (end : PhaseEnd (Tables fl lower))
      → Leaves IsCompleted end
      → Leaves IsCompleted (handle (Tables fl lower) (services around) run_id timeout_text end)
  unfolding handle
  handle-After (finished db) h = h
  handle-After (raised e db) h =
      handled-After e (some (take 500 e)) db
        (mark_in around run_id "failed" (some (take 500 e)) (sessions.begin db)) h
        (services-Marks around run_id "failed" (some (take 500 e)) db)

-- A pipeline of the services that returns leaves its run completed, with a score, which is the one
-- that the engine computes of its stored findings, and with a report. One that raises, however git,
-- the files, the model, the sessions (the handler's too) and the time limit make its phases fail,
-- leaves the status as it was, or one that precedes "completed", or "failed": never "completed",
-- unless the run was completed before. A review that is cut short has committed a status of its own
-- at most, and has not removed its run.
pub full_pipeline-Running :
    ⦃env : Env⦄ (around : Surroundings) (run_id : ℕ) (timeout_text : Text) (db : Rows)
    → KeepsRun around run_id (status_of run_id db.runs) timeout_text
    → After around run_id
        (status_of run_id db.runs)
        timeout_text
        (IsCompleted around run_id (status_of run_id db.runs) timeout_text)
        (full_pipeline (Tables env.fl env.lower) (services around) run_id timeout_text db)
unfolding full_pipeline
full_pipeline-Running ⦃env⦄ around run_id timeout_text db keeps =
    handle-After around run_id (status_of run_id db.runs) timeout_text _
      (run_phases-After around run_id (status_of run_id db.runs) timeout_text db keeps not_begun)
