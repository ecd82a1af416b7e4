-- ===== src/Reporting/Service/Atomic.antt =====
-- What `generate_report` commits.
use agentic_dev_ops.Prelude.{ℕ, ◌≡◌, refl, ap, ◌∙◌, Bool, Option, none, some, [], ◌∷◌, ◌++◌, nat_eq}
use agentic_dev_ops.Prelude.Dict.{lookup}
use agentic_dev_ops.Prelude.Text.{Text}
use agentic_dev_ops.Reporting.Service.{
  Content, name_of, report_path, record_report, write_report, report_unless, report_existing,
  generate_report,
}
use agentic_dev_ops.Db.Session.{Ends}
use agentic_dev_ops.Db.Repositories.{repository_with_id}
use agentic_dev_ops.Db.Tables.{
  Report, add_event, add_report, report_of, score_of, findings_of_run, units_of_run,
}
use agentic_dev_ops.Db.Daos.{
  Env, Rows, get_run, get_repository, get_score, get_report, list_findings, list_units,
  create_report,
}
use agentic_dev_ops.Db.Daos.Rules.{Post, reading_rule, audited_rule, added_rule, unless_some}
use agentic_dev_ops.Worker.Runs.{AnalysisRun}

module _ ⦃env : Env⦄ (render_markdown : Content → Text) (reports_root : Text)
    (write_text : Text → Text → Option Text) (is_truthy : env.fl.F → Bool) where
  open env use {fl, lower, sessions}
  open sessions use {Session, view, saved}

  -- What a report of this run is rendered from.
  abbrev pub content_of : ℕ → AnalysisRun → Rows → Content
  content_of run_id run db = record {
    run = run;
    repository_full_name =
        name_of render_markdown reports_root write_text is_truthy run
          (repository_with_id run.repository_id db.rest.repositories);
    score = score_of fl lower run_id db.rest.scores;
    findings = findings_of_run fl lower run_id db.rest.findings;
    change_units = units_of_run run_id db.rest.units;
  }

  -- A run without a report has got one, of the file that was written; its status is as it was.
  abbrev pub Reported : ℕ → Rows → Report → Rows → Type 0
  Reported run_id before report after =
      (report_of run_id before.rest.reports ≡ none)
      × (report.run_id ≡ run_id)
      × ((run : AnalysisRun) × (lookup run_id before.runs ≡ some run)
          × (write_text (report_path render_markdown reports_root write_text is_truthy run_id)
                (render_markdown (content_of run_id run before))
              ≡ none))
      × (after.rest.reports ≡ before.rest.reports ++ report ∷ [])
      × (after.rest.scores ≡ before.rest.scores)
      × (after.rest.findings ≡ before.rest.findings)
      × (after.runs ≡ before.runs)

  record_report-Reported :
      (run_id : ℕ) (run : AnalysisRun) (s : Session) (problem : Option Text)
      → lookup run_id (view s).runs ≡ some run
      → write_text
          (report_path render_markdown reports_root write_text is_truthy run_id)
          (render_markdown (content_of run_id run (view s)))
        ≡ problem
      → report_of run_id (view s).rest.reports ≡ none
      → Post
          (λ report t. Reported run_id (view s) report (saved t))
          (λ db. db ≡ saved s)
          (record_report render_markdown reports_root write_text is_truthy run_id
            (content_of run_id run (view s))
            problem
            s)
  unfolding record_report create_report add_report
  record_report-Reported run_id run s (some e) found wrote new = refl
  record_report-Reported run_id run s none found wrote new =
      let R = λ (report : Report) (t : Session). Reported run_id (view s) report (saved t) in
      let E = λ (db : Rows). db ≡ saved s in
      added_rule R E _ _ s _ refl λ t seen kept. audited_rule R E _ t _ kept λ u same now.
        let e = now ∙ ap (add_event fl lower _) (unless_some _ _ (view t) seen) in
        (
          new,
          refl,
          (run, found, wrote),
          ap (λ (db : Rows). db.rest.reports) e,
          ap (λ (db : Rows). db.rest.scores) e,
          ap (λ (db : Rows). db.rest.findings) e,
          ap (λ (db : Rows). db.runs) e,
        )

  report_unless-Reported :
      (run_id : ℕ) (run : AnalysisRun) (s : Session) (o : Option Report)
      → lookup run_id (view s).runs ≡ some run
      → report_of run_id (view s).rest.reports ≡ o
      → Post
          (λ report t. Reported run_id (view s) report (saved t))
          (λ db. db ≡ saved s)
          (report_unless render_markdown reports_root write_text is_truthy run_id run o s)
  unfolding report_unless get_repository get_score list_findings list_units write_report
  report_unless-Reported run_id run s (some old) found e = refl
  report_unless-Reported run_id run s none found e =
      let R = λ (report : Report) (t : Session). Reported run_id (view s) report (saved t) in
      let E = λ (db : Rows). db ≡ saved s in
      reading_rule R E (λ (db : Rows). repository_with_id run.repository_id db.rest.repositories) s
        _ refl
        (reading_rule R E (λ (db : Rows). score_of fl lower run_id db.rest.scores) s _ refl
          (reading_rule R E (λ (db : Rows). findings_of_run fl lower run_id db.rest.findings) s _
            refl
            (reading_rule R E (λ (db : Rows). units_of_run run_id db.rest.units) s _ refl
              (record_report-Reported run_id run s _ found refl e))))

  report_existing-Reported :
      (run_id : ℕ) (s : Session) (o : Option AnalysisRun)
      → lookup run_id (view s).runs ≡ o
      → Post
          (λ report t. Reported run_id (view s) report (saved t))
          (λ db. db ≡ saved s)
          (report_existing render_markdown reports_root write_text is_truthy run_id o s)
  unfolding report_existing get_report
  report_existing-Reported run_id s none found = refl
  report_existing-Reported run_id s (some run) found =
      reading_rule (λ report t. Reported run_id (view s) report (saved t)) (λ db. db ≡ saved s)
        (λ (db : Rows). report_of run_id db.rest.reports) s
        (report_unless render_markdown reports_root write_text is_truthy run_id run) refl
        (report_unless-Reported run_id run s _ found refl)

  pub generate_report-Reported :
      (run_id : ℕ) (s : Session)
      → Ends
          (λ report t. Reported run_id (view s) report (saved t))
          (λ e t. saved t ≡ saved s)
          (generate_report render_markdown reports_root write_text is_truthy run_id s)
  unfolding generate_report get_run
  generate_report-Reported run_id s =
      reading_rule (λ report t. Reported run_id (view s) report (saved t)) (λ db. db ≡ saved s)
        (λ (db : Rows). lookup run_id db.runs) s
        (report_existing render_markdown reports_root write_text is_truthy run_id) refl
        (report_existing-Reported run_id s _ refl)
