-- ===== src/Db/Daos.antt =====
-- packages/db/devmanager_db/daos: the accesses of the services, each on the session it is given.
-- The clock, the ids that `uuid4` draws and the text of an id are parameters.
pub mod Rules
use agentic_dev_ops.Prelude.{ℕ, Option, none, some, List, [], ◌∷◌, String, nat_eq}
use agentic_dev_ops.Prelude.Dict.{Dict, lookup}
use agentic_dev_ops.Prelude.Text.{Text, text_eq_instance}
use agentic_dev_ops.Float.{Float}
use agentic_dev_ops.Scoring.Engine.{ScoreResult}
use agentic_dev_ops.Db.Session.{Sessions, Action, ok, failed, pure, ◌>>=◌, ◌>>◌, Result}
use agentic_dev_ops.Db.Repositories.{Repository, repository_with_id}
use agentic_dev_ops.Db.Tables.{
  Store, Meta, AuditEvent, Score, Report, UnitRow, FindingRow, add_event, add_score, add_report,
  add_finding, add_units, score_of, report_of, findings_of_run, units_of_run, set_hunk,
}
use agentic_dev_ops.Worker.Runs.{AnalysisRun, update_status}

pub record Env : Type 1 where
  pub fl : Float
  pub lower : Text → Text
  pub sessions : Sessions (Store fl lower)
  pub now : ℕ
  pub uuid4 : Store fl lower → ℕ
  pub str_id : ℕ → Text

module _ ⦃env : Env⦄ where
  open env use {fl, lower, sessions, now, uuid4}
  open sessions use {Session, view, problem, write}

  abbrev pub Rows : Type 0
  Rows = Store fl lower

  abbrev pub Do : Type 0 → Type 0
  Do A = Action Session A

  abbrev pub commit : Do (Unit {0})
  commit = sessions.commit

  abbrev pub read_unless : {A : Type 0} → Option Text → A → Do A
  read_unless none a s = ok a s
  read_unless (some e) a s = failed e s

  -- A query: its value, unless the session refuses.
  unfoldable pub reading : {A : Type 0} → (Rows → A) → Do A
  reading f s = read_unless (problem s) (f (view s)) s

  -- `AnalysisRunDAO.get_by_id`
  unfoldable pub get_run : ℕ → Do (Option AnalysisRun)
  unfolding reading
  get_run run_id = reading (λ (db : Rows). lookup run_id db.runs)

  abbrev pub with_run_status : ℕ → String → Option Text → Rows → Rows
  with_run_status run_id status reason db = record db {
    runs = update_status now run_id status reason db.runs;
  }

  unfoldable pub update_found : ℕ → String → Option Text → Option AnalysisRun → Do (Unit {0})
  update_found run_id status reason none = pure tt
  update_found run_id status reason (some run) =
      write (λ (db : Rows). some (with_run_status run_id status reason db))

  -- `AnalysisRunDAO.update_status`
  unfoldable pub update_run : ℕ → String → Option Text → Do (Unit {0})
  unfolding get_run update_found
  update_run run_id status reason = get_run run_id >>= update_found run_id status reason

  -- `RepositoryDAO.get_by_id`
  unfoldable pub get_repository : ℕ → Do (Option Repository)
  unfolding reading
  get_repository id = reading (λ (db : Rows). repository_with_id id db.rest.repositories)

  -- `AuditEventDAO.append`, with the arguments that the services give.
  abbrev pub audit_event :
      String → ℕ → String → Option Text → List (String × Meta fl lower) → AuditEvent fl lower
  audit_event actor run_id event_type output_ref metadata = record {
    actor = actor;
    workflow_id = some run_id;
    event_type = event_type;
    event_timestamp = now;
    output_ref = output_ref;
    metadata = metadata;
  }

  unfoldable pub append : AuditEvent fl lower → Do (Unit {0})
  append event = write (λ (db : Rows). some (add_event fl lower event db))

  -- `ScoreDAO.get_by_run`
  unfoldable pub get_score : ℕ → Do (Option (Score fl lower))
  unfolding reading
  get_score run_id = reading (λ (db : Rows). score_of fl lower run_id db.rest.scores)

  -- `ScoreDAO.create`, for a complete score.
  abbrev pub new_score : ℕ → Text → ScoreResult fl lower → Rows → Score fl lower
  new_score run_id version result db = record {
    score_id = uuid4 db;
    run_id = run_id;
    scoring_version = version;
    status = "complete";
    result = result;
  }

  unfoldable pub create_score : ℕ → Text → ScoreResult fl lower → Do (Score fl lower)
  create_score run_id version result s =
      let row = new_score run_id version result (view s) in
      (write (add_score fl lower row) >> pure row) s

  -- `ReportDAO.get_by_run`
  unfoldable pub get_report : ℕ → Do (Option Report)
  unfolding reading
  get_report run_id = reading (λ (db : Rows). report_of run_id db.rest.reports)

  -- `ReportDAO.create`, for a daily report.
  abbrev pub new_report : ℕ → Text → Rows → Report
  new_report run_id reference db = record {
    report_id = uuid4 db;
    run_id = run_id;
    report_type = "daily_markdown";
    status = "generated";
    content_reference = reference;
    generated_at = now;
  }

  unfoldable pub create_report : ℕ → Text → Do Report
  create_report run_id reference s =
      let row = new_report run_id reference (view s) in
      (write (add_report fl lower row) >> pure row) s

  -- `FindingDAO.list_by_run`, without its filters, and `FindingDAO.create`
  unfoldable pub list_findings : ℕ → Do (List (FindingRow fl lower))
  unfolding reading
  list_findings run_id = reading (λ (db : Rows). findings_of_run fl lower run_id db.rest.findings)

  unfoldable pub create_finding : (ℕ → FindingRow fl lower) → Do (FindingRow fl lower)
  create_finding row_with s =
      let row = row_with (uuid4 (view s)) in (write (add_finding fl lower row) >> pure row) s

  -- `ChangeUnitDAO.list_by_run` and `ChangeUnitDAO.bulk_create`
  unfoldable pub list_units : ℕ → Do (List UnitRow)
  unfolding reading
  list_units run_id = reading (λ (db : Rows). units_of_run run_id db.rest.units)

  unfoldable pub bulk_create : List UnitRow → Do (Unit {0})
  bulk_create rows = write (λ (db : Rows). some (add_units fl lower rows db))

  -- `ChangeUnitDAO.bulk_update_hunks_and_owners`, for the references of the hunks.
  unfoldable pub bulk_update_hunks : Dict Text Text → Do (Unit {0})
  bulk_update_hunks [] = pure tt
  bulk_update_hunks ((id, ref) ∷ updates) =
      write (λ (db : Rows).
        some (record db { rest = record db.rest { units = set_hunk id ref db.rest.units } }))
      >> bulk_update_hunks updates

  -- `SettingDAO.get_value`
  unfoldable pub get_value : Text → Do (Option Text)
  unfolding reading
  get_value key = reading (λ (db : Rows). lookup key db.rest.settings)
