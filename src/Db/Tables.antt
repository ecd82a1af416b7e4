-- ===== src/Db/Tables.antt =====
-- packages/db/devmanager_db/models.py: the rows that an analysis reads and writes, besides the runs.
use agentic_dev_ops.Prelude.{
  ℕ, Bool, Option, none, some, List, [], ◌∷◌, ◌++◌, keep, any, String, nat_beq, nat_eq, ◌==◌,
  if◌then◌else◌,
}
use agentic_dev_ops.Prelude.Dict.{Dict}
use agentic_dev_ops.Prelude.Text.{Text, text_eq_instance}
use agentic_dev_ops.Float.{Float}
use agentic_dev_ops.Git.Differ.{ChangeUnit}
use agentic_dev_ops.Scoring.Engine.{ScoreResult}
use agentic_dev_ops.Db.Repositories.{Repository}
use agentic_dev_ops.Worker.Pipeline.{Database}

-- A change unit, and what is added to it behind the diff.
pub record UnitRow : Type 0 where
  pub run_id : ℕ
  pub unit : ChangeUnit
  pub owner : Option Text
  pub hunks_ref : Option Text

pub record Report : Type 0 where
  pub report_id : ℕ
  pub run_id : ℕ
  pub report_type : String
  pub status : String
  pub content_reference : Text
  pub generated_at : ℕ

module _ (fl : Float) (lower : Text → Text) where
  open fl use {F}

  pub record FindingRow : Type 0 where
    pub finding_pk : ℕ
    pub finding_id : Text
    pub run_id : ℕ
    pub category : Text
    pub severity : Text
    pub confidence : F
    pub repository_full_name : Text
    pub commit_sha : Text
    pub file_path : Text
    pub start_line : ℕ
    pub end_line : ℕ
    pub observation : Text
    pub impact : Text
    pub recommendation : Text
    pub verification : Text
    pub evidence_refs : List Text
    pub related_knowledge_refs : List Text
    pub status : Text
    pub dedupe_key : Option Text

  pub record StatusChange : Type 0 where
    pub finding_pk : ℕ
    pub previous_status : Text
    pub new_status : Text
    pub reason : Text
    pub changed_by : Text
    pub changed_at : ℕ

  pub record Score : Type 0 where
    pub score_id : ℕ
    pub run_id : ℕ
    pub scoring_version : Text
    pub status : String
    pub result : ScoreResult fl lower

  -- A value of an audit event's metadata.
  pub data Meta : Type 0 where
    text : Text → Meta
    number : ℕ → Meta
    float : F → Meta
    flag : Bool → Meta
    missing : Meta

  pub record AuditEvent : Type 0 where
    pub actor : String
    pub workflow_id : Option ℕ
    pub event_type : String
    pub event_timestamp : ℕ
    pub output_ref : Option Text
    pub metadata : List (String × Meta)

  pub record Tables : Type 0 where
    pub settings : Dict Text Text
    pub repositories : List Repository
    pub units : List UnitRow
    pub findings : List FindingRow
    pub history : List StatusChange
    pub scores : List Score
    pub reports : List Report
    pub audit_events : List AuditEvent

  abbrev pub Store : Type 0
  Store = Database Tables

  -- `unique=True` of `finding_id`, and of the `run_id` of scores and reports.
  unfoldable pub add_finding : FindingRow → Store → Option Store
  add_finding row db =
      if any (λ f. f.finding_id == row.finding_id) db.rest.findings
      then none
      else some (record db { rest = record db.rest { findings = db.rest.findings ++ row ∷ [] } })

  unfoldable pub add_score : Score → Store → Option Store
  add_score row db =
      if any (λ s. nat_beq s.run_id row.run_id) db.rest.scores
      then none
      else some (record db { rest = record db.rest { scores = db.rest.scores ++ row ∷ [] } })

  unfoldable pub add_report : Report → Store → Option Store
  add_report row db =
      if any (λ r. nat_beq r.run_id row.run_id) db.rest.reports
      then none
      else some (record db { rest = record db.rest { reports = db.rest.reports ++ row ∷ [] } })

  abbrev pub add_event : AuditEvent → Store → Store
  add_event row db = record db {
    rest = record db.rest { audit_events = db.rest.audit_events ++ row ∷ [] };
  }

  abbrev pub add_units : List UnitRow → Store → Store
  add_units rows db = record db { rest = record db.rest { units = db.rest.units ++ rows } }

  -- `where(Score.run_id == run_id)`; the run of a score is unique.
  unfoldable pub score_of : ℕ → List Score → Option Score
  score_of run_id [] = none
  score_of run_id (s ∷ ss) = if nat_beq s.run_id run_id then some s else score_of run_id ss

  unfoldable pub findings_of_run : ℕ → List FindingRow → List FindingRow
  findings_of_run run_id rows = keep (λ f. nat_beq f.run_id run_id) rows

unfoldable pub report_of : ℕ → List Report → Option Report
report_of run_id [] = none
report_of run_id (r ∷ rs) = if nat_beq r.run_id run_id then some r else report_of run_id rs

unfoldable pub units_of_run : ℕ → List UnitRow → List UnitRow
units_of_run run_id rows = keep (λ u. nat_beq u.run_id run_id) rows

-- `values(hunks_ref=...)` for the rows with this id, as `bulk_update_hunks_and_owners` sets it.
unfoldable pub set_hunk : Text → Text → List UnitRow → List UnitRow
set_hunk id ref [] = []
set_hunk id ref (u ∷ us) =
    (if u.unit.change_unit_id == id then record u { hunks_ref = some ref } else u)
    ∷ set_hunk id ref us
