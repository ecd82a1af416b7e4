-- ===== src/Db/Tests.antt =====
-- A session in memory, which refuses what breaks a constraint, and then everything; and a database
-- with one run of one repository.
use agentic_dev_ops.Prelude.{◌≡◌, refl, Option, none, some, [], ◌∷◌, false, length, String}
use agentic_dev_ops.Prelude.Int.{pos}
use agentic_dev_ops.Prelude.Text.{Text, codes}
use agentic_dev_ops.Float.Fixed.{fixed}
use agentic_dev_ops.Git.Differ.{ChangeUnit}
use agentic_dev_ops.Worker.Runs.{AnalysisRun}
use agentic_dev_ops.Db.Repositories.{new_repository}
use agentic_dev_ops.Db.Tables.{Store, FindingRow}
use agentic_dev_ops.Db.Daos.{Env}
use agentic_dev_ops.Db.Session.{Sessions, IsReliable, Action, ok, failed, Ends}

pub record Memory (Store : Type 0) : Type 0 where
  pub view : Store
  pub saved : Store
  pub problem : Option Text

abbrev pub refusal : Text
refusal = codes "This Session's transaction has been rolled back"

module _ {Store : Type 0} where
  abbrev pub write_if : Option Text → Option Store → Action (Memory Store) (Unit {0})
  write_if (some e) o s = failed e s
  write_if none none s = failed refusal (record s { problem = some refusal })
  write_if none (some db) s = ok tt (record s { view = db })

  abbrev pub commit_if : Option Text → Action (Memory Store) (Unit {0})
  commit_if (some e) s = failed e s
  commit_if none s = ok tt (record s { saved = s.view })

  pub write_if_lem :
      (p : Option Text) (o : Option Store) (s : Memory Store)
      → s.problem ≡ p
      → Ends
          (λ _ t. (s.problem ≡ none) × (o ≡ some t.view) × (t.saved ≡ s.saved))
          (λ e t. (t.saved ≡ s.saved) × ((q : Text) × (t.problem ≡ some q)))
          (write_if p o s)
  write_if_lem (some e) o s h = (refl, (e, h))
  write_if_lem none none s h = (refl, (refusal, refl))
  write_if_lem none (some db) s h = (h, refl, refl)

  pub commit_if_lem :
      (p : Option Text) (s : Memory Store)
      → s.problem ≡ p
      → Ends
          (λ _ t. (s.problem ≡ none) × (t.view ≡ s.view) × (t.saved ≡ s.view))
          (λ e t. t.saved ≡ s.saved)
          (commit_if p s)
  commit_if_lem (some e) s h = refl
  commit_if_lem none s h = (h, refl, refl)

abbrev pub memory : (Store : Type 0) → Sessions Store
memory Store = record {
  Session = Memory Store;
  begin = λ db. record { view = db; saved = db; problem = none };
  view = λ s. s.view;
  saved = λ s. s.saved;
  problem = λ s. s.problem;
  write = λ f s. write_if s.problem (f s.view) s;
  commit = λ s. commit_if s.problem s;
  view-begin = λ db. refl;
  saved-begin = λ db. refl;
  write_lem = λ f s. write_if_lem s.problem (f s.view) s refl;
  commit_lem = λ s. commit_if_lem s.problem s refl;
}

abbrev pub memory_reliable : (Store : Type 0) → IsReliable (memory Store)
memory_reliable Store = record {
  writes = λ f s later fine e. (record s { view = later }, rw (fine, e) refl, fine, refl);
  commits = λ s fine. (record s { saved = s.view }, rw fine refl, fine);
}

abbrev pub same_text : Text → Text
same_text t = t

instance abbrev pub env : Env
env = record {
  fl = fixed;
  lower = same_text;
  sessions = memory (Store fixed same_text);
  now = 9;
  uuid4 = λ db. length db.rest.audit_events;
  str_id = λ n. n ∷ [];
}

abbrev pub run_with : String → AnalysisRun
run_with status = record {
  repository_id = 7;
  repository_full_name = codes "group/app";
  trigger_type = "push";
  target_branch = codes "main";
  baseline_sha = codes "a1";
  target_sha = codes "b2";
  policy_version = codes "v1";
  scoring_version = codes "v1";
  status = status;
  failure_reason = none;
  started_at = 1;
  completed_at = none;
  merge_base_sha = none;
  history_rewrite_detected = false;
}

abbrev pub unit : ChangeUnit
unit = record {
  change_unit_id = codes "u1";
  run_id = codes "3";
  repository_full_name = codes "group/app";
  file_path = codes "app.py";
  previous_file_path = none;
  change_type = "modified";
  language = "python";
  added_lines = pos 9;
  deleted_lines = pos 2;
  is_binary = false;
  is_generated = false;
  is_vendor = false;
  is_test_file = false;
  risk_tags = [];
  baseline_sha = codes "a1";
  target_sha = codes "b2";
}

abbrev pub finding : FindingRow fixed same_text
finding = record {
  finding_pk = 1;
  finding_id = codes "F-20260101-001";
  run_id = 3;
  category = codes "security";
  severity = codes "high";
  confidence = 9000;
  repository_full_name = codes "group/app";
  commit_sha = codes "b2";
  file_path = codes "app.py";
  start_line = 4;
  end_line = 5;
  observation = codes "leak";
  impact = codes "leak";
  recommendation = codes "close";
  verification = codes "test";
  evidence_refs = codes "diff" ∷ [];
  related_knowledge_refs = [];
  status = codes "open";
  dedupe_key = none;
}

-- A database with run 3, in this status, and one finding and one unit of it.
abbrev pub database : String → Store fixed same_text
database status = record {
  runs = (3, run_with status) ∷ [];
  rest = record {
    settings = [];
    repositories =
        new_repository 1 7 "gitlab" (codes "group/app") (some (codes "https://git/app")) ∷ [];
    units = record { run_id = 3; unit = unit; owner = none; hunks_ref = none } ∷ [];
    findings = finding ∷ [];
    history = [];
    scores = [];
    reports = [];
    audit_events = [];
  };
}
