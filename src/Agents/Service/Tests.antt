-- ===== src/Agents/Service/Tests.antt =====
-- The review's theorems at one run.
use agentic_dev_ops.Prelude.{ℕ, ◌≡◌, refl, true, none, some, List, [], ◌∷◌, ◌++◌, if◌then◌else◌}
use agentic_dev_ops.Prelude.Dict.{lookup}
use agentic_dev_ops.Prelude.Int.{pos, ◌+ℤ◌}
use agentic_dev_ops.Prelude.Text.{Text, codes, text_eq, text_eq_instance}
use agentic_dev_ops.Float.Fixed.{fixed}
use agentic_dev_ops.Db.Session.{Ends}
use agentic_dev_ops.Db.Tables.{UnitRow, units_of_run}
use agentic_dev_ops.Db.Tests.{env, run_with, database}
use agentic_dev_ops.Agents.Filters.{OnDisk, no_file, file, is_small_file, is_worth_reviewing}
use agentic_dev_ops.Agents.Enrich.{
  int, float, text, RawFinding, Builtins, Context, refused, texts, truth, evidence_of, end_from,
  lines_from, lines_of, confidence_from, confidence_of, completed, enrich_finding,
}
use agentic_dev_ops.Agents.Enrich.Ranges.{InRange, enrich_finding-InRange}
use agentic_dev_ops.Agents.Numbering.{
  Reviewers, Numbered, finding_id, number_from, numbered, enrich_all, dedupe_key, cut, dedupe_from,
  padded,
}
use agentic_dev_ops.Agents.Reviewer.{output, review_all, loop, on_response, findings_of}
use agentic_dev_ops.Agents.Service.{review_run}
use agentic_dev_ops.Agents.Service.Bare.{review_run-bare}
use agentic_dev_ops.Agents.Service.Taken.{review_run-clash}
use agentic_dev_ops.Agents.Service.Reviewed.{review_run-Reviewing}
use agentic_dev_ops.Worker.Workflow.{status_of, Reviewing}

-- No value is a number.
abbrev py : Builtins fixed
py = record {
  to_int = λ v. refused;
  to_float = λ v. refused;
  show = λ v. codes "?";
  is_truthy = λ x. true;
  decimal = λ n. codes "1";
  sha256 = λ t. t;
}

abbrev raw : RawFinding ℕ
raw = record {
  repository = none;
  file = none;
  category = some (text (codes "security"));
  severity = some (text (codes "high"));
  confidence = some (text (codes "sure"));
  start_line = some (text (codes "four"));
  end_line = none;
  observation = some (text (codes "leak"));
  impact = none;
  recommendation = none;
  verification = none;
  evidence_refs = none;
  related_knowledge_refs = none;
}

-- The model answers at once, with one finding.
abbrev reviewers : Reviewers fixed
reviewers = record {
  py = py;
  complete = λ u messages. some (record { content = []; end_turn = true; tool_uses = [] });
  execute = λ u tu. output [];
  parse_findings = λ t. some (raw ∷ []);
  prompt = λ u. codes "review";
  today = codes "20260101";
}

abbrev valid : Numbered ℕ → List Text
valid n = []

abbrev small : UnitRow → Text → OnDisk
small u path = file 100

review_run-Reviewing_example :
    Ends
      (λ rows t.
        (status_of 3 t.saved.runs ≡ some "agent_review_completed")
        × (t.saved.rest.findings ≡ (database "git_ingested").rest.findings ++ rows))
      (λ e t.
        Reviewing (status_of 3 t.saved.runs)
        × (t.saved.rest.findings ≡ (database "git_ingested").rest.findings))
      (review_run reviewers small valid 3 (env.sessions.begin (database "git_ingested")))
review_run-Reviewing_example =
    review_run-Reviewing reviewers small valid 3 (env.sessions.begin (database "git_ingested")) refl
      (unfold status_of lookup in refl)

-- A mirror has the file HEAD, and no file of the program.
abbrev mirror : UnitRow → Text → OnDisk
mirror u path = if text_eq path (codes "HEAD") then file 23 else no_file

review_run-bare_example :
    Ends
      (λ rows t. (rows ≡ []) × (t.saved.rest.findings ≡ (database "git_ingested").rest.findings))
      (λ e t. t.saved.rest.findings ≡ (database "git_ingested").rest.findings)
      (review_run reviewers mirror valid 3 (env.sessions.begin (database "git_ingested")))
review_run-bare_example =
    review_run-bare reviewers mirror valid 3 (env.sessions.begin (database "git_ingested")) refl
      (unfold units_of_run text_eq in (refl, tt))

abbrev context : Context
context = record { repository_full_name = codes "group/app"; file_path = codes "app.py" }

abbrev completed_raw : RawFinding ℕ
completed_raw = record raw {
  repository = some (text (codes "group/app"));
  file = some (text (codes "app.py"));
  evidence_refs = some (texts (codes "diff:?:?-?" ∷ []));
  start_line = some (int (pos 1));
  end_line = some (int (pos 1));
  confidence = some (float 7000);
  impact = some (text (codes "(see diff: ?)"));
  recommendation = some (text (codes "(see diff: ?)"));
  verification = some (text (codes "(see diff: ?)"));
}

enrich_finding-InRange_example : InRange fixed py refl completed_raw
enrich_finding-InRange_example = enrich_finding-InRange fixed py refl context raw completed_raw (
    unfold enrich_finding lines_of lines_from end_from confidence_of confidence_from completed
      evidence_of truth in
    refl)

-- The finding as it is completed and numbered.
abbrev first : Numbered ℕ
first = numbered reviewers 3 (run_with "git_ingested") 1 completed_raw (codes "?::?::?::?::leak")

review_run-clash_example :
    Ends
      (λ _ _. ⊥)
      (λ e t. t.saved.rest.findings ≡ (database "git_ingested").rest.findings)
      (review_run reviewers small valid 3 (env.sessions.begin (database "git_ingested")))
review_run-clash_example =
    review_run-clash reviewers small valid 3 (run_with "git_ingested")
      (env.sessions.begin (database "git_ingested")) refl (unfold lookup in refl)
      (
        (
          first,
          [],
          unfold ◌+ℤ◌ numbered units_of_run is_worth_reviewing is_small_file number_from dedupe_key
                cut dedupe_from enrich_all enrich_finding lines_of lines_from end_from confidence_of
                confidence_from completed evidence_of truth review_all loop on_response
                findings_of in
              refl,
          refl,
        ),
        unfold finding_id padded text_eq in refl,
      )
