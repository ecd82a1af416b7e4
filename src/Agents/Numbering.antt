-- ===== src/Agents/Numbering.antt =====
-- packages/agents/devmanager_agents/service.py: the numbering of the findings and their rows.
use agentic_dev_ops.Prelude.{
  ℕ, suc, Option, none, some, List, [], ◌∷◌, ◌++◌, take, is_nil, if◌then◌else◌,
}
use agentic_dev_ops.Prelude.Int.{pos}
use agentic_dev_ops.Prelude.Text.{Text, codes}
use agentic_dev_ops.Float.{Float}
use agentic_dev_ops.Db.Tables.{UnitRow, FindingRow}
use agentic_dev_ops.Db.Daos.{Env}
use agentic_dev_ops.Agents.Enrich.{
  Value, int, float, text, texts, things, RawFinding, Builtins, Context, value_or, enrich_finding,
}
use agentic_dev_ops.Agents.Reviewer.{Message, LlmResponse, ToolUse, CallEnd}
use agentic_dev_ops.Worker.Runs.{AnalysisRun}

-- What a review uses of its surroundings, by change unit where it depends on that.
pub record Reviewers (fl : Float) : Type 0 where
  pub py : Builtins fl
  pub complete : UnitRow → List Message → Option LlmResponse
  pub execute : UnitRow → ToolUse → CallEnd
  pub parse_findings : Text → Option (List (RawFinding fl.F))
  pub prompt : UnitRow → Text
  pub today : Text

-- A finding with what `review_run` adds to it.
pub record Numbered (F : Type 0) : Type 0 where
  pub finding_id : Text
  pub run_id : Text
  pub commit_sha : Text
  pub dedupe_key : Text
  pub finding : RawFinding F

-- `{idx:03d}`
unfoldable pub padded : Text → Text
padded [] = codes "000"
padded (a ∷ []) = codes "00" ++ a ∷ []
padded (a ∷ b ∷ []) = codes "0" ++ a ∷ b ∷ []
padded (a ∷ b ∷ c ∷ s) = a ∷ b ∷ c ∷ s

-- `run.target_sha[:40] if run.target_sha else "0" * 7`
unfoldable pub commit_of : AnalysisRun → Text
commit_of run = if is_nil run.target_sha then codes "0000000" else take 40 run.target_sha

abbrev pub cons_some : {A : Type 0} → Option A → List A → List A
cons_some none xs = xs
cons_some (some x) xs = x ∷ xs

abbrev pub both : {A : Type 0} → Option A → Option (List A) → Option (List A)
both none o = none
both (some x) none = none
both (some x) (some xs) = some (x ∷ xs)

-- The columns of a value: a text, a natural number, a float, a list of texts.
abbrev pub as_text : {F : Type 0} → Option (Value F) → Option Text
as_text (some (text t)) = some t
as_text _ = none

abbrev pub as_number : {F : Type 0} → Option (Value F) → Option ℕ
as_number (some (int (pos n))) = some n
as_number _ = none

abbrev pub as_float : {F : Type 0} → Option (Value F) → Option F
as_float (some (float x)) = some x
as_float _ = none

abbrev pub as_texts : {F : Type 0} → Option (Value F) → Option (List Text)
as_texts (some (texts l)) = some l
as_texts _ = none

module _ ⦃env : Env⦄ (reviewers : Reviewers env.fl) where
  open env use {fl, lower, str_id}
  open reviewers use {py, today}

  -- `observation[:40]`, which a text and a list have; another value in its place raises an exception.
  unfoldable pub cut : Option (Value fl.F) → Option Text
  cut none = some []
  cut (some (text t)) = some (take 40 t)
  cut (some (texts l)) = some (py.show (texts (take 40 l)))
  cut (some (things l)) = some (py.show (things (take 40 l)))
  cut (some v) = none

  abbrev pub shown : Option (Value fl.F) → Text
  shown o = py.show (value_or o (text []))

  -- `_dedupe_key`
  unfoldable pub dedupe_from : RawFinding fl.F → Option Text → Option Text
  dedupe_from f none = none
  dedupe_from f (some observation) = some (
      take 16 (
        py.sha256 (
          shown f.repository
          ++ (codes "::"
              ++ (shown f.file
                  ++ (codes "::"
                      ++ (shown f.category
                          ++ (codes "::"
                              ++ (py.show (value_or f.start_line (int (pos 0)))
                                  ++ (codes "::" ++ observation))))))))))

  unfoldable pub dedupe_key : RawFinding fl.F → Option Text
  unfolding cut dedupe_from
  dedupe_key f = dedupe_from f (cut f.observation)

  -- `f"F-{today}-{idx:03d}"`
  unfoldable pub finding_id : ℕ → Text
  unfolding padded
  finding_id idx = codes "F-" ++ (today ++ (codes "-" ++ padded (py.decimal idx)))

  unfoldable pub numbered : ℕ → AnalysisRun → ℕ → RawFinding fl.F → Text → Numbered fl.F
  unfolding finding_id commit_of
  numbered run_id run idx f key = record {
    finding_id = finding_id idx;
    run_id = str_id run_id;
    commit_sha = commit_of run;
    dedupe_key = key;
    finding = record f {
      related_knowledge_refs = some (value_or f.related_knowledge_refs (texts []));
    };
  }

  abbrev pub with_key : (Text → Numbered fl.F) → Option Text → Option (Numbered fl.F)
  with_key make none = none
  with_key make (some key) = some (make key)

  -- `for idx, f in enumerate(raw_findings, start=1)`; no result stands for an exception.
  unfoldable pub number_from :
      ℕ → AnalysisRun → ℕ → List (RawFinding fl.F) → Option (List (Numbered fl.F))
  unfolding dedupe_key numbered
  number_from run_id run idx [] = some []
  number_from run_id run idx (f ∷ fs) =
      both (with_key (numbered run_id run idx f) (dedupe_key f))
        (number_from run_id run (suc idx) fs)

  -- `FindingDAO.create` on the columns, which the schema gives their types.
  abbrev pub finding_row : ℕ → Numbered fl.F → ℕ → FindingRow fl lower
  finding_row run_id n pk =
      let f = n.finding in
      record {
        finding_pk = pk;
        finding_id = n.finding_id;
        run_id = run_id;
        category = value_or (as_text f.category) [];
        severity = value_or (as_text f.severity) [];
        confidence = value_or (as_float f.confidence) (fl.lit 0 1);
        repository_full_name = value_or (as_text f.repository) [];
        commit_sha = n.commit_sha;
        file_path = value_or (as_text f.file) [];
        start_line = value_or (as_number f.start_line) 0;
        end_line = value_or (as_number f.end_line) 0;
        observation = value_or (as_text f.observation) [];
        impact = value_or (as_text f.impact) [];
        recommendation = value_or (as_text f.recommendation) [];
        verification = value_or (as_text f.verification) [];
        evidence_refs = value_or (as_texts f.evidence_refs) [];
        related_knowledge_refs = value_or (as_texts f.related_knowledge_refs) [];
        status = codes "open";
        dedupe_key = some n.dedupe_key;
      }

  abbrev pub context_of : UnitRow → Context
  context_of u = record {
    repository_full_name = u.unit.repository_full_name;
    file_path = u.unit.file_path;
  }

  -- `[_enrich_finding(f, cu) for f in findings]`, or nothing if that raises.
  unfoldable pub enrich_all : Context → List (RawFinding fl.F) → Option (List (RawFinding fl.F))
  unfolding enrich_finding
  enrich_all cx [] = some []
  enrich_all cx (f ∷ fs) = both (enrich_finding fl py cx f) (enrich_all cx fs)
