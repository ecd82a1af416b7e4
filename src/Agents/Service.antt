-- ===== src/Agents/Service.antt =====
-- packages/agents/devmanager_agents/service.py, `review_run`. The model, the skills, the schema check,
-- the date and Python's builtins are parameters. The tasks of `gather` are run one after the other.
pub mod Kept
pub mod Tests
pub mod Bare
pub mod Clash
pub mod Taken
pub mod Reviewed
use agentic_dev_ops.Prelude.{
  ℕ, suc, Bool, true, false, not, ◌||◌, Option, none, some, List, [], ◌∷◌, ◌++◌, length, take, keep,
  map, String, is_nil, ltb, if◌then◌else◌,
}
use agentic_dev_ops.Prelude.Int.{pos}
use agentic_dev_ops.Prelude.Text.{Text, codes}
use agentic_dev_ops.Float.{Float}
use agentic_dev_ops.Db.Session.{◌>>=◌, ◌>>◌, pure, raise, best_effort, attempt}
use agentic_dev_ops.Db.Tables.{UnitRow, FindingRow, AuditEvent, number}
use agentic_dev_ops.Db.Tables
use agentic_dev_ops.Db.Daos.{
  Env, Do, get_run, list_units, create_finding, update_run, append, commit, audit_event,
}
use agentic_dev_ops.Agents.Filters.{OnDisk, is_worth_reviewing}
use agentic_dev_ops.Agents.Enrich.{
  Value, null, int, float, text, texts, RawFinding, Builtins, Context, value_or, enrich_finding,
}
use agentic_dev_ops.Agents.Reviewer.{Message, LlmResponse, ToolUse, CallEnd, LoopRun, review_all}
use agentic_dev_ops.Agents.Numbering.{
  Reviewers, Numbered, cons_some, number_from, finding_row, context_of, enrich_all,
}
use agentic_dev_ops.Worker.Runs.{AnalysisRun}

module _ ⦃env : Env⦄ (reviewers : Reviewers env.fl) (at : UnitRow → Text → OnDisk)
    (validate : Numbered env.fl.F → List Text) where
  open env use {fl, lower, str_id}

  -- An invalid finding is skipped, and one that cannot be stored is left out.
  unfoldable pub persist_one : ℕ → Numbered fl.F → Do (Option (FindingRow fl lower))
  unfolding create_finding
  persist_one run_id n =
      if is_nil (validate n)
      then attempt (create_finding (finding_row reviewers run_id n))
      else pure none

  unfoldable pub persist : ℕ → List (Numbered fl.F) → Do (List (FindingRow fl lower))
  unfolding persist_one
  persist run_id [] = pure []
  persist run_id (n ∷ ns) = do
    row ← persist_one run_id n
    rows ← persist run_id ns
    pure (cons_some row rows)

  abbrev pub tool_event : ℕ → ToolUse → AuditEvent fl lower
  tool_event run_id tu =
      audit_event "agent" run_id "agent.tool_call" none
        (("tool", Tables.text tu.name) ∷ ("input", Tables.text tu.input) ∷ [])

  unfoldable pub append_all : List (AuditEvent fl lower) → Do (Unit {0})
  unfolding append
  append_all [] = pure tt
  append_all (e ∷ es) = best_effort (append e) >> append_all es

  abbrev pub completed_event :
      String → List (String × Tables.Meta fl lower) → ℕ → AuditEvent fl lower
  completed_event actor metadata run_id =
      audit_event actor run_id "agent.review_completed" none metadata

  -- The loop of one change unit, with at most ten calls of the model, and the calls of skills that
  -- it writes to the audit log.
  abbrev pub loop_of : UnitRow → List (RawFinding fl.F) × LoopRun (RawFinding fl.F)
  loop_of u =
      review_all (reviewers.complete u) (reviewers.execute u) (λ tu. true) reviewers.parse_findings
        10 (reviewers.prompt u)

  abbrev pub agent_event : ℕ → UnitRow → List (RawFinding fl.F) → AuditEvent fl lower
  agent_event run_id u findings =
      completed_event "agent"
        (("file", Tables.text u.unit.file_path) ∷ ("findings", number (length findings)) ∷ [])
        run_id

  -- Behind the loop.
  unfoldable pub finish_agent : ℕ → UnitRow → List (RawFinding fl.F) → Do (List (RawFinding fl.F))
  unfolding append enrich_all
  finish_agent run_id u findings = do
    best_effort (append (agent_event run_id u findings))
    pure (value_or (enrich_all reviewers (context_of reviewers u) findings) [])

  -- `_run_agent`
  unfoldable pub run_agent : ℕ → UnitRow → Do (List (RawFinding fl.F))
  unfolding append_all finish_agent review_all
  run_agent run_id u =
      let (findings, run) = loop_of u in
      append_all (map (tool_event run_id) run.audit) >> finish_agent run_id u findings

  unfoldable pub run_agents : ℕ → List UnitRow → Do (List (RawFinding fl.F))
  unfolding run_agent
  run_agents run_id [] = pure []
  run_agents run_id (u ∷ us) = do
    batch ← run_agent run_id u
    batches ← run_agents run_id us
    pure (batch ++ batches)

  -- Behind the numbering.
  unfoldable pub store_findings :
      ℕ → Option (List (Numbered fl.F)) → Do (List (FindingRow fl lower))
  unfolding persist update_run append
  store_findings run_id none = raise (codes "TypeError")
  store_findings run_id (some ns) = do
    rows ← persist run_id ns
    update_run run_id "agent_review_completed" none
    best_effort (
        append
          (completed_event "system" (("findings_persisted", number (length rows)) ∷ []) run_id))
    commit
    pure rows

  unfoldable pub review_units : ℕ → AnalysisRun → List UnitRow → Do (List (FindingRow fl lower))
  unfolding update_run run_agents number_from store_findings
  review_units run_id run [] = do update_run run_id "agent_review_completed" none; commit; pure []
  review_units run_id run (u ∷ us) = do
    raw ← run_agents run_id (u ∷ us)
    store_findings run_id (number_from reviewers run_id run 1 raw)

  abbrev pub reviewable : List UnitRow → List UnitRow
  reviewable units = keep (λ u. is_worth_reviewing (at u) u.unit) units

  abbrev pub started_event : ℕ → List UnitRow → AuditEvent fl lower
  started_event run_id units = audit_event "system" run_id "agent.review_started" none (
      ("reviewable_units", number (length units)) ∷ ("mode", Tables.text (codes "agent_loop")) ∷ [])

  unfoldable pub start_review : ℕ → AnalysisRun → List UnitRow → Do (List (FindingRow fl lower))
  unfolding is_worth_reviewing update_run append review_units
  start_review run_id run units = do
    update_run run_id "agent_review_started" none
    best_effort (append (started_event run_id (reviewable units)))
    commit
    review_units run_id run (reviewable units)

  unfoldable pub review_existing : ℕ → Option AnalysisRun → Do (List (FindingRow fl lower))
  unfolding list_units start_review
  review_existing run_id none =
      raise (codes "AnalysisRun " ++ (str_id run_id ++ codes " not found"))
  review_existing run_id (some run) = list_units run_id >>= start_review run_id run

  -- `review_run` with a `repo_dir`, as the pipeline calls it.
  unfoldable pub review_run : ℕ → Do (List (FindingRow fl lower))
  unfolding get_run review_existing
  review_run run_id = get_run run_id >>= review_existing run_id
