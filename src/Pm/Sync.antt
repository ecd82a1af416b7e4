-- ===== src/Pm/Sync.antt =====
-- services/pm-integration/devmanager_pm_integration/: sync/full.py and sync/incremental.py. The
-- platform's answers and the reading of timestamps are parameters. The audit event is the
-- returned record; durations and logs are not kept.
pub mod Cursors
use agentic_dev_ops.Prelude.{
  ℕ, zero, suc, ◌+◌, ◌≡◌, refl, Bool, true, false, not, Option, none, some, List, [], ◌∷◌, ◌++◌,
  String, keep, map, length, is_nil, if◌then◌else◌,
}
use agentic_dev_ops.Prelude.Dict.{Dict, values}
use agentic_dev_ops.Prelude.Text.{Text, codes, text_eq_instance}
use agentic_dev_ops.Pm.Tables.{
  IterationFields, Issue, IssueFields, AssignmentFields, Tables, PmSyncCursor, iteration_by_pm_id,
  issue_by_pm_id, active_identity, get_cursor, upsert_iteration_row, upsert_issue_row,
  upsert_assignment_row, upsert_cursor,
}
use agentic_dev_ops.Pm.Mapper.{Payloads}
use agentic_dev_ops.Pm.Upsert.{
  Batch, start_batch, upsert_iterations_batch, upsert_issues_batch, upsert_assignments_batch,
}

module _ (F : Type 0) (pl : Payloads F) (now : ℕ) where
  -- What `get_paginated` gives for a path and its parameters: a failure with its text, or items.
  pub data Fetched : Type 0 where
    fetch_failed : Text → Fetched
    fetched : List pl.Payload → Fetched

  -- What a run has done so far.
  pub record Run : Type 0 where
    pub stats : Dict String ℕ
    pub missing_all : List String
    pub failure_reason : Option Text
    pub new_cursors : Dict Text Text
    pub tables : Tables F

  abbrev pub start_run : Tables F → Run
  start_run t = record {
    stats = [];
    missing_all = [];
    failure_reason = none;
    new_cursors = [];
    tables = t;
  }

  abbrev pub add_batch : String → Batch F pl now → Run → Run
  add_batch name b run = record run {
    stats = run.stats ++ (name, b.succeeded) ∷ [];
    missing_all = run.missing_all ++ b.missing_all;
    tables = b.tables;
  }

  -- One resource of a full sync. After a failure nothing more is done.
  unfoldable pub full_step :
      String → (List pl.Payload → Tables F → Batch F pl now) → Fetched → Run → Run
  full_step name upsert (fetch_failed e) run = record run { failure_reason = some e }
  full_step name upsert (fetched items) run = add_batch name (upsert items run.tables) run

  abbrev pub on_success : Option Text → (Run → Run) → Run → Run
  on_success none f run = f run
  on_success (some e) f run = run

  -- What follows in the `try` is not done after a failure.
  abbrev pub unless_failed : (Run → Run) → Run → Run
  unless_failed f run = on_success run.failure_reason f run

  unfoldable pub users_step : Fetched → Run → Run
  users_step (fetch_failed e) run = record run { failure_reason = some e }
  users_step (fetched users) run = record run { stats = run.stats ++ ("users", length users) ∷ [] }

  unfoldable pub reset_cursors : Run → Run
  reset_cursors run = record run {
    tables = upsert_cursor F now (codes "pm:users") none (
        upsert_cursor F now (codes "pm:assignments") none (
          upsert_cursor F now (codes "pm:issues") none
            (upsert_cursor F now (codes "pm:iterations") none run.tables)));
  }

  -- `answer` gives what the platform answers for each of the four paths.
  unfoldable pub run_full_sync : (Text → Fetched) → Tables F → Run
  unfolding full_step users_step reset_cursors
  run_full_sync answer t =
      let run =
        full_step "iterations" (upsert_iterations_batch F pl now) (answer (codes "/iterations"))
          (start_run t) in
      let run =
        unless_failed (full_step "issues" (upsert_issues_batch F pl now) (answer (codes "/issues")))
          run in
      let run =
        unless_failed
          (full_step "assignments" (upsert_assignments_batch F pl now)
            (answer (codes "/issue_assignments")))
          run in
      unless_failed reset_cursors (unless_failed (users_step (answer (codes "/users"))) run)

  -- `max_updated_at` is the newest time among the items, as a text.
  module _ (max_updated_at : List pl.Payload → Text) where
    -- The cursor that is stored for a resource; an empty one counts as none.
    unfoldable pub cursor_or_default : Text → Tables F → Option Text
    cursor_or_default key t = elim (get_cursor F key t) [
      | none ↦ none
      | some row ↦ elim row.cursor_value [
        | none ↦ none
        | some c ↦ if is_nil c then none else some c
      ]
    ]

    unfoldable pub advance : Text → List pl.Payload → Run → Run
    advance key [] run = run
    advance key (p ∷ ps) run = record run {
      new_cursors = run.new_cursors ++ (key, max_updated_at (p ∷ ps)) ∷ [];
    }

    unfoldable pub incremental_step :
        String → Text → (List pl.Payload → Tables F → Batch F pl now) → Fetched → Run → Run
    unfolding advance
    incremental_step name key upsert (fetch_failed e) run = record run { failure_reason = some e }
    incremental_step name key upsert (fetched items) run =
        advance key items (add_batch name (upsert items run.tables) run)

    unfoldable pub commit_cursors : Dict Text Text → Tables F → Tables F
    commit_cursors [] t = t
    commit_cursors ((key, value) ∷ d) t = commit_cursors d (upsert_cursor F now key (some value) t)

    unfoldable pub commit_run : Run → Run
    unfolding commit_cursors
    commit_run run = record run { tables = commit_cursors run.new_cursors run.tables }

    -- `answer` gives what the platform answers for a path and `updated_after`.
    unfoldable pub run_incremental_sync : (Text → Option Text → Fetched) → Tables F → Run
    unfolding incremental_step cursor_or_default commit_run
    run_incremental_sync answer t =
        let run =
          incremental_step "iterations" (codes "pm:iterations") (upsert_iterations_batch F pl now)
            (answer (codes "/iterations") (cursor_or_default (codes "pm:iterations") t))
            (start_run t) in
        let run =
          unless_failed
            (λ r.
              incremental_step "issues" (codes "pm:issues") (upsert_issues_batch F pl now)
                (answer (codes "/issues") (cursor_or_default (codes "pm:issues") r.tables)) r)
            run in
        let run =
          unless_failed
            (λ r.
              incremental_step "assignments" (codes "pm:assignments")
                (upsert_assignments_batch F pl now)
                (answer (codes "/issue_assignments")
                  (cursor_or_default (codes "pm:assignments") r.tables))
                r)
            run in
        unless_failed commit_run run
