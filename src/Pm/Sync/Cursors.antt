-- ===== src/Pm/Sync/Cursors.antt =====
-- What a failed sync leaves of the cursors.
use agentic_dev_ops.Prelude.{ℕ, ◌≡◌, refl, ◌∙◌, Option, none, some, List, [], ◌∷◌, String}
use agentic_dev_ops.Prelude.Text.{Text, codes}
use agentic_dev_ops.Pm.Tables.{
  Tables, PmSyncCursor, Issue, upsert_iteration_row, upsert_issue_row, upsert_assignment_row,
  issue_by_pm_id,
}
use agentic_dev_ops.Pm.Tables.Keys.{
  store_iteration-cursors, store_issue-cursors, store_assignment-cursors,
}
use agentic_dev_ops.Pm.Mapper.{IterationDto, IssueDto, IssueAssignmentDto, Payloads}
use agentic_dev_ops.Pm.Upsert.{
  Upserted, failed, upserted, write_iteration, write_issue, write_for_issue, write_assignment,
  upsert_iteration, upsert_issue, upsert_assignment, Batch, add_upserted, upsert_batch, start_batch,
  upsert_iterations_batch, upsert_issues_batch, upsert_assignments_batch,
}
use agentic_dev_ops.Pm.Sync.{
  Fetched, fetched, fetch_failed, Run, start_run, full_step, on_success, unless_failed, users_step,
  reset_cursors, run_full_sync, cursor_or_default, advance, incremental_step, commit_run,
  run_incremental_sync,
}

module _ (F : Type 0) (pl : Payloads F) (now : ℕ) where
  -- What an upsert leaves has the cursors that it found.
  abbrev Keeps : List (PmSyncCursor F) → Upserted F pl now → Type 0
  Keeps cs failed = Unit
  Keeps cs (upserted n missing t) = t.cursors ≡ cs

  write_iteration-Keeps :
      (missing : List String) (t : Tables F) (o : Option (IterationDto F))
      → Keeps t.cursors (write_iteration F pl now missing t o)
  unfolding write_iteration upsert_iteration_row
  write_iteration-Keeps missing t none = tt
  write_iteration-Keeps missing t (some dto) = store_iteration-cursors F now _ t _

  write_issue-Keeps :
      (missing : List String) (t : Tables F) (o : Option (IssueDto F))
      → Keeps t.cursors (write_issue F pl now missing t o)
  unfolding write_issue upsert_issue_row
  write_issue-Keeps missing t none = tt
  write_issue-Keeps missing t (some dto) = store_issue-cursors F now _ t _

  write_for_issue-Keeps :
      (missing : List String) (t : Tables F) (dto : IssueAssignmentDto F) (o : Option (Issue F))
      → Keeps t.cursors (write_for_issue F pl now missing t dto o)
  unfolding write_for_issue upsert_assignment_row
  write_for_issue-Keeps missing t dto none = refl
  write_for_issue-Keeps missing t dto (some row) = store_assignment-cursors F now _ t _

  write_assignment-Keeps :
      (missing : List String) (t : Tables F) (o : Option (IssueAssignmentDto F))
      → Keeps t.cursors (write_assignment F pl now missing t o)
  unfolding write_assignment
  write_assignment-Keeps missing t none = tt
  write_assignment-Keeps missing t (some dto) =
      write_for_issue-Keeps missing t dto (issue_by_pm_id F dto.issue_id t)

  -- A way to upsert that touches no cursor.
  abbrev Steady : (pl.Payload → Tables F → Upserted F pl now) → Type 0
  Steady upsert = (p : pl.Payload) (t : Tables F) → Keeps t.cursors (upsert p t)

  upsert_batch-cursors :
      (upsert : pl.Payload → Tables F → Upserted F pl now)
      → Steady upsert
      → (ps : List pl.Payload) (b : Batch F pl now)
      → (upsert_batch F pl now upsert ps b).tables.cursors ≡ b.tables.cursors
  unfolding upsert_batch
  upsert_batch-cursors upsert steady [] b = refl
  upsert_batch-cursors upsert steady (p ∷ ps) b =
      upsert_batch-cursors upsert steady ps (add_upserted F pl now b (upsert p b.tables))
      ∙ one (upsert p b.tables) (steady p b.tables)
    where
      one :
          (u : Upserted F pl now)
          → Keeps b.tables.cursors u
          → (add_upserted F pl now b u).tables.cursors ≡ b.tables.cursors
      one failed k = unfold add_upserted in refl
      one (upserted n missing t) k = unfold add_upserted in k

  abbrev SteadyBatch : (List pl.Payload → Tables F → Batch F pl now) → Type 0
  SteadyBatch batch =
      (ps : List pl.Payload) (t : Tables F) → (batch ps t).tables.cursors ≡ t.cursors

  iterations-steady : SteadyBatch (upsert_iterations_batch F pl now)
  unfolding upsert_iterations_batch
  iterations-steady ps t =
      upsert_batch-cursors (upsert_iteration F pl now)
        (λ p u. unfold upsert_iteration in write_iteration-Keeps _ u (pl.iteration_dto p)) ps
        (start_batch F pl now t)

  issues-steady : SteadyBatch (upsert_issues_batch F pl now)
  unfolding upsert_issues_batch
  issues-steady ps t =
      upsert_batch-cursors (upsert_issue F pl now)
        (λ p u. unfold upsert_issue in write_issue-Keeps _ u (pl.issue_dto p)) ps
        (start_batch F pl now t)

  assignments-steady : SteadyBatch (upsert_assignments_batch F pl now)
  unfolding upsert_assignments_batch
  assignments-steady ps t =
      upsert_batch-cursors (upsert_assignment F pl now)
        (λ p u. unfold upsert_assignment in write_assignment-Keeps _ u (pl.assignment_dto p)) ps
        (start_batch F pl now t)

  abbrev cursors_of : Run F pl now → List (PmSyncCursor F)
  cursors_of run = run.tables.cursors

  full_step-cursors :
      (name : String) (batch : List pl.Payload → Tables F → Batch F pl now)
      (answer : Fetched F pl now) (run : Run F pl now)
      → SteadyBatch batch
      → cursors_of (full_step F pl now name batch answer run) ≡ cursors_of run
  unfolding full_step
  full_step-cursors name batch (fetch_failed e) run h = refl
  full_step-cursors name batch (fetched items) run h = h items run.tables

  users_step-cursors :
      (answer : Fetched F pl now) (run : Run F pl now)
      → cursors_of (users_step F pl now answer run) ≡ cursors_of run
  unfolding users_step
  users_step-cursors (fetch_failed e) run = refl
  users_step-cursors (fetched users) run = refl

  on_success-cursors :
      (o : Option Text) (f : Run F pl now → Run F pl now) (run : Run F pl now)
      → cursors_of (f run) ≡ cursors_of run
      → cursors_of (on_success F pl now o f run) ≡ cursors_of run
  on_success-cursors none f run h = h
  on_success-cursors (some e) f run h = refl

  -- The last step of a run changes the cursors only if nothing failed.
  on_success-failed :
      (o : Option Text) (f : Run F pl now → Run F pl now) (run : Run F pl now) (e : Text)
      → run.failure_reason ≡ o
      → (f run).failure_reason ≡ run.failure_reason
      → (on_success F pl now o f run).failure_reason ≡ some e
      → cursors_of (on_success F pl now o f run) ≡ cursors_of run
  on_success-failed none f run e same keeps h = absurd (cc)
  on_success-failed (some x) f run e same keeps h = refl

  -- A full sync that fails leaves the cursors as they were.
  pub run_full_sync-failed :
      (answer : Text → Fetched F pl now) (t : Tables F) (e : Text)
      → (run_full_sync F pl now answer t).failure_reason ≡ some e
      → (run_full_sync F pl now answer t).tables.cursors ≡ t.cursors
  unfolding run_full_sync
  run_full_sync-failed answer t e h =
      let first =
        full_step F pl now "iterations" (upsert_iterations_batch F pl now)
          (answer (codes "/iterations")) (start_run F pl now t) in
      let issues =
        full_step F pl now "issues" (upsert_issues_batch F pl now) (answer (codes "/issues")) in
      let second = unless_failed F pl now issues first in
      let assignments =
        full_step F pl now "assignments" (upsert_assignments_batch F pl now)
          (answer (codes "/issue_assignments")) in
      let third = unless_failed F pl now assignments second in
      let users = users_step F pl now (answer (codes "/users")) in
      let fourth = unless_failed F pl now users third in
      on_success-failed fourth.failure_reason (reset_cursors F pl now) fourth e refl
        (unfold reset_cursors in refl) h
      ∙ on_success-cursors third.failure_reason users third (users_step-cursors _ third)
      ∙ on_success-cursors second.failure_reason assignments second
          (full_step-cursors _ _ _ second assignments-steady)
      ∙ on_success-cursors first.failure_reason issues first
          (full_step-cursors _ _ _ first issues-steady)
      ∙ full_step-cursors "iterations" _ (answer (codes "/iterations")) (start_run F pl now t)
          iterations-steady

  module _ (max_updated_at : List pl.Payload → Text) where
    incremental_step-cursors :
        (name : String) (key : Text) (batch : List pl.Payload → Tables F → Batch F pl now)
        (answer : Fetched F pl now) (run : Run F pl now)
        → SteadyBatch batch
        → cursors_of (incremental_step F pl now max_updated_at name key batch answer run)
          ≡ cursors_of run
    unfolding incremental_step advance
    incremental_step-cursors name key batch (fetch_failed e) run h = refl
    incremental_step-cursors name key batch (fetched []) run h = h [] run.tables
    incremental_step-cursors name key batch (fetched (p ∷ ps)) run h = h (p ∷ ps) run.tables

    -- An incremental sync that fails leaves the cursors as they were, whatever it wrote before.
    pub run_incremental_sync-failed :
        (answer : Text → Option Text → Fetched F pl now) (t : Tables F) (e : Text)
        → (run_incremental_sync F pl now max_updated_at answer t).failure_reason ≡ some e
        → (run_incremental_sync F pl now max_updated_at answer t).tables.cursors ≡ t.cursors
    unfolding run_incremental_sync
    run_incremental_sync-failed answer t e h =
        let cursor = cursor_or_default F pl now max_updated_at in
        let step = incremental_step F pl now max_updated_at in
        let reply = answer (codes "/iterations") (cursor (codes "pm:iterations") t) in
        let first =
          step "iterations" (codes "pm:iterations") (upsert_iterations_batch F pl now) reply
            (start_run F pl now t) in
        let issues = λ (r : Run F pl now).
          step "issues" (codes "pm:issues") (upsert_issues_batch F pl now)
            (answer (codes "/issues") (cursor (codes "pm:issues") r.tables)) r in
        let second = unless_failed F pl now issues first in
        let assignments = λ (r : Run F pl now).
          step "assignments" (codes "pm:assignments") (upsert_assignments_batch F pl now)
            (answer (codes "/issue_assignments") (cursor (codes "pm:assignments") r.tables)) r in
        let third = unless_failed F pl now assignments second in
        on_success-failed third.failure_reason (commit_run F pl now max_updated_at) third e refl
          (unfold commit_run in refl) h
        ∙ on_success-cursors second.failure_reason assignments second
            (incremental_step-cursors _ _ _ _ second assignments-steady)
        ∙ on_success-cursors first.failure_reason issues first
            (incremental_step-cursors _ _ _ _ first issues-steady)
        ∙ incremental_step-cursors "iterations" _ _ reply (start_run F pl now t) iterations-steady
