-- ===== src/Pm/Upsert.antt =====
-- services/pm-integration/devmanager_pm_integration/sync/upsert.py: payloads into rows, one by one
-- and in batches.
use agentic_dev_ops.Prelude.{ℕ, ◌+◌, not, Option, none, some, List, [], ◌∷◌, ◌++◌, String, keep}
use agentic_dev_ops.Prelude.Text.{Text, text_eq_instance}
use agentic_dev_ops.Pm.Tables.{
  Issue, Tables, iteration_by_pm_id, issue_by_pm_id, active_identity, upsert_iteration_row,
  upsert_issue_row, upsert_assignment_row,
}
use agentic_dev_ops.Pm.Mapper.{
  Payloads, IterationDto, IssueDto, IssueAssignmentDto, iteration_to_orm_fields,
  issue_to_orm_fields, issue_assignment_to_orm_fields,
}

module _ (F : Type 0) (pl : Payloads F) (now : ℕ) where
  open pl use {Payload, has_field, iteration_dto, issue_dto, assignment_dto}

  unfoldable pub detect_missing : List String → Payload → List String
  detect_missing required p = keep (λ f. not (has_field f p)) required

  -- What one upsert gives: an exception, or how many rows it wrote and the missing fields.
  pub data Upserted : Type 0 where
    failed : Upserted
    upserted : (succeeded : ℕ) → (missing_fields : List String) → Tables F → Upserted

  unfoldable pub write_iteration : List String → Tables F → Option (IterationDto F) → Upserted
  unfolding iteration_to_orm_fields
  write_iteration missing t none = failed
  write_iteration missing t (some dto) =
      upserted 1 missing (upsert_iteration_row F now (iteration_to_orm_fields F dto) t)

  unfoldable pub upsert_iteration : Payload → Tables F → Upserted
  unfolding detect_missing write_iteration
  upsert_iteration p t =
      write_iteration (detect_missing ("id" ∷ "name" ∷ "start_date" ∷ "end_date" ∷ "status" ∷ []) p)
        t (iteration_dto p)

  -- The row of the iteration with the platform's id, if it is there.
  unfoldable pub resolve_iteration : Option Text → Tables F → Option ℕ
  resolve_iteration none t = none
  resolve_iteration (some pm_id) t = elim (iteration_by_pm_id F pm_id t) [
    | none ↦ none
    | some row ↦ some row.iteration_id
  ]

  unfoldable pub write_issue : List String → Tables F → Option (IssueDto F) → Upserted
  unfolding issue_to_orm_fields resolve_iteration
  write_issue missing t none = failed
  write_issue missing t (some dto) = upserted 1 missing (
      upsert_issue_row F now
        (record (issue_to_orm_fields F dto) { iteration_id = resolve_iteration dto.iteration_id t })
        t)

  unfoldable pub upsert_issue : Payload → Tables F → Upserted
  unfolding detect_missing write_issue
  upsert_issue p t =
      write_issue (detect_missing ("id" ∷ "key" ∷ "title" ∷ "type" ∷ "priority" ∷ "status" ∷ []) p)
        t (issue_dto p)

  unfoldable pub resolve_person : Text → Tables F → Option ℕ
  resolve_person user_id t = elim (active_identity F user_id t) [
    | none ↦ none
    | some i ↦ some i.person_id
  ]

  -- Without the issue's row nothing is written.
  unfoldable pub write_for_issue :
      List String → Tables F → IssueAssignmentDto F → Option (Issue F) → Upserted
  unfolding issue_assignment_to_orm_fields resolve_person
  write_for_issue missing t dto none = upserted 0 (missing ++ "issue_not_synced" ∷ []) t
  write_for_issue missing t dto (some row) = upserted 1 missing (
      upsert_assignment_row F now
        (record (issue_assignment_to_orm_fields F row.issue_id dto) {
          person_id = resolve_person dto.user_id t;
        })
        t)

  unfoldable pub write_assignment :
      List String → Tables F → Option (IssueAssignmentDto F) → Upserted
  unfolding write_for_issue
  write_assignment missing t none = failed
  write_assignment missing t (some dto) =
      write_for_issue missing t dto (issue_by_pm_id F dto.issue_id t)

  unfoldable pub upsert_assignment : Payload → Tables F → Upserted
  unfolding detect_missing write_assignment
  upsert_assignment p t =
      write_assignment (detect_missing ("issue_id" ∷ "user_id" ∷ "role" ∷ []) p) t
        (assignment_dto p)

  -- A batch: an exception of one payload is dropped.
  pub record Batch : Type 0 where
    pub succeeded : ℕ
    pub missing_all : List String
    pub tables : Tables F

  unfoldable pub add_upserted : Batch → Upserted → Batch
  add_upserted b failed = b
  add_upserted b (upserted n missing t) = record {
    succeeded = b.succeeded + n;
    missing_all = b.missing_all ++ missing;
    tables = t;
  }

  unfoldable pub upsert_batch : (Payload → Tables F → Upserted) → List Payload → Batch → Batch
  unfolding add_upserted
  upsert_batch upsert [] b = b
  upsert_batch upsert (p ∷ ps) b = upsert_batch upsert ps (add_upserted b (upsert p b.tables))

  abbrev pub start_batch : Tables F → Batch
  start_batch t = record { succeeded = 0; missing_all = []; tables = t }

  unfoldable pub upsert_iterations_batch : List Payload → Tables F → Batch
  unfolding upsert_batch upsert_iteration
  upsert_iterations_batch ps t = upsert_batch upsert_iteration ps (start_batch t)

  unfoldable pub upsert_issues_batch : List Payload → Tables F → Batch
  unfolding upsert_batch upsert_issue
  upsert_issues_batch ps t = upsert_batch upsert_issue ps (start_batch t)

  unfoldable pub upsert_assignments_batch : List Payload → Tables F → Batch
  unfolding upsert_batch upsert_assignment
  upsert_assignments_batch ps t = upsert_batch upsert_assignment ps (start_batch t)
