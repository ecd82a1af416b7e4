-- ===== src/Pm/Tables.antt =====
-- packages/db/devmanager_db/daos/team_ops/: the tables of the platform's copies, and the accesses
-- that keep one row for each key. A table is the list of its rows. `uuid4` gives the next unused
-- number, times are numbers, and `F` is Python's float.
pub mod Keys
use agentic_dev_ops.Prelude.{
  ℕ, zero, suc, ◌+◌, ◌≡◌, refl, Bool, true, false, ◌&&◌, Option, none, some, List, [], ◌∷◌, ◌++◌,
  map, nat_beq, nat_eq, ◌==◌, if◌then◌else◌,
}
use agentic_dev_ops.Prelude.Text.{Text, text_eq_instance}

module _ {A : Type 0} where
  -- `select(...).where(p)` with `scalar_one_or_none`, for a condition that at most one row meets.
  unfoldable pub find_row : (A → Bool) → List A → Option A
  find_row p [] = none
  find_row p (r ∷ rs) = if p r then some r else find_row p rs

  -- `update(...).where(p).values(...)`
  unfoldable pub update_rows : (A → Bool) → (A → A) → List A → List A
  update_rows p f [] = []
  update_rows p f (r ∷ rs) = (if p r then f r else r) ∷ update_rows p f rs

module _ (F : Type 0) where
  pub record IterationFields : Type 0 where
    pub pm_iteration_id : Text
    pub name : Text
    pub start_date : ℕ
    pub end_date : ℕ
    pub status : Text
    pub pm_created_at : Option ℕ
    pub pm_updated_at : Option ℕ

  pub record Iteration : Type 0 where
    pub iteration_id : ℕ
    pub fields : IterationFields
    pub last_synced_at : ℕ

  pub record IssueFields : Type 0 where
    pub pm_issue_id : Text
    pub issue_key : Text
    pub title : Text
    pub issue_type : Text
    pub priority : Text
    pub status : Text
    pub estimate_hours : Option F
    pub iteration_id : Option ℕ
    pub pm_created_at : Option ℕ
    pub pm_updated_at : Option ℕ

  pub record Issue : Type 0 where
    pub issue_id : ℕ
    pub fields : IssueFields
    pub last_synced_at : ℕ

  pub record AssignmentFields : Type 0 where
    pub issue_id : ℕ
    pub pm_user_id : Text
    pub pm_username : Text
    pub role : Text
    pub weight : F
    pub person_id : Option ℕ

  pub record IssueAssignment : Type 0 where
    pub assignment_id : ℕ
    pub fields : AssignmentFields
    pub last_synced_at : ℕ

  pub record PmIdentity : Type 0 where
    pub pm_user_id : Text
    pub person_id : ℕ
    pub effective_to : Option ℕ

  pub record PmSyncCursor : Type 0 where
    pub source_key : Text
    pub cursor_value : Option Text
    pub last_synced_at : ℕ

  pub record Tables : Type 0 where
    pub iterations : List Iteration
    pub issues : List Issue
    pub assignments : List IssueAssignment
    pub identities : List PmIdentity
    pub cursors : List PmSyncCursor
    pub next_uuid : ℕ

  -- `IterationDAO`
  unfoldable pub iteration_by_pm_id : Text → Tables → Option Iteration
  iteration_by_pm_id pm_id t = find_row (λ r. r.fields.pm_iteration_id == pm_id) t.iterations

  -- Updates the row that was found, or adds one.
  unfoldable pub store_iteration : ℕ → IterationFields → Tables → Option Iteration → Tables
  unfolding update_rows
  store_iteration now fields t (some existing) = record t {
    iterations =
        update_rows (λ r. nat_beq r.iteration_id existing.iteration_id)
          (λ r. record r { fields = fields; last_synced_at = now }) t.iterations;
  }
  store_iteration now fields t none = record t {
    iterations =
        t.iterations
        ++ record { iteration_id = t.next_uuid; fields = fields; last_synced_at = now } ∷ [];
    next_uuid = suc t.next_uuid;
  }

  unfoldable pub upsert_iteration_row : ℕ → IterationFields → Tables → Tables
  unfolding iteration_by_pm_id store_iteration
  upsert_iteration_row now fields t =
      store_iteration now fields t (iteration_by_pm_id fields.pm_iteration_id t)

  -- `IssueDAO`
  unfoldable pub issue_by_pm_id : Text → Tables → Option Issue
  issue_by_pm_id pm_id t = find_row (λ r. r.fields.pm_issue_id == pm_id) t.issues

  unfoldable pub store_issue : ℕ → IssueFields → Tables → Option Issue → Tables
  unfolding update_rows
  store_issue now fields t (some existing) = record t {
    issues =
        update_rows (λ r. nat_beq r.issue_id existing.issue_id)
          (λ r. record r { fields = fields; last_synced_at = now }) t.issues;
  }
  store_issue now fields t none = record t {
    issues =
        t.issues ++ record { issue_id = t.next_uuid; fields = fields; last_synced_at = now } ∷ [];
    next_uuid = suc t.next_uuid;
  }

  unfoldable pub upsert_issue_row : ℕ → IssueFields → Tables → Tables
  unfolding issue_by_pm_id store_issue
  upsert_issue_row now fields t = store_issue now fields t (issue_by_pm_id fields.pm_issue_id t)

  -- `IssueAssignmentDAO`
  unfoldable pub same_assignment : AssignmentFields → IssueAssignment → Bool
  same_assignment f r =
      nat_beq r.fields.issue_id f.issue_id
      && r.fields.pm_user_id == f.pm_user_id
      && r.fields.role == f.role

  unfoldable pub store_assignment : ℕ → AssignmentFields → Tables → Option IssueAssignment → Tables
  unfolding update_rows
  store_assignment now fields t (some existing) = record t {
    assignments =
        update_rows (λ r. nat_beq r.assignment_id existing.assignment_id)
          (λ r. record r {
            fields = record r.fields {
              pm_username = fields.pm_username;
              weight = fields.weight;
              person_id = fields.person_id;
            };
            last_synced_at = now;
          })
          t.assignments;
  }
  store_assignment now fields t none = record t {
    assignments =
        t.assignments
        ++ record { assignment_id = t.next_uuid; fields = fields; last_synced_at = now } ∷ [];
    next_uuid = suc t.next_uuid;
  }

  unfoldable pub upsert_assignment_row : ℕ → AssignmentFields → Tables → Tables
  unfolding same_assignment find_row store_assignment
  upsert_assignment_row now fields t =
      store_assignment now fields t (find_row (same_assignment fields) t.assignments)

  abbrev is_none : Option ℕ → Bool
  is_none none = true
  is_none (some n) = false

  -- `PmIdentityDAO.get_active_by_user_id`
  unfoldable pub active_identity : Text → Tables → Option PmIdentity
  active_identity user_id t =
      find_row (λ r. r.pm_user_id == user_id && is_none r.effective_to) t.identities

  -- `PmSyncCursorDAO`
  unfoldable pub get_cursor : Text → Tables → Option PmSyncCursor
  get_cursor source_key t = find_row (λ r. r.source_key == source_key) t.cursors

  unfoldable pub upsert_cursor : ℕ → Text → Option Text → Tables → Tables
  unfolding get_cursor update_rows
  upsert_cursor now source_key cursor_value t = elim (get_cursor source_key t) [
    | none ↦ record t {
      cursors =
          t.cursors
          ++ record { source_key = source_key; cursor_value = cursor_value; last_synced_at = now }
            ∷ [];
    }
    | some existing ↦ record t {
      cursors =
          update_rows (λ r. r.source_key == source_key)
            (λ r. record r { cursor_value = cursor_value; last_synced_at = now }) t.cursors;
    }
  ]
