-- ===== src/Pm/Workload.antt =====
-- services/pm-integration/devmanager_pm_integration/recompute/workload.py, with the DAO that it
-- uses. A time is a number of microseconds; the rows of a join come in the order of the
-- assignments. `str.lower` is a parameter.
pub mod Issues
pub mod Snapshots
pub mod Tests
use agentic_dev_ops.Prelude.{
  ℕ, suc, ◌+◌, ◌*◌, Bool, true, false, ◌&&◌, Option, none, some, List, [], ◌∷◌, ◌++◌, any, leb,
  nat_beq, nat_beq_iff, nat_eq, ◌==◌, Eq, ◌≡◌, ◌↔◌, arith, if◌then◌else◌,
}
use agentic_dev_ops.Prelude.Dict.{Dict, insert}
use agentic_dev_ops.Prelude.Text.{Text, codes, text_eq, text_eq_iff, text_eq_instance}
use agentic_dev_ops.Float.{Float}
use agentic_dev_ops.Pm.Tables.{Issue, IssueAssignment}
use agentic_dev_ops.Pm.Recompute.{Person}

-- `(person_id, time_window)`
pub data SnapshotKey : Type 0 where
  snapshot_key : ℕ → Text → SnapshotKey

unfoldable pub snapshot_key_beq : SnapshotKey → SnapshotKey → Bool
snapshot_key_beq (snapshot_key p a) (snapshot_key q b) = nat_beq p q && text_eq a b

pub snapshot_key_beq_iff : (a b : SnapshotKey) → (snapshot_key_beq a b ≡ true) ↔ (a ≡ b)
unfolding snapshot_key_beq
snapshot_key_beq_iff (snapshot_key p a) (snapshot_key q b) =
    ground (arith, nat_beq_iff p q, text_eq_iff a b)

instance abbrev pub snapshot_key_eq : Eq SnapshotKey
snapshot_key_eq = record { equal = snapshot_key_beq; decides = snapshot_key_beq_iff }

pub record Workload (F : Type 0) : Type 0 where
  pub open_issues : ℕ
  pub in_progress : ℕ
  pub completed : ℕ
  pub est_remaining : F
  pub est_completed : F

pub record WorkloadSnapshot (F : Type 0) : Type 0 where
  pub workload : Workload F
  pub computed_at : ℕ

pub record WorkloadStats : Type 0 where
  pub persons : ℕ
  pub open_issues : ℕ
  pub in_progress : ℕ
  pub completed : ℕ

abbrev pub day : ℕ
day = 86400000000

-- `_window_to_timedelta`
unfoldable pub window_to_timedelta : Text → Option ℕ
window_to_timedelta window =
    if text_eq window (codes "7d")
    then some (7 * day)
    else if text_eq window (codes "30d")
    then some (30 * day)
    else none

unfoldable pub is_in : Text → List Text → Bool
is_in s words = any (text_eq s) words

abbrev pub open_words : List Text
open_words = codes "open" ∷ codes "todo" ∷ codes "backlog" ∷ []

abbrev pub progress_words : List Text
progress_words = codes "in_progress" ∷ codes "doing" ∷ codes "review" ∷ []

abbrev pub done_words : List Text
done_words = codes "done" ∷ codes "closed" ∷ codes "resolved" ∷ codes "merged" ∷ []

abbrev pub windows : List Text
windows = codes "7d" ∷ codes "30d" ∷ codes "all" ∷ []

-- `pm_updated_at >= now - td`, which is not true of a missing time.
unfoldable pub is_recent : ℕ → Option ℕ → Option ℕ → Bool
is_recent now none updated = true
is_recent now (some td) none = false
is_recent now (some td) (some t) = leb now (t + td)

module _ (fl : Float) (lower : Text → Text) (now : ℕ) where
  open fl use {F, lit, add}

  -- The issues of one assignment, as rows of a status and an estimate.
  unfoldable pub joined_issues : Option ℕ → ℕ → List (Issue F) → List (Text × Option F)
  unfolding is_recent
  joined_issues td issue_id [] = []
  joined_issues td issue_id (i ∷ is) =
      let rest = joined_issues td issue_id is in
      if nat_beq i.issue_id issue_id && is_recent now td i.fields.pm_updated_at
      then (i.fields.status, i.fields.estimate_hours) ∷ rest
      else rest

  unfoldable pub is_person : ℕ → Option ℕ → Bool
  is_person person none = false
  is_person person (some p) = nat_beq p person

  unfoldable pub rows_of_person :
      Option ℕ → ℕ → List (Issue F) → List (IssueAssignment F) → List (Text × Option F)
  unfolding joined_issues is_person
  rows_of_person td person issues [] = []
  rows_of_person td person issues (a ∷ rest_of) =
      let rest = rows_of_person td person issues rest_of in
      if is_person person a.fields.person_id
      then joined_issues td a.fields.issue_id issues ++ rest
      else rest

  unfoldable pub estimate : Option F → F
  estimate none = lit 0 1
  estimate (some e) = e

  unfoldable pub count_issue : Text → F → Workload F → Workload F
  unfolding is_in
  count_issue s est out =
      if is_in s open_words
      then record out {
        open_issues = out.open_issues + 1;
        est_remaining = add out.est_remaining est;
      }
      else if is_in s progress_words
      then record out {
        in_progress = out.in_progress + 1;
        est_remaining = add out.est_remaining est;
      }
      else if is_in s done_words
      then record out { completed = out.completed + 1; est_completed = add out.est_completed est }
      else out

  unfoldable pub count_issues : List (Text × Option F) → Workload F → Workload F
  unfolding count_issue estimate
  count_issues [] out = out
  count_issues ((status, est) ∷ rows) out =
      count_issues rows (count_issue (lower status) (estimate est) out)

  -- `_aggregate_for_person`
  unfoldable pub aggregate_for_person :
      Option ℕ → ℕ → List (Issue F) → List (IssueAssignment F) → Workload F
  unfolding rows_of_person count_issues
  aggregate_for_person td person issues assignments =
      count_issues (rows_of_person td person issues assignments) (record {
        open_issues = 0;
        in_progress = 0;
        completed = 0;
        est_remaining = lit 0 1;
        est_completed = lit 0 1;
      })

  abbrev pub Snapshots : Type 0
  Snapshots = Dict SnapshotKey (WorkloadSnapshot F)

  unfoldable pub add_workload : Workload F → WorkloadStats → WorkloadStats
  add_workload w stats = record {
    persons = stats.persons + 1;
    open_issues = stats.open_issues + w.open_issues;
    in_progress = stats.in_progress + w.in_progress;
    completed = stats.completed + w.completed;
  }

  -- The loop over the active persons; `stamp` is the time of the writes.
  unfoldable pub snapshot_persons :
      (stamp : ℕ) (window : Text)
      → (ℕ → Workload F)
      → List Person
      → WorkloadStats
      → Snapshots
      → WorkloadStats × Snapshots
  unfolding add_workload
  snapshot_persons stamp window workload_of [] stats table = (stats, table)
  snapshot_persons stamp window workload_of (p ∷ ps) stats table =
      let w = workload_of p.person_id in
      if p.is_active
      then snapshot_persons stamp window workload_of ps (add_workload w stats) (
          insert (snapshot_key p.person_id window) (record { workload = w; computed_at = stamp })
            table)
      else snapshot_persons stamp window workload_of ps stats table

  -- `none` is a `ValueError`.
  unfoldable pub recompute_workload :
      (stamp : ℕ) (window : Text)
      → List Person
      → List (Issue F)
      → List (IssueAssignment F)
      → Snapshots
      → Option (WorkloadStats × Snapshots)
  unfolding is_in window_to_timedelta aggregate_for_person snapshot_persons
  recompute_workload stamp window persons issues assignments table =
      if is_in window windows
      then some (
          snapshot_persons stamp window
            (λ p. aggregate_for_person (window_to_timedelta window) p issues assignments) persons
            (record { persons = 0; open_issues = 0; in_progress = 0; completed = 0 }) table)
      else none
