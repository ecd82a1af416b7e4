-- ===== src/Pm/Workload/Tests.antt =====
-- The issues of two persons, in a week.
use agentic_dev_ops.Prelude.{ℕ, ◌≡◌, refl, true, false, Option, none, some, List, [], ◌∷◌}
use agentic_dev_ops.Prelude.Dict.{lookup}
use agentic_dev_ops.Prelude.Text.{Text, codes, text_eq}
use agentic_dev_ops.Float.Fixed.{fixed}
use agentic_dev_ops.Pm.Tables.{Issue, IssueAssignment}
use agentic_dev_ops.Pm.Recompute.{Person}
use agentic_dev_ops.Pm.Workload.{
  snapshot_key, snapshot_key_eq, is_in, window_to_timedelta, rows_of_person, aggregate_for_person,
  count_issues, recompute_workload,
}
use agentic_dev_ops.Pm.Workload.Issues.{issues_of}
use agentic_dev_ops.Pm.Workload.Snapshots.{Leaves, recompute_workload-counts}

abbrev same_text : Text → Text
same_text t = t

abbrev people : List Person
people =
    record { person_id = 1; is_active = true } ∷ record { person_id = 2; is_active = false } ∷ []

abbrev week : Text
week = codes "7d"

-- Issue 5 is in review and was changed at time 90, issue 6 is done and has no time.
abbrev issue_of : ℕ → Text → Option ℕ → Issue ℕ
issue_of id status updated = record {
  issue_id = id;
  fields = record {
    pm_issue_id = codes "i";
    issue_key = codes "K";
    title = codes "t";
    issue_type = codes "bug";
    priority = codes "p";
    status = status;
    estimate_hours = some 3;
    iteration_id = none;
    pm_created_at = none;
    pm_updated_at = updated;
  };
  last_synced_at = 0;
}

abbrev issues : List (Issue ℕ)
issues = issue_of 5 (codes "review") (some 90) ∷ issue_of 6 (codes "done") none ∷ []

abbrev assigned : ℕ → IssueAssignment ℕ
assigned id = record {
  assignment_id = id;
  fields = record {
    issue_id = id;
    pm_user_id = codes "u";
    pm_username = codes "ann";
    role = codes "assignee";
    weight = 1;
    person_id = some 1;
  };
  last_synced_at = 0;
}

abbrev assignments : List (IssueAssignment ℕ)
assignments = assigned 5 ∷ assigned 6 ∷ []

recompute_workload-counts_example :
    let count : List Text → ℕ =
      λ words. issues_of fixed same_text 100 words week 1 issues assignments in
    let w =
      aggregate_for_person fixed same_text 100 (window_to_timedelta week) 1 issues assignments in
    Leaves fixed same_text 100 people
      (lookup (snapshot_key 1 week) [])
      (some (record { workload = w; computed_at = 101 }))
      1
      week
      week
      (recompute_workload fixed same_text 100 101 week people issues assignments [])
    × (w.open_issues ≡ count (codes "open" ∷ codes "todo" ∷ codes "backlog" ∷ []))
    × (w.in_progress ≡ count (codes "in_progress" ∷ codes "doing" ∷ codes "review" ∷ []))
    × (w.completed ≡ count (codes "done" ∷ codes "closed" ∷ codes "resolved" ∷ codes "merged" ∷ []))
recompute_workload-counts_example =
    recompute_workload-counts fixed same_text 100 101 week week people 1 issues assignments []
      (unfold is_in text_eq in refl)

workload_in_review :
    (aggregate_for_person fixed same_text 100
      (window_to_timedelta week)
      1
      issues
      assignments).in_progress
    ≡ 1
unfolding aggregate_for_person rows_of_person window_to_timedelta count_issues is_in text_eq
workload_in_review = refl
