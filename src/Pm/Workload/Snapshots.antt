-- ===== src/Pm/Workload/Snapshots.antt =====
-- The snapshots that a recomputation writes, against counts of the issues.
use agentic_dev_ops.Prelude.{
  ℕ, ◌+◌, ◌≡◌, refl, ◌∙◌, Bool, true, false, ◌&&◌, ◌||◌, Bool-cases, inl, inr, Option, none, some,
  List, [], ◌∷◌, nat_beq, nat_beq_iff, nat_eq, arith, if◌then◌else◌,
}
use agentic_dev_ops.Prelude.Dict.{lookup, insert, lookup-insert}
use agentic_dev_ops.Prelude.Text.{Text, codes, text_eq, text_eq_instance}
use agentic_dev_ops.Float.{Float}
use agentic_dev_ops.Pm.Tables.{Issue, IssueAssignment}
use agentic_dev_ops.Pm.Recompute.{Person}
use agentic_dev_ops.Pm.Workload.Issues.{count_issues-counts, rows_of_person-issues, issues_of}
use agentic_dev_ops.Pm.Workload.{
  snapshot_key, snapshot_key_beq, snapshot_key_eq, Workload, WorkloadSnapshot, WorkloadStats,
  window_to_timedelta, is_in, open_words, progress_words, done_words, windows, rows_of_person,
  aggregate_for_person, Snapshots, add_workload, snapshot_persons, recompute_workload,
}

abbrev pub count_active : List Person → ℕ
count_active [] = 0
count_active (p ∷ ps) = (if p.is_active then 1 else 0) + count_active ps

-- The snapshot of a person, found among the written ones or in the table.
choose_snapshot :
    {V : Type 0} (p person : ℕ) (window win : Text) (listed : Bool) (f : ℕ → V) (old : Option V)
    → (if listed && text_eq window win
        then some (f person)
        else if snapshot_key_beq (snapshot_key p window) (snapshot_key person win)
        then some (f p)
        else old)
      ≡ (if (nat_beq p person || listed) && text_eq window win then some (f person) else old)
unfolding snapshot_key_beq
choose_snapshot p person window win listed f old = ground (arith, nat_beq_iff p person)

module _ (fl : Float) (lower : Text → Text) (now : ℕ) where
  open fl use {F}

  -- Whether a person is to have a snapshot.
  abbrev pub is_listed : ℕ → List Person → Bool
  is_listed person [] = false
  is_listed person (p ∷ ps) = (p.is_active && nat_beq p.person_id person) || is_listed person ps

  module _ (stamp : ℕ) (window : Text) (workload_of : ℕ → Workload F) where
    abbrev after : List Person → WorkloadStats → Snapshots fl lower now → Snapshots fl lower now
    after ps stats table = (snapshot_persons fl lower now stamp window workload_of ps stats table).1

    lookup-snapshot_persons :
        (person : ℕ) (win : Text) (ps : List Person) (stats : WorkloadStats)
        (table : Snapshots fl lower now)
        → lookup (snapshot_key person win) (after ps stats table) ≡ (
            if is_listed person ps && text_eq window win
            then some (record { workload = workload_of person; computed_at = stamp })
            else lookup (snapshot_key person win) table)
    unfolding snapshot_persons
    lookup-snapshot_persons person win [] stats table = refl
    lookup-snapshot_persons person win (p ∷ ps) stats table = elim (Bool-cases p.is_active) [
      | inl e ↦
          let w = workload_of p.person_id in
          rw e (
            lookup-snapshot_persons person win ps (add_workload fl lower now w stats) _
            ∙ rw
                (lookup-insert (snapshot_key p.person_id window) (snapshot_key person win)
                  (record { workload = w; computed_at = stamp }) table)
                (choose_snapshot p.person_id person window win (is_listed person ps)
                  (λ i. record { workload = workload_of i; computed_at = stamp }) _))
      | inr e ↦ rw e (lookup-snapshot_persons person win ps stats table)
    ]

    persons-snapshot_persons :
        (ps : List Person) (stats : WorkloadStats) (table : Snapshots fl lower now)
        → (snapshot_persons fl lower now stamp window workload_of ps stats table).0.persons
          ≡ stats.persons + count_active ps
    unfolding snapshot_persons add_workload
    persons-snapshot_persons [] stats table = omega arith
    persons-snapshot_persons (p ∷ ps) stats table =
        let w = workload_of p.person_id in
        ground (
          arith,
          persons-snapshot_persons ps stats table,
          persons-snapshot_persons ps (add_workload fl lower now w stats) (
              insert (snapshot_key p.person_id window)
                (record { workload = w; computed_at = stamp }) table),
        )

  -- What a recomputation leaves of a person in a window, and how many persons it reports.
  abbrev pub Leaves :
      (persons : List Person) (old new : Option (WorkloadSnapshot F)) (person : ℕ)
      (window win : Text)
      → Option (WorkloadStats × Snapshots fl lower now)
      → Type 0
  Leaves persons old new person window win none = ⊥
  Leaves persons old new person window win (some (stats, table)) =
      (lookup (snapshot_key person win) table
        ≡ (if is_listed person persons && text_eq window win then new else old))
      × (stats.persons ≡ count_active persons)

-- A recomputation for a known window succeeds. It gives each active person, in this window, the
-- numbers of the person's issues that were changed in the last 7 days, in the last 30 days or ever, as
-- the window says, with an open, a begun and a done status; every other snapshot is as before, also
-- that of a person who is not active. It reports the number of the active persons. An issue counts
-- once for each assignment of it to the person.
pub recompute_workload-counts :
    (fl : Float) (lower : Text → Text) (now stamp : ℕ) (window win : Text) (persons : List Person)
    (person : ℕ) (issues : List (Issue fl.F)) (assignments : List (IssueAssignment fl.F))
    (table : Snapshots fl lower now)
    → is_in window windows ≡ true
    → let count : List Text → ℕ =
        λ words. issues_of fl lower now words window person issues assignments in
      let w =
        aggregate_for_person fl lower now (window_to_timedelta window) person issues assignments in
      Leaves fl lower now persons
        (lookup (snapshot_key person win) table)
        (some (record { workload = w; computed_at = stamp }))
        person
        window
        win
        (recompute_workload fl lower now stamp window persons issues assignments table)
      × (w.open_issues ≡ count (codes "open" ∷ codes "todo" ∷ codes "backlog" ∷ []))
      × (w.in_progress ≡ count (codes "in_progress" ∷ codes "doing" ∷ codes "review" ∷ []))
      × (w.completed
          ≡ count (codes "done" ∷ codes "closed" ∷ codes "resolved" ∷ codes "merged" ∷ []))
unfolding recompute_workload aggregate_for_person
recompute_workload-counts fl lower now stamp window win persons person issues assignments table h =
    let td = window_to_timedelta window in
    let none_yet : WorkloadStats = record {
      persons = 0;
      open_issues = 0;
      in_progress = 0;
      completed = 0;
    } in
    let idle : Workload fl.F = record {
      open_issues = 0;
      in_progress = 0;
      completed = 0;
      est_remaining = fl.lit 0 1;
      est_completed = fl.lit 0 1;
    } in
    let workload_of : ℕ → Workload fl.F =
      λ p. aggregate_for_person fl lower now td p issues assignments in
    let (o, p, d) =
      count_issues-counts fl lower now (rows_of_person fl lower now td person issues assignments)
        idle in
    let of_person = λ (words : List Text).
      rows_of_person-issues fl lower now words window person issues assignments h in
    (
      rw h (
        lookup-snapshot_persons fl lower now stamp window workload_of person win persons _ table,
        omega (
          arith,
          persons-snapshot_persons fl lower now stamp window workload_of persons none_yet table,
        ),
      ),
      omega (arith, o, of_person open_words),
      omega (arith, p, of_person progress_words),
      omega (arith, d, of_person done_words),
    )
