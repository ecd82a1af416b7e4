-- ===== src/Pm/Workload/Issues.antt =====
-- The counts of a recomputation, against the issues of a person.
use agentic_dev_ops.Prelude.{
  ℕ, ◌+◌, ◌≡◌, refl, sym, subst, Bool, true, false, false-ne-true, any, ◌&&◌, Bool-cases, inl, inr,
  Option, none, some, List, [], ◌∷◌, ◌++◌, leb, nat_beq, arith, if◌then◌else◌,
}
use agentic_dev_ops.Prelude.Text.{Text, codes, text_eq, text_eq_iff}
use agentic_dev_ops.Float.{Float}
use agentic_dev_ops.Pm.Tables.{Issue, IssueAssignment}
use agentic_dev_ops.Pm.Workload.{
  Workload, window_to_timedelta, is_in, open_words, progress_words, done_words, windows, is_recent,
  joined_issues, is_person, rows_of_person, estimate, count_issue, count_issues,
}

-- A word of one list is not in another that has none of its words.
is_in-others :
    (s : Text) (words others : List Text)
    → any (λ w. is_in w others) words ≡ false
    → is_in s words ≡ true
    → is_in s others ≡ false
unfolding is_in
is_in-others s [] others apart h = absurd (false-ne-true h)
is_in-others s (w ∷ words) others apart h =
    ground (arith, text_eq_iff s w, is_in-others s words others)

module _ (fl : Float) (lower : Text → Text) (now : ℕ) where
  open fl use {F}

  -- How many rows have one of these states.
  abbrev pub with_status : List Text → List (Text × Option F) → ℕ
  with_status words [] = 0
  with_status words ((status, est) ∷ rows) =
      (if is_in (lower status) words then 1 else 0) + with_status words rows

  pub count_issues-counts :
      (rows : List (Text × Option F)) (w : Workload F)
      → ((count_issues fl lower now rows w).open_issues
          ≡ w.open_issues + with_status open_words rows)
        × ((count_issues fl lower now rows w).in_progress
            ≡ w.in_progress + with_status progress_words rows)
        × ((count_issues fl lower now rows w).completed ≡ w.completed + with_status done_words rows)
  unfolding count_issues count_issue text_eq
  count_issues-counts [] w = (omega arith, omega arith, omega arith)
  count_issues-counts ((status, est) ∷ rows) w =
      let s = lower status in
      let (o, p, d) =
        count_issues-counts rows (count_issue fl lower now s (estimate fl lower now est) w) in
      let po = is_in-others s progress_words open_words refl in
      let do_ = is_in-others s done_words open_words refl in
      let dp = is_in-others s done_words progress_words refl in
      (
        ground (arith, o, po, do_, dp),
        ground (arith, p, po, do_, dp),
        ground (arith, d, po, do_, dp),
      )

  -- Whether the issue was changed in the window: in the last 7 days, in the last 30 days, or ever.
  abbrev pub in_window : Text → Option ℕ → Bool
  in_window window updated = if text_eq window (codes "all") then true else elim updated [
    | none ↦ false
    | some t ↦ leb now (t + (if text_eq window (codes "7d") then 604800000000 else 2592000000000))
  ]

  abbrev pub is_for : ℕ → Option ℕ → Bool
  is_for person none = false
  is_for person (some p) = nat_beq p person

  is_person-is_for : (person : ℕ) (o : Option ℕ) → is_person fl lower now person o ≡ is_for person o
  unfolding is_person
  is_person-is_for person none = refl
  is_person-is_for person (some p) = refl

  -- One, if the issue is assigned to the person by this assignment, is in the window and has one of
  -- the states.
  abbrev pub one_if :
      (words : List Text) (window : Text) (person : ℕ) (a : IssueAssignment F) (i : Issue F) → ℕ
  one_if words window person a i =
      if is_for person a.fields.person_id
        && (nat_beq i.issue_id a.fields.issue_id
            && (in_window window i.fields.pm_updated_at && is_in (lower i.fields.status) words))
      then 1
      else 0

  abbrev pub assigned_issues : List Text → Text → ℕ → IssueAssignment F → List (Issue F) → ℕ
  assigned_issues words window person a [] = 0
  assigned_issues words window person a (i ∷ is) =
      one_if words window person a i + assigned_issues words window person a is

  abbrev pub issues_of : List Text → Text → ℕ → List (Issue F) → List (IssueAssignment F) → ℕ
  issues_of words window person issues [] = 0
  issues_of words window person issues (a ∷ rest) =
      assigned_issues words window person a issues + issues_of words window person issues rest

  with_status-append :
      (words : List Text) (xs ys : List (Text × Option F))
      → with_status words (xs ++ ys) ≡ with_status words xs + with_status words ys
  with_status-append words [] ys = omega arith
  with_status-append words ((s, e) ∷ xs) ys = omega (arith, with_status-append words xs ys)

  abbrev Fits : Option ℕ → Text → Type 0
  Fits updated window =
      is_recent now (window_to_timedelta window) updated ≡ in_window window updated

  week-Fits : (updated : Option ℕ) → Fits updated (codes "7d")
  unfolding is_recent window_to_timedelta text_eq
  week-Fits none = refl
  week-Fits (some t) = refl

  month-Fits : (updated : Option ℕ) → Fits updated (codes "30d")
  unfolding is_recent window_to_timedelta text_eq
  month-Fits none = refl
  month-Fits (some t) = refl

  all-Fits : (updated : Option ℕ) → Fits updated (codes "all")
  unfolding is_recent window_to_timedelta text_eq
  all-Fits none = refl
  all-Fits (some t) = refl

  window-Fits :
      (window : Text) (updated : Option ℕ) → is_in window windows ≡ true → Fits updated window
  unfolding is_in
  window-Fits window updated known = elim (Bool-cases (text_eq window (codes "7d"))) [
    | inl e ↦ subst (Fits updated) (sym ((text_eq_iff window (codes "7d")).0 e)) (week-Fits updated)
    | inr e ↦ elim (Bool-cases (text_eq window (codes "30d"))) [
      | inl f ↦
          subst (Fits updated) (sym ((text_eq_iff window (codes "30d")).0 f)) (month-Fits updated)
      | inr f ↦
          let g : text_eq window (codes "all") ≡ true = ground (arith, known, e, f) in
          subst (Fits updated) (sym ((text_eq_iff window (codes "all")).0 g)) (all-Fits updated)
    ]
  ]

  joined-assigned :
      (words : List Text) (window : Text) (person : ℕ) (a : IssueAssignment F) (is : List (Issue F))
      → is_in window windows ≡ true
      → is_for person a.fields.person_id ≡ true
      → with_status words
          (joined_issues fl lower now (window_to_timedelta window) a.fields.issue_id is)
        ≡ assigned_issues words window person a is
  unfolding joined_issues
  joined-assigned words window person a [] known mine = refl
  joined-assigned words window person a (i ∷ is) known mine =
      let ih = joined-assigned words window person a is known mine in
      let e = window-Fits window i.fields.pm_updated_at known in
      elim (Bool-cases (nat_beq i.issue_id a.fields.issue_id)) [
        | inr n ↦ rw (n, mine, ih) (omega arith)
        | inl y ↦ elim (Bool-cases (in_window window i.fields.pm_updated_at)) [
          | inl w ↦ rw (y, e, w, mine, ih) refl
          | inr w ↦ rw (y, e, w, mine, ih) (omega arith)
        ]
      ]

  assigned_to_other :
      (words : List Text) (window : Text) (person : ℕ) (a : IssueAssignment F) (is : List (Issue F))
      → is_for person a.fields.person_id ≡ false
      → assigned_issues words window person a is ≡ 0
  assigned_to_other words window person a [] other = refl
  assigned_to_other words window person a (i ∷ is) other =
      rw (other, assigned_to_other words window person a is other) refl

  pub rows_of_person-issues :
      (words : List Text) (window : Text) (person : ℕ) (issues : List (Issue F))
      (assignments : List (IssueAssignment F))
      → is_in window windows ≡ true
      → with_status words
          (rows_of_person fl lower now (window_to_timedelta window) person issues assignments)
        ≡ issues_of words window person issues assignments
  unfolding rows_of_person
  rows_of_person-issues words window person issues [] known = refl
  rows_of_person-issues words window person issues (a ∷ rest) known =
      let ih = rows_of_person-issues words window person issues rest known in
      rw (is_person-is_for person a.fields.person_id)
        elim (Bool-cases (is_for person a.fields.person_id)) [
          | inl mine ↦ rw mine (
              omega (
                arith,
                with_status-append words
                    (joined_issues fl lower now (window_to_timedelta window) a.fields.issue_id
                      issues)
                    (rows_of_person fl lower now (window_to_timedelta window) person issues rest),
                joined-assigned words window person a issues known mine,
                ih,
              ))
          | inr other ↦
              rw other (omega (arith, assigned_to_other words window person a issues other, ih))
        ]
