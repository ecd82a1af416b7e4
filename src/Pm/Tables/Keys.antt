-- ===== src/Pm/Tables/Keys.antt =====
-- What the tables say after an upsert.
use agentic_dev_ops.Prelude.{
  ℕ, ◌≡◌, refl, Bool, true, inl, inr, Bool-cases, Option, none, some, List, [], ◌∷◌, ◌++◌, nat_beq,
  ◌==◌, ==_refl, arith,
}
use agentic_dev_ops.Prelude.Text.{text_eq_instance}
use agentic_dev_ops.Pm.Tables.{
  find_row, update_rows, IterationFields, Iteration, IssueFields, Issue, AssignmentFields, Tables,
  issue_by_pm_id, store_iteration, store_issue, store_assignment, IssueAssignment, upsert_issue_row,
}

module _ {A : Type 0} (p : A → Bool) where
  find_row-append :
      (rs : List A) (r : A) → find_row p rs ≡ none → p r ≡ true → find_row p (rs ++ r ∷ []) ≡ some r
  unfolding find_row
  find_row-append [] r h k = rw k refl
  find_row-append (x ∷ rs) r h k = elim (Bool-cases (p x)) [
    | inl e ↦ let h' = rw e at h in absurd (cc)
    | inr e ↦ let h' = rw e at h in rw e (find_row-append rs r h' k)
  ]

  -- Updating the row that was found, and others with it, by rows that meet the condition.
  find_row-update :
      (q : A → Bool) (f : A → A) (rs : List A) (found : A)
      → find_row p rs ≡ some found
      → q found ≡ true
      → ((r : A) → p (f r) ≡ true)
      → (r : A) × (find_row p (update_rows q f rs) ≡ some (f r))
  unfolding find_row update_rows
  find_row-update q f [] found h k fits = absurd (cc)
  find_row-update q f (x ∷ rs) found h k fits = elim (Bool-cases (q x)) [
    | inl e ↦ (x, rw (e, fits x) refl)
    | inr e ↦ elim (Bool-cases (p x)) [
      | inl t ↦ let h' = rw t at h in absurd (cc)
      | inr t ↦
          let h' = rw t at h in
          let (r, same) = find_row-update q f rs found h' k fits in (r, rw (e, t) same)
    ]
  ]

nat_beq_refl : (n : ℕ) → nat_beq n n ≡ true
nat_beq_refl n = ground arith

module _ (F : Type 0) where
  -- After an upsert, the issue with that id of the platform has the fields that were given and the
  -- time of the sync, whether its row is new or was there before.
  pub upsert_issue_row-reads_back :
      (now : ℕ) (fields : IssueFields F) (t : Tables F)
      → (row : Issue F) × (issue_by_pm_id F fields.pm_issue_id (upsert_issue_row F now fields t)
          ≡ some row)
        × (row.fields ≡ fields)
        × (row.last_synced_at ≡ now)
  unfolding issue_by_pm_id upsert_issue_row
  upsert_issue_row-reads_back now fields t = go (issue_by_pm_id F fields.pm_issue_id t) refl
    where
      p : Issue F → Bool
      p r = r.fields.pm_issue_id == fields.pm_issue_id

      go :
          (o : Option (Issue F))
          → issue_by_pm_id F fields.pm_issue_id t ≡ o
          → (row : Issue F) × (issue_by_pm_id F fields.pm_issue_id (store_issue F now fields t o)
              ≡ some row)
            × (row.fields ≡ fields)
            × (row.last_synced_at ≡ now)
      go none e = (_, find_row-append p t.issues _ e (==_refl fields.pm_issue_id), refl, refl)
      go (some found) e =
          let (r, same) =
            find_row-update p (λ r. nat_beq r.issue_id found.issue_id)
              (λ r. record r { fields = fields; last_synced_at = now }) t.issues found e
              (nat_beq_refl found.issue_id) (λ r. ==_refl fields.pm_issue_id) in
          (record r { fields = fields; last_synced_at = now }, same, refl, refl)

  -- Storing a row of another table touches no cursor.
  pub store_iteration-cursors :
      (now : ℕ) (f : IterationFields F) (t : Tables F) (o : Option (Iteration F))
      → (store_iteration F now f t o).cursors ≡ t.cursors
  unfolding store_iteration
  store_iteration-cursors now f t none = refl
  store_iteration-cursors now f t (some r) = refl

  pub store_issue-cursors :
      (now : ℕ) (f : IssueFields F) (t : Tables F) (o : Option (Issue F))
      → (store_issue F now f t o).cursors ≡ t.cursors
  unfolding store_issue
  store_issue-cursors now f t none = refl
  store_issue-cursors now f t (some r) = refl

  pub store_assignment-cursors :
      (now : ℕ) (f : AssignmentFields F) (t : Tables F) (o : Option (IssueAssignment F))
      → (store_assignment F now f t o).cursors ≡ t.cursors
  unfolding store_assignment
  store_assignment-cursors now f t none = refl
  store_assignment-cursors now f t (some r) = refl
