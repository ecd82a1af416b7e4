-- ===== src/Scoring/Engine/Rows.antt =====
-- Every finding that counts has one row of deductions.
use agentic_dev_ops.Prelude.{
  ℕ, ◌≡◌, refl, sym, ap, ◌∙◌, inl, inr, Bool-cases, List, [], ◌∷◌, ◌++◌, map, ◌==◌,
}
use mathlib.Core.List.{Perm, perm_middle, perm_append_comm, append_assoc, append-nil, map-append}
use mathlib.Core.List.Perm
use agentic_dev_ops.Prelude.Text.{Text, text_eq_instance}
use agentic_dev_ops.Prelude.Order.{text_lt}
use agentic_dev_ops.Float.{Float}
use agentic_dev_ops.Scoring.Engine.{
  Finding, Row, insert_sorted, sorted, zero_points, category_cap, row_of, append_row, group_rows,
  sum_actual, scale_row, cap_category, cap_categories, score_unique, compute_score, dedupe,
}
use agentic_dev_ops.Scoring.Engine.Dedupe.{compute_score-cons}

module _ {ℓ} {A : Type ℓ} where
  perm_swap_append : (xs ys zs : List A) → Perm (xs ++ (ys ++ zs)) (ys ++ (xs ++ zs))
  perm_swap_append xs ys zs =
      rw (← append_assoc xs ys zs, ← append_assoc ys xs zs)
        (Perm.append_right zs (perm_append_comm xs ys))

module _ (fl : Float) (lower : Text → Text) where
  open fl use {F, lt, div, add}

  abbrev Groups : Type 0
  Groups = List (Text × List (Row fl lower))

  abbrev all_rows : Groups → List (Row fl lower)
  all_rows [] = []
  all_rows (e ∷ d) = e.1 ++ all_rows d

  append_row-perm :
      (r : Row fl lower) (d : Groups) → Perm (all_rows (append_row fl lower r d)) (r ∷ all_rows d)
  unfolding append_row
  append_row-perm r [] = Perm.refl (r ∷ [])
  append_row-perm r ((cat, rows) ∷ d) = elim (Bool-cases (cat == r.category)) [
    | inl e ↦ rw (e, append_assoc rows (r ∷ []) (all_rows d)) (perm_middle rows (all_rows d))
    | inr e ↦
        rw e
          (Perm.trans (Perm.append_left rows (append_row-perm r d)) (perm_middle rows (all_rows d)))
  ]

  group_rows-perm :
      (rs : List (Row fl lower)) (d : Groups)
      → Perm (all_rows (group_rows fl lower rs d)) (rs ++ all_rows d)
  unfolding group_rows
  group_rows-perm [] d = Perm.refl (all_rows d)
  group_rows-perm (r ∷ rs) d =
      Perm.trans (group_rows-perm rs (append_row fl lower r d))
        (Perm.trans (Perm.append_left rs (append_row-perm r d)) (perm_middle rs (all_rows d)))

  insert_sorted-perm :
      (e : Text × List (Row fl lower)) (d : Groups)
      → Perm (all_rows (insert_sorted e d)) (e.1 ++ all_rows d)
  unfolding insert_sorted
  insert_sorted-perm e [] = Perm.refl (e.1 ++ [])
  insert_sorted-perm e (x ∷ d) = elim (Bool-cases (text_lt x.0 e.0)) [
    | inl t ↦ rw t (
        Perm.trans (Perm.append_left x.1 (insert_sorted-perm e d))
          (perm_swap_append x.1 e.1 (all_rows d)))
    | inr t ↦ rw t (Perm.refl (e.1 ++ (x.1 ++ all_rows d)))
  ]

  sorted-perm : (d : Groups) → Perm (all_rows (sorted d)) (all_rows d)
  unfolding sorted
  sorted-perm [] = Perm.refl []
  sorted-perm (e ∷ d) =
      Perm.trans (insert_sorted-perm e (sorted d)) (Perm.append_left e.1 (sorted-perm d))

  abbrev pub ids : List (Row fl lower) → List Text
  ids rs = map (λ r. r.finding_id) rs

  ids-scale :
      (ratio : F) (rs : List (Row fl lower)) → ids (map (scale_row fl lower ratio) rs) ≡ ids rs
  unfolding scale_row
  ids-scale ratio [] = refl
  ids-scale ratio (r ∷ rs) = ap (λ l. r.finding_id ∷ l) (ids-scale ratio rs)

  cap_category-ids : (e : Text × List (Row fl lower)) → ids (cap_category fl lower e).0 ≡ ids e.1
  unfolding cap_category
  cap_category-ids (cat, rows) =
      let total = sum_actual fl lower (zero_points fl lower) rows in
      elim (Bool-cases (lt (category_cap fl lower) total)) [
        | inl t ↦ rw t (ids-scale (div (category_cap fl lower) total) rows)
        | inr t ↦ rw t refl
      ]

  cap_categories-ids :
      (total : F) (d : Groups) → ids (cap_categories fl lower total d).0 ≡ ids (all_rows d)
  unfolding cap_categories
  cap_categories-ids total [] = refl
  cap_categories-ids total (e ∷ d) =
      let (rows, caps, points) = cap_category fl lower e in
      let more = (cap_categories fl lower (add total points) d).0 in
      map-append _ rows more
      ∙ ap (λ l. l ++ ids more) (cap_category-ids e)
      ∙ ap (λ l. ids e.1 ++ l) (cap_categories-ids (add total points) d)
      ∙ sym (map-append _ e.1 (all_rows d))

  ids-row_of : (fs : List (Finding F)) → ids (map (row_of fl lower) fs) ≡ map (λ f. f.finding_id) fs
  unfolding row_of
  ids-row_of [] = refl
  ids-row_of (f ∷ fs) = ap (λ l. f.finding_id ∷ l) (ids-row_of fs)

  score_unique-ids :
      (unique : List (Finding F)) (dupes : ℕ)
      → Perm (ids (score_unique fl lower unique dupes).deductions) (map (λ f. f.finding_id) unique)
  unfolding score_unique
  score_unique-ids unique dupes =
      let rows = map (row_of fl lower) unique in
      let groups = group_rows fl lower rows [] in
      let grouped = Perm.trans (sorted-perm groups) (group_rows-perm rows []) in
      let same = cap_categories-ids (zero_points fl lower) (sorted groups) in
      let grouped' = rw (append-nil rows) at grouped in
      rw (same, ← ids-row_of unique) (Perm.map (λ r. r.finding_id) grouped')

  -- The rows of deductions are those of the findings that remain without duplicates: each has one
  -- row, and there is no other.
  pub compute_score-ids :
      (f : Finding F) (fs : List (Finding F))
      → Perm
          (ids (compute_score fl lower (f ∷ fs)).deductions)
          (map (λ g. g.finding_id) (dedupe [] (f ∷ fs)).0)
  compute_score-ids f fs =
      rw (compute_score-cons fl lower f fs)
        (score_unique-ids (dedupe [] (f ∷ fs)).0 (dedupe [] (f ∷ fs)).1)
