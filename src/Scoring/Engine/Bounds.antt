-- ===== src/Scoring/Engine/Bounds.antt =====
-- The score lies between 0 and 100, and no category takes off more than its cap.
use agentic_dev_ops.Prelude.{
  ℕ, suc, ◌≡◌, false, inl, inr, Bool-cases, List, [], ◌∷◌, map, All, All-append, arith, ◌==◌,
}
use agentic_dev_ops.Prelude.Text.{Text, text_eq_instance}
use agentic_dev_ops.Prelude.Order.{text_lt}
use agentic_dev_ops.Float.{Float, fmax, fmin}
use agentic_dev_ops.Scoring.Engine.{
  Finding, Row, insert_sorted, sorted, zero_points, base_deduction, category_cap, clamp_confidence,
  row_of, append_row, group_rows, sum_actual, cap_category, cap_categories, score_unique,
  compute_score, dedupe,
}

module _ (fl : Float) (lower : Text → Text) where
  open fl use {
    F, lit, add, sub, mul, div, round, lt, le, lt_asym, lit_nonneg, add_nonneg, mul_nonneg, sub_le,
    round_mono, round_lit,
  }

  abbrev pub NotNegative : F → Type 0
  NotNegative a = lt a (lit 0 1) ≡ false

  lt_irrefl : (a : F) → lt a a ≡ false
  lt_irrefl a = elim (Bool-cases (lt a a)) [ inl e ↦ lt_asym a a e | inr e ↦ e ]

  fmax-NotNegative : (a : F) → NotNegative (fmax fl (lit 0 1) a)
  unfolding fmax
  fmax-NotNegative a = elim (Bool-cases (lt (lit 0 1) a)) [
    | inl e ↦ rw e (lt_asym (lit 0 1) a e)
    | inr e ↦ rw e (lit_nonneg 0 1)
  ]

  round-NotNegative : (a : F) (n : ℕ) → NotNegative a → NotNegative (round a (suc n))
  round-NotNegative a n h = rw (round_lit 0 n) at (round_mono (lit 0 1) a (suc n) h)

  base_deduction-NotNegative : (sev : Text) → NotNegative (base_deduction fl lower sev)
  unfolding base_deduction
  base_deduction-NotNegative sev =
      ground (
        arith,
        lit_nonneg 250 1,
        lit_nonneg 100 1,
        lit_nonneg 50 1,
        lit_nonneg 20 1,
        lit_nonneg 5 1,
      )

  abbrev pub Fine : Row fl lower → Type 0
  Fine r = NotNegative r.actual_deduction

  row_of-Fine : (f : Finding F) → Fine (row_of fl lower f)
  unfolding row_of
  row_of-Fine f =
      let sev = lower f.severity in
      round-NotNegative (mul (base_deduction fl lower sev) (clamp_confidence fl lower f.confidence))
        3
        (mul_nonneg (base_deduction fl lower sev) (clamp_confidence fl lower f.confidence)
          (base_deduction-NotNegative sev) (fmax-NotNegative (fmin fl (lit 10 1) f.confidence)))

  abbrev AllFine : List (Text × List (Row fl lower)) → Type 0
  AllFine d = All (λ e. All Fine e.1) d

  append_row-AllFine :
      (r : Row fl lower) (d : List (Text × List (Row fl lower)))
      → Fine r
      → AllFine d
      → AllFine (append_row fl lower r d)
  unfolding append_row
  append_row-AllFine r [] h k = ((h, tt), tt)
  append_row-AllFine r ((cat, rows) ∷ d) h k = elim (Bool-cases (cat == r.category)) [
    | inl e ↦ rw e (All-append Fine rows (r ∷ []) k.0 (h, tt), k.1)
    | inr e ↦ rw e (k.0, append_row-AllFine r d h k.1)
  ]

  group_rows-AllFine :
      (rs : List (Row fl lower)) (d : List (Text × List (Row fl lower)))
      → All Fine rs
      → AllFine d
      → AllFine (group_rows fl lower rs d)
  unfolding group_rows
  group_rows-AllFine [] d h k = k
  group_rows-AllFine (r ∷ rs) d h k =
      group_rows-AllFine rs (append_row fl lower r d) h.1 (append_row-AllFine r d h.0 k)

  insert_sorted-AllFine :
      (e : Text × List (Row fl lower)) (d : List (Text × List (Row fl lower)))
      → All Fine e.1
      → AllFine d
      → AllFine (insert_sorted e d)
  unfolding insert_sorted
  insert_sorted-AllFine e [] h k = (h, tt)
  insert_sorted-AllFine e (x ∷ d) h k = elim (Bool-cases (text_lt x.0 e.0)) [
    | inl t ↦ rw t (k.0, insert_sorted-AllFine e d h k.1)
    | inr t ↦ rw t (h, k)
  ]

  sorted-AllFine : (d : List (Text × List (Row fl lower))) → AllFine d → AllFine (sorted d)
  unfolding sorted
  sorted-AllFine [] h = tt
  sorted-AllFine (e ∷ d) h = insert_sorted-AllFine e (sorted d) h.0 (sorted-AllFine d h.1)

  map-row_of-Fine : (fs : List (Finding F)) → All Fine (map (row_of fl lower) fs)
  map-row_of-Fine [] = tt
  map-row_of-Fine (f ∷ fs) = (row_of-Fine f, map-row_of-Fine fs)

  sum_actual-NotNegative :
      (acc : F) (rs : List (Row fl lower))
      → NotNegative acc
      → All Fine rs
      → NotNegative (sum_actual fl lower acc rs)
  unfolding sum_actual
  sum_actual-NotNegative acc [] h k = h
  sum_actual-NotNegative acc (r ∷ rs) h k =
      sum_actual-NotNegative (add acc r.actual_deduction) rs
        (add_nonneg acc r.actual_deduction h k.0) k.1

  -- A category never takes off more than its cap, nor less than nothing.
  pub cap_category_bounds :
      (cat : Text) (rows : List (Row fl lower))
      → All Fine rows
      → (lt (category_cap fl lower) (cap_category fl lower (cat, rows)).2 ≡ false)
        × NotNegative (cap_category fl lower (cat, rows)).2
  unfolding cap_category
  cap_category_bounds cat rows h =
      let total = sum_actual fl lower (zero_points fl lower) rows in
      elim (Bool-cases (lt (category_cap fl lower) total)) [
        | inl e ↦ rw e (lt_irrefl (category_cap fl lower), lit_nonneg 350 1)
        | inr e ↦ rw e (e, sum_actual-NotNegative (zero_points fl lower) rows (lit_nonneg 0 1) h)
      ]

  cap_categories-NotNegative :
      (total : F) (d : List (Text × List (Row fl lower)))
      → NotNegative total
      → AllFine d
      → NotNegative (cap_categories fl lower total d).2
  unfolding cap_categories
  cap_categories-NotNegative total [] h k = h
  cap_categories-NotNegative total ((cat, rows) ∷ d) h k =
      let points = (cap_category fl lower (cat, rows)).2 in
      cap_categories-NotNegative (add total points) d
        (add_nonneg total points h (cap_category_bounds cat rows k.0).1) k.1

  fmax_below :
      (a b : F) → lt b (lit 0 1) ≡ false → lt b a ≡ false → lt b (fmax fl (lit 0 1) a) ≡ false
  unfolding fmax
  fmax_below a b h k = elim (Bool-cases (lt (lit 0 1) a)) [ inl e ↦ rw e k | inr e ↦ rw e h ]

  abbrev pub InRange : F → Type 0
  InRange a = NotNegative a × (lt (lit 1000 1) a ≡ false)

  final-InRange :
      (total : F)
      → NotNegative total
      → InRange (round (fmax fl (lit 0 1) (sub (lit 1000 1) total)) 2)
  final-InRange total h =
      let rest = sub (lit 1000 1) total in
      let top = fmax_below rest (lit 1000 1) (lit_nonneg 1000 1) (sub_le (lit 1000 1) total h) in
      (
        round-NotNegative (fmax fl (lit 0 1) rest) 1 (fmax-NotNegative rest),
        rw (round_lit 1000 1) at (round_mono (fmax fl (lit 0 1) rest) (lit 1000 1) 2 top),
      )

  score_unique-InRange :
      (unique : List (Finding F)) (dupes : ℕ)
      → InRange (score_unique fl lower unique dupes).final_score
  unfolding score_unique
  score_unique-InRange unique dupes =
      let groups = group_rows fl lower (map (row_of fl lower) unique) [] in
      final-InRange (cap_categories fl lower (zero_points fl lower) (sorted groups)).2 (
        cap_categories-NotNegative (zero_points fl lower) (sorted groups) (lit_nonneg 0 1) (
          sorted-AllFine groups
            (group_rows-AllFine (map (row_of fl lower) unique) [] (map-row_of-Fine unique) tt)))

  -- Whatever the findings, the final score is not below 0 and not above 100.
  pub compute_score-InRange :
      (fs : List (Finding F)) → InRange (compute_score fl lower fs).final_score
  unfolding compute_score
  compute_score-InRange [] = (lit_nonneg 1000 1, lt_irrefl (lit 1000 1))
  compute_score-InRange (f ∷ fs) =
      score_unique-InRange (dedupe [] (f ∷ fs)).0 (dedupe [] (f ∷ fs)).1
