-- ===== src/Scoring/Engine.antt =====
-- packages/scoring/devmanager_scoring/engine.py: the deterministic score of a run.
-- Floats are the parameter `fl`, `str.lower` is the parameter `lower`. Messages are kept as data:
-- a cap is its category and raw total, a limitation is a constructor.
pub mod Dedupe
pub mod Rows
pub mod Bounds
use agentic_dev_ops.Prelude.{
  ℕ, zero, suc, ◌+◌, Bool, true, false, ◌||◌, ◌&&◌, Option, none, some, List, [], ◌∷◌, ◌++◌, String,
  map, ltb, nat_beq, nat_beq_iff, nat_eq, ◌==◌, Eq, ◌≡◌, ◌↔◌, any, length, arith, is_nil,
  if◌then◌else◌,
}
use agentic_dev_ops.Prelude.Dict.{Dict, lookup, insert}
use agentic_dev_ops.Prelude.Text.{Text, codes, text_eq, text_eq_iff, text_eq_instance}
use agentic_dev_ops.Prelude.Order.{text_lt}
use agentic_dev_ops.Float.{Float, fmax, fmin}

-- What the engine reads of a finding. `object` is the identity that `id` returns.
pub record Finding (F : Type 0) : Type 0 where
  pub finding_id : Text
  pub category : Text
  pub severity : Text
  pub confidence : F
  pub dedupe_key : Option Text
  pub object : ℕ

-- The key of a finding: a text, or the identity of the object.
pub data Key : Type 0 where
  text : Text → Key
  object : ℕ → Key

unfoldable pub key_beq : Key → Key → Bool
key_beq (text s) (text t) = text_eq s t
key_beq (text s) (object n) = false
key_beq (object m) (text t) = false
key_beq (object m) (object n) = nat_beq m n

pub key_beq_iff : (a b : Key) → (key_beq a b ≡ true) ↔ (a ≡ b)
unfolding key_beq
key_beq_iff (text s) (text t) = ground (arith, text_eq_iff s t)
key_beq_iff (text s) (object n) = ground arith
key_beq_iff (object m) (text t) = ground arith
key_beq_iff (object m) (object n) = ground arith

instance abbrev pub key_eq : Eq Key
key_eq = record { equal = key_beq; decides = key_beq_iff }

-- `a or b`: an empty text counts as missing.
unfoldable pub id_or_object : Text → ℕ → Key
id_or_object [] n = object n
id_or_object (c ∷ s) n = text (c ∷ s)

unfoldable pub key_of : {F : Type 0} → Finding F → Key
unfolding id_or_object
key_of f = elim f.dedupe_key [
  | none ↦ id_or_object f.finding_id f.object
  | some k ↦ if is_nil k then id_or_object f.finding_id f.object else text k
]

-- Step 1: the findings whose key was not seen before, and the number of the others.
unfoldable pub dedupe : {F : Type 0} → List Key → List (Finding F) → List (Finding F) × ℕ
dedupe seen [] = ([], 0)
dedupe seen (f ∷ fs) =
    let known = any (λ k. k == key_of f) seen in
    let (unique, dupes) = dedupe (if known then seen else key_of f ∷ seen) fs in
    if known then (unique, dupes + 1) else (f ∷ unique, dupes)

-- `sorted(d.items())`: the keys of a dictionary differ, so that they decide the order.
unfoldable pub insert_sorted : {V : Type 0} → Text × V → List (Text × V) → List (Text × V)
insert_sorted e [] = e ∷ []
insert_sorted e (d ∷ ds) = if text_lt d.0 e.0 then d ∷ insert_sorted e ds else e ∷ d ∷ ds

unfoldable pub sorted : {V : Type 0} → List (Text × V) → List (Text × V)
unfolding insert_sorted
sorted [] = []
sorted (e ∷ es) = insert_sorted e (sorted es)

pub data Limitation : Type 0 where
  no_findings : Limitation
  duplicates_removed : ℕ → Limitation

module _ (fl : Float) (lower : Text → Text) where
  open fl use {F, lit, add, sub, mul, div, round, lt, le}

  pub record Row : Type 0 where
    pub finding_id : Text
    pub category : Text
    pub severity : Text
    pub confidence : F
    pub base_deduction : F
    pub actual_deduction : F
    pub capped_deduction : F

  pub record ScoreResult : Type 0 where
    pub final_score : F
    pub grade : String
    pub confidence : F
    pub deductions : List Row
    pub caps : List (Text × F)
    pub limitations : List Limitation

  abbrev pub zero_points : F
  zero_points = lit 0 1

  -- `_BASE_DEDUCTIONS.get(severity, 0.5)`
  unfoldable pub base_deduction : Text → F
  base_deduction sev =
      if codes "critical" == sev
      then lit 250 1
      else if codes "high" == sev
      then lit 100 1
      else if codes "medium" == sev
      then lit 50 1
      else if codes "low" == sev
      then lit 20 1
      else lit 5 1

  abbrev pub category_cap : F
  category_cap = lit 350 1

  unfoldable pub grade_of : F → String
  grade_of score =
      if le (lit 900 1) score
      then "A"
      else if le (lit 750 1) score
      then "B"
      else if le (lit 600 1) score
      then "C"
      else if le (lit 400 1) score
      then "D"
      else "F"

  -- `max(0.0, min(1.0, confidence))`
  unfoldable pub clamp_confidence : F → F
  unfolding fmax fmin
  clamp_confidence c = fmax fl (lit 0 1) (fmin fl (lit 10 1) c)

  -- Step 2. `capped_deduction` is set in step 3.
  unfoldable pub row_of : Finding F → Row
  unfolding base_deduction clamp_confidence
  row_of f =
      let sev = lower f.severity in
      let base = base_deduction sev in
      let conf = clamp_confidence f.confidence in
      let actual = round (mul base conf) 4 in
      record {
        finding_id = f.finding_id;
        category = lower f.category;
        severity = sev;
        confidence = conf;
        base_deduction = base;
        actual_deduction = actual;
        capped_deduction = actual;
      }

  -- `category_details.setdefault(cat, []).append(row)`
  unfoldable pub append_row : Row → Dict Text (List Row) → Dict Text (List Row)
  append_row r [] = (r.category, r ∷ []) ∷ []
  append_row r ((cat, rows) ∷ d) =
      if cat == r.category then (cat, rows ++ r ∷ []) ∷ d else (cat, rows) ∷ append_row r d

  unfoldable pub group_rows : List Row → Dict Text (List Row) → Dict Text (List Row)
  unfolding append_row
  group_rows [] d = d
  group_rows (r ∷ rs) d = group_rows rs (append_row r d)

  unfoldable pub sum_actual : F → List Row → F
  sum_actual acc [] = acc
  sum_actual acc (r ∷ rs) = sum_actual (add acc r.actual_deduction) rs

  unfoldable pub scale_row : F → Row → Row
  scale_row ratio r = record r { capped_deduction = round (mul r.actual_deduction ratio) 4 }

  -- Step 3 for one category: its rows, its caps and what it takes off.
  unfoldable pub cap_category : Text × List Row → List Row × List (Text × F) × F
  unfolding sum_actual scale_row
  cap_category (cat, rows) =
      let total = sum_actual zero_points rows in
      if lt category_cap total
      then (map (scale_row (div category_cap total)) rows, (cat, total) ∷ [], category_cap)
      else (rows, [], total)

  unfoldable pub cap_categories : F → List (Text × List Row) → List Row × List (Text × F) × F
  unfolding cap_category
  cap_categories total [] = ([], [], total)
  cap_categories total (c ∷ cs) =
      let (rows, caps, points) = cap_category c in
      let (more_rows, more_caps, sum) = cap_categories (add total points) cs in
      (rows ++ more_rows, caps ++ more_caps, sum)

  -- The two sums of the weighted confidence.
  unfoldable pub weigh : F → F → List Row → F × F
  weigh num den [] = (num, den)
  weigh num den (r ∷ rs) =
      weigh (add num (mul r.confidence r.base_deduction)) (add den r.base_deduction) rs

  unfoldable pub score_unique : List (Finding F) → ℕ → ScoreResult
  unfolding row_of group_rows sorted cap_categories weigh
  score_unique unique dupes =
      let rows = map row_of unique in
      let (num, den) = weigh zero_points zero_points rows in
      let (deductions, caps, total) = cap_categories zero_points (sorted (group_rows rows [])) in
      let final = round (fmax fl (lit 0 1) (sub (lit 1000 1) total)) 2 in
      record {
        final_score = final;
        grade = grade_of final;
        confidence = if lt zero_points den then round (div num den) 3 else lit 10 1;
        deductions = deductions;
        caps = caps;
        limitations = if ltb 0 dupes then duplicates_removed dupes ∷ [] else [];
      }

  unfoldable pub compute_score : List (Finding F) → ScoreResult
  unfolding dedupe score_unique
  compute_score [] = record {
    final_score = lit 1000 1;
    grade = "A";
    confidence = lit 10 1;
    deductions = [];
    caps = [];
    limitations = no_findings ∷ [];
  }
  compute_score (f ∷ fs) = let (unique, dupes) = dedupe [] (f ∷ fs) in score_unique unique dupes
