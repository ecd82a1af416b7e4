-- ===== src/Agents/Enrich.antt =====
-- packages/agents/devmanager_agents/service.py, `_enrich_finding` and what `review_run` adds to a
-- finding. A finding is the object that the model wrote: any field may be missing or of any type.
-- `int`, `float`, `str` of such a value, the truth of a float and SHA-256 are parameters.
pub mod Ranges
use agentic_dev_ops.Prelude.{
  ℕ, Bool, true, false, not, Option, none, some, List, [], ◌∷◌, ◌++◌, is_nil, ltb, max,
  if◌then◌else◌,
}
use agentic_dev_ops.Prelude.Int.{ℤ, pos, negsuc}
use agentic_dev_ops.Prelude.Text.{Text, codes}
use agentic_dev_ops.Float.{Float, fmax, fmin}

pub data Value (F : Type 0) : Type 0 where
  null : Value F
  bool : Bool → Value F
  int : ℤ → Value F
  float : F → Value F
  text : Text → Value F
  -- A list of texts, a list of other things (each by a number that names it), and an object, empty
  -- or not.
  texts : List Text → Value F
  things : List ℕ → Value F
  object : Bool → Value F

-- How a conversion ends: TypeError and ValueError are caught, OverflowError is not.
pub data Converted (A : Type 0) : Type 0 where
  converted : A → Converted A
  refused : Converted A
  overflow : Converted A

pub record RawFinding (F : Type 0) : Type 0 where
  pub repository : Option (Value F)
  pub file : Option (Value F)
  pub category : Option (Value F)
  pub severity : Option (Value F)
  pub confidence : Option (Value F)
  pub start_line : Option (Value F)
  pub end_line : Option (Value F)
  pub observation : Option (Value F)
  pub impact : Option (Value F)
  pub recommendation : Option (Value F)
  pub verification : Option (Value F)
  pub evidence_refs : Option (Value F)
  pub related_knowledge_refs : Option (Value F)

-- Python's builtins on such a value.
pub record Builtins (fl : Float) : Type 0 where
  pub to_int : Value fl.F → Converted ℤ
  pub to_float : Value fl.F → Converted fl.F
  pub show : Value fl.F → Text
  pub is_truthy : fl.F → Bool
  pub decimal : ℕ → Text
  pub sha256 : Text → Text

-- The part of a change unit that a finding is completed from.
pub record Context : Type 0 where
  pub repository_full_name : Text
  pub file_path : Text

-- `f.get(k, default)`
abbrev pub value_or : {A : Type 0} → Option A → A → A
value_or none d = d
value_or (some v) d = v

-- `max(1, n)` and `max(start, n)`
abbrev pub at_least : ℕ → ℤ → ℕ
at_least low (pos n) = max low n
at_least low (negsuc n) = low

module _ (fl : Float) (py : Builtins fl) where
  open fl use {F, lit}
  open py use {to_int, to_float, show, is_truthy, decimal, sha256}

  unfoldable pub truth : Option (Value F) → Bool
  truth none = false
  truth (some null) = false
  truth (some (bool b)) = b
  truth (some (int (pos n))) = ltb 0 n
  truth (some (int (negsuc n))) = true
  truth (some (float x)) = is_truthy x
  truth (some (text t)) = not (is_nil t)
  truth (some (texts l)) = not (is_nil l)
  truth (some (things l)) = not (is_nil l)
  truth (some (object b)) = b

  -- `if not f.get(k): f[k] = ...`
  abbrev pub filled : Value F → Option (Value F) → Option (Value F)
  filled d o = if truth o then o else some d

  abbrev pub file_text : Context → Option (Value F) → Text
  file_text cx o = show (value_or (filled (text cx.file_path) o) null)

  abbrev pub start_value : RawFinding F → Value F
  start_value f = value_or f.start_line (int (pos 1))

  -- `diff:{file}:{s}-{e}`, from the lines as the model gave them.
  unfoldable pub evidence_of : Context → RawFinding F → Text
  unfolding truth
  evidence_of cx f =
      codes "diff:"
      ++ (file_text cx f.file
          ++ (codes ":"
              ++ (show (start_value f)
                  ++ (codes "-" ++ show (value_or f.end_line (start_value f))))))

  -- The lines: both are 1 if one of them is no number.
  unfoldable pub end_from : ℕ → Converted ℤ → Converted (ℕ × ℕ)
  end_from start (converted e) = converted (start, at_least start e)
  end_from start refused = converted (1, 1)
  end_from start overflow = overflow

  unfoldable pub lines_from : Option (Value F) → Converted ℤ → Converted (ℕ × ℕ)
  unfolding end_from
  lines_from last (converted s) =
      let start = at_least 1 s in end_from start (to_int (value_or last (int (pos start))))
  lines_from last refused = converted (1, 1)
  lines_from last overflow = overflow

  unfoldable pub lines_of : RawFinding F → Converted (ℕ × ℕ)
  unfolding lines_from
  lines_of f = lines_from f.end_line (to_int (start_value f))

  -- `max(0.0, min(1.0, x))`, and 0.7 for what is no number.
  unfoldable pub confidence_from : Converted F → Converted F
  unfolding fmax fmin
  confidence_from (converted x) = converted (fmax fl (lit 0 1) (fmin fl (lit 10 1) x))
  confidence_from refused = converted (lit 7 1)
  confidence_from overflow = overflow

  unfoldable pub confidence_of : RawFinding F → Converted F
  unfolding confidence_from
  confidence_of f = confidence_from (to_float (value_or f.confidence (float (lit 7 1))))

  abbrev pub see_diff : Context → RawFinding F → Value F
  see_diff cx f = text (codes "(see diff: " ++ (file_text cx f.file ++ codes ")"))

  unfoldable pub completed :
      Context → RawFinding F → Converted (ℕ × ℕ) → Converted F → Option (RawFinding F)
  unfolding evidence_of
  completed cx f (converted (start, end)) (converted conf) = some (record f {
    repository = some (value_or f.repository (text cx.repository_full_name));
    file = filled (text cx.file_path) f.file;
    evidence_refs = filled (texts (evidence_of cx f ∷ [])) f.evidence_refs;
    start_line = some (int (pos start));
    end_line = some (int (pos end));
    confidence = some (float conf);
    observation = filled (see_diff cx f) f.observation;
    impact = filled (see_diff cx f) f.impact;
    recommendation = filled (see_diff cx f) f.recommendation;
    verification = filled (see_diff cx f) f.verification;
  })
  completed cx f (converted lines) refused = none
  completed cx f (converted lines) overflow = none
  completed cx f refused conf = none
  completed cx f overflow conf = none

  -- No result stands for an exception.
  unfoldable pub enrich_finding : Context → RawFinding F → Option (RawFinding F)
  unfolding lines_of confidence_of completed
  enrich_finding cx f = completed cx f (lines_of f) (confidence_of f)
