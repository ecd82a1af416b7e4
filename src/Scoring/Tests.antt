-- ===== src/Scoring/Tests.antt =====
-- The engine's theorems at concrete findings, with fixed-point numbers in place of floats.
use agentic_dev_ops.Prelude.{ℕ, ◌+◌, ◌≡◌, refl, false, none, some, [], ◌∷◌, ◌++◌, map, ltb, length}
use mathlib.Core.List.{Perm}
use agentic_dev_ops.Prelude.Text.{Text, codes, text_eq, text_eq_instance}
use agentic_dev_ops.Float.Fixed.{fixed}
use agentic_dev_ops.Scoring.Engine.{
  Finding, Row, compute_score, dedupe, cap_category, category_cap, key_of, key_beq,
}
use agentic_dev_ops.Scoring.Engine.Dedupe.{
  firsts, dedupe_lem, SameScore, compute_score-append_duplicates,
}
use agentic_dev_ops.Scoring.Engine.Bounds.{
  InRange, NotNegative, cap_category_bounds, compute_score-InRange,
}
use agentic_dev_ops.Scoring.Engine.Rows.{ids, compute_score-ids}
use agentic_dev_ops.Prelude.Dict.{lookup}
use agentic_dev_ops.Scoring.Service.{score_run}
use agentic_dev_ops.Scoring.Service.Atomic.{Scored, score_run-Scored}
use agentic_dev_ops.Scoring.Service.Returns.{score_run-returns}
use agentic_dev_ops.Db.Session.{Ends, ok}
use agentic_dev_ops.Db.Tables.{Store, Score, score_of}
use agentic_dev_ops.Db.Tests.{Memory, memory_reliable, env, run_with, database}

abbrev same_text : Text → Text
same_text t = t

abbrev leak : Finding ℕ
leak = record {
  finding_id = codes "F-1";
  category = codes "security";
  severity = codes "critical";
  confidence = 9000;
  dedupe_key = some (codes "leak");
  object = 1;
}

abbrev smell : Finding ℕ
smell = record {
  finding_id = codes "F-2";
  category = codes "style";
  severity = codes "low";
  confidence = 10000;
  dedupe_key = none;
  object = 2;
}

abbrev leak_again : Finding ℕ
leak_again = record leak { finding_id = codes "F-3"; object = 3 }

compute_score-InRange_example :
    InRange fixed same_text (compute_score fixed same_text (leak ∷ smell ∷ [])).final_score
compute_score-InRange_example = compute_score-InRange fixed same_text (leak ∷ smell ∷ [])

compute_score-append_duplicates_example :
    SameScore fixed same_text
      (compute_score fixed same_text (leak ∷ ((smell ∷ []) ++ leak_again ∷ [])))
      (compute_score fixed same_text (leak ∷ smell ∷ []))
compute_score-append_duplicates_example =
    compute_score-append_duplicates fixed same_text leak (smell ∷ []) (leak_again ∷ [])
      (unfold key_of key_beq text_eq in (refl, tt))

compute_score-ids_example :
    Perm
      (ids fixed same_text
        (compute_score fixed same_text (leak ∷ smell ∷ leak_again ∷ [])).deductions)
      (map (λ g. g.finding_id) (dedupe [] (leak ∷ smell ∷ leak_again ∷ [])).0)
compute_score-ids_example = compute_score-ids fixed same_text leak (smell ∷ leak_again ∷ [])

dedupe_lem_example :
    ((dedupe [] (leak ∷ smell ∷ leak_again ∷ [])).0 ≡ firsts (leak ∷ smell ∷ leak_again ∷ []))
    × (length (dedupe [] (leak ∷ smell ∷ leak_again ∷ [])).0
          + (dedupe [] (leak ∷ smell ∷ leak_again ∷ [])).1
        ≡ 3)
dedupe_lem_example = dedupe_lem (leak ∷ smell ∷ leak_again ∷ [])

abbrev big_row : Row fixed same_text
big_row = record {
  finding_id = codes "F-1";
  category = codes "security";
  severity = codes "critical";
  confidence = 10000;
  base_deduction = 250000;
  actual_deduction = 250000;
  capped_deduction = 250000;
}

cap_category_bounds_example :
    (ltb
        (category_cap fixed same_text)
        (cap_category fixed same_text (codes "security", big_row ∷ big_row ∷ [])).2
      ≡ false)
    × NotNegative fixed same_text
        (cap_category fixed same_text (codes "security", big_row ∷ big_row ∷ [])).2
cap_category_bounds_example =
    cap_category_bounds fixed same_text (codes "security") (big_row ∷ big_row ∷ [])
      (refl, (refl, tt))

score_run-Scored_example :
    Ends
      (λ score t. Scored (codes "v1") 3 (database "agent_review_completed") score t.saved)
      (λ e t. t.saved ≡ database "agent_review_completed")
      (score_run (codes "v1") 3 (env.sessions.begin (database "agent_review_completed")))
score_run-Scored_example =
    score_run-Scored (codes "v1") 3 (env.sessions.begin (database "agent_review_completed"))

score_run-returns_example :
    (score : Score fixed same_text) × (t : Memory (Store fixed same_text)) × (score_run
        (codes "v1")
        3
        (env.sessions.begin (database "agent_review_completed"))
      ≡ ok score t)
score_run-returns_example =
    score_run-returns (codes "v1") (memory_reliable (Store fixed same_text)) 3
      (run_with "agent_review_completed") (env.sessions.begin (database "agent_review_completed"))
      refl (unfold lookup in refl) (unfold score_of in refl)
