-- ===== src/Scoring/Service/Returns.antt =====
-- When `score_run` returns.
use agentic_dev_ops.Prelude.{
  ℕ, ◌≡◌, refl, ap, ◌∙◌, false, Option, none, some, List, [], ◌∷◌, ◌++◌, map, any, String, nat_eq,
  nat_beq, arith,
}
use agentic_dev_ops.Prelude.Dict.{lookup}
use agentic_dev_ops.Prelude.Text.{Text}
use agentic_dev_ops.Db.Session.{IsReliable, Result, ok, and_then, and_then_assoc, ignored, pure}
use agentic_dev_ops.Db.Tables.{
  Score, FindingRow, AuditEvent, add_score, add_event, score_of, findings_of_run,
}
use agentic_dev_ops.Db.Daos.{
  Env, Rows, Do, commit, reading, get_run, get_score, list_findings, create_score, new_score,
  update_run, update_found, append, with_run_status,
}
use agentic_dev_ops.Scoring.Engine.{compute_score}
use agentic_dev_ops.Scoring.Service.{
  as_finding, score_findings, score_unless, score_existing, score_run,
}
use agentic_dev_ops.Worker.Runs.{AnalysisRun}

score_of-any :
    ⦃env : Env⦄ (run_id : ℕ) (rows : List (Score env.fl env.lower))
    → score_of env.fl env.lower run_id rows ≡ none
    → any (λ s. nat_beq s.run_id run_id) rows ≡ false
unfolding score_of
score_of-any run_id [] h = refl
score_of-any run_id (r ∷ rows) h = ground (arith, score_of-any run_id rows)

module _ ⦃env : Env⦄ (scoring_version : Text) (reliable : IsReliable env.sessions) where
  open env use {fl, lower, sessions}
  open sessions use {Session, view, problem, write}

  abbrev Returns : {A : Type 0} → Result Session A → Type 0
  Returns {A = A} r = (a : A) × (t : Session) × (r ≡ ok a t)

  read-Returns :
      {A B : Type 0} (f : Rows → A) (s : Session) (k : A → Do B)
      → problem s ≡ none
      → Returns (k (f (view s)) s)
      → Returns (and_then (reading f s) k)
  unfolding reading
  read-Returns f s k fine h = rw fine h

  write-Returns :
      {B : Type 0} (f : Rows → Option Rows) (later : Rows) (s : Session) (k : Unit {0} → Do B)
      → problem s ≡ none
      → f (view s) ≡ some later
      → ((t : Session) → problem t ≡ none → view t ≡ later → Returns (k tt t))
      → Returns (and_then (write f s) k)
  write-Returns f later s k fine e h =
      let (t, done, ready, seen) = reliable.writes f s later fine e in rw done (h t ready seen)

  commit-Returns :
      {B : Type 0} (s : Session) (k : Unit {0} → Do B)
      → problem s ≡ none
      → ((t : Session) → Returns (k tt t))
      → Returns (and_then (commit s) k)
  commit-Returns s k fine h = let (t, done, ready) = reliable.commits s fine in rw done (h t)

  event-Returns :
      {B : Type 0} (event : AuditEvent fl lower) (s : Session) (k : Unit {0} → Do B)
      → problem s ≡ none
      → ((t : Session) → problem t ≡ none → Returns (k tt t))
      → Returns (and_then (ignored (append event s)) k)
  unfolding append
  event-Returns event s k fine h =
      let (t, done, ready, seen) =
        reliable.writes (λ (db : Rows). some (add_event fl lower event db)) s _ fine refl in
      rw done (h t ready)

  update-Returns :
      {B : Type 0} (run_id : ℕ) (status : String) (run : AnalysisRun) (s : Session)
      (k : Unit {0} → Do B)
      → problem s ≡ none
      → lookup run_id (view s).runs ≡ some run
      → ((t : Session) → problem t ≡ none → Returns (k tt t))
      → Returns (and_then (update_run run_id status none s) k)
  unfolding update_run get_run update_found
  update-Returns run_id status run s k fine found h =
      rw (and_then_assoc (get_run run_id s) (update_found run_id status none) k) (
        read-Returns (λ (db : Rows). lookup run_id db.runs) s
          (λ o t. and_then (update_found run_id status none o t) k) fine
          (rw found (
            write-Returns (λ (db : Rows). some (with_run_status run_id status none db)) _ s k fine
              refl (λ t ready seen. h t ready))))

  findings-Returns :
      (run_id : ℕ) (run : AnalysisRun) (rows : List (FindingRow fl lower)) (s : Session)
      → problem s ≡ none
      → lookup run_id (view s).runs ≡ some run
      → score_of fl lower run_id (view s).rest.scores ≡ none
      → Returns (score_findings scoring_version run_id rows s)
  unfolding score_findings create_score add_score
  findings-Returns run_id run rows s fine found new =
      let result = compute_score fl lower (map (as_finding scoring_version) rows) in
      let row = new_score run_id scoring_version result (view s) in
      rw (and_then_assoc (write (add_score fl lower row) s) (λ _. pure row) _) (
        write-Returns (add_score fl lower row)
          (record (view s) {
            rest = record (view s).rest { scores = (view s).rest.scores ++ row ∷ [] };
          })
          s _ fine (rw (score_of-any run_id (view s).rest.scores new) refl)
          λ t ready seen.
            update-Returns run_id "scored" run t _ ready
              (ap (λ (db : Rows). lookup run_id db.runs) seen ∙ found)
              λ u good.
                event-Returns _ u _ good λ v well. commit-Returns v _ well λ w. (row, w, refl))

  unless-Returns :
      (run_id : ℕ) (run : AnalysisRun) (s : Session) (o : Option (Score fl lower))
      → problem s ≡ none
      → lookup run_id (view s).runs ≡ some run
      → score_of fl lower run_id (view s).rest.scores ≡ o
      → o ≡ none
      → Returns (score_unless scoring_version run_id o s)
  unfolding score_unless list_findings
  unless-Returns run_id run s (some old) fine found e new = absurd (cc)
  unless-Returns run_id run s none fine found e new =
      read-Returns (λ (db : Rows). findings_of_run fl lower run_id db.rest.findings) s
        (score_findings scoring_version run_id) fine (findings-Returns run_id run _ s fine found e)

  existing-Returns :
      (run_id : ℕ) (run : AnalysisRun) (s : Session) (o : Option AnalysisRun)
      → problem s ≡ none
      → lookup run_id (view s).runs ≡ some run
      → o ≡ some run
      → score_of fl lower run_id (view s).rest.scores ≡ none
      → Returns (score_existing scoring_version run_id o s)
  unfolding score_existing get_score
  existing-Returns run_id run s none fine found e new = absurd (cc)
  existing-Returns run_id run s (some r) fine found e new =
      read-Returns (λ (db : Rows). score_of fl lower run_id db.rest.scores) s
        (score_unless scoring_version run_id) fine
        (unless-Returns run_id run s _ fine found refl new)

  -- With a session that refuses nothing but what breaks a constraint, the scoring of a run that is
  -- there and has no score returns a score: the write of the score breaks no constraint.
  pub score_run-returns :
      (run_id : ℕ) (run : AnalysisRun) (s : Session)
      → problem s ≡ none
      → lookup run_id (view s).runs ≡ some run
      → score_of fl lower run_id (view s).rest.scores ≡ none
      → (score : Score fl lower) × (t : Session) × (score_run scoring_version run_id s ≡ ok score t)
  unfolding score_run get_run
  score_run-returns run_id run s fine found new =
      read-Returns (λ (db : Rows). lookup run_id db.runs) s (score_existing scoring_version run_id)
        fine (existing-Returns run_id run s _ fine found found new)
