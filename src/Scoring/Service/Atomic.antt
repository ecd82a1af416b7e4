-- ===== src/Scoring/Service/Atomic.antt =====
-- What `score_run` commits.
use agentic_dev_ops.Prelude.{ℕ, ◌≡◌, refl, ap, ◌∙◌, Option, none, some, [], ◌∷◌, ◌++◌, map, nat_eq}
use agentic_dev_ops.Prelude.Dict.{lookup}
use agentic_dev_ops.Prelude.Text.{Text}
use agentic_dev_ops.Scoring.Engine.{compute_score}
use agentic_dev_ops.Scoring.Service.{
  as_finding, score_findings, score_unless, score_existing, score_run,
}
use agentic_dev_ops.Db.Session.{Ends}
use agentic_dev_ops.Db.Tables.{Score, add_event, add_score, score_of, findings_of_run}
use agentic_dev_ops.Db.Daos.{
  with_run_status, Env, Rows, get_run, get_score, list_findings, create_score,
}
use agentic_dev_ops.Db.Daos.Rules.{
  Post, reading_rule, update_rule, audited_rule, added_rule, unless_some,
}
use agentic_dev_ops.Worker.Runs.{AnalysisRun, update_status}

module _ ⦃env : Env⦄ (scoring_version : Text) where
  open env use {fl, lower, sessions, now}
  open sessions use {Session, view, saved}

  -- A run without a score has got the score of its findings and the status "scored".
  abbrev pub Scored : ℕ → Rows → Score fl lower → Rows → Type 0
  Scored run_id before score after =
      (score_of fl lower run_id before.rest.scores ≡ none)
      × (score.run_id ≡ run_id)
      × (score.result
          ≡ compute_score fl lower (
              map (as_finding scoring_version)
                (findings_of_run fl lower run_id before.rest.findings)))
      × (after.rest.scores ≡ before.rest.scores ++ score ∷ [])
      × (after.rest.findings ≡ before.rest.findings)
      × (after.runs ≡ update_status now run_id "scored" none before.runs)

  score_findings-Scored :
      (run_id : ℕ) (s : Session)
      → score_of fl lower run_id (view s).rest.scores ≡ none
      → Post
          (λ score t. Scored run_id (view s) score (saved t))
          (λ db. db ≡ saved s)
          (score_findings scoring_version run_id
            (findings_of_run fl lower run_id (view s).rest.findings)
            s)
  unfolding score_findings create_score add_score
  score_findings-Scored run_id s new =
      let R = λ (score : Score fl lower) (t : Session). Scored run_id (view s) score (saved t) in
      let E = λ (db : Rows). db ≡ saved s in
      added_rule R E _ _ s _ refl λ t seen kept.
        update_rule R E run_id "scored" none t _ kept λ u fine changed still.
          audited_rule R E _ u _ (still ∙ kept) λ v same now.
            let e =
              now
              ∙ ap (add_event fl lower _) (
                  changed
                  ∙ ap (with_run_status run_id "scored" none) (unless_some _ _ (view t) seen)) in
            (
              new,
              refl,
              refl,
              ap (λ (db : Rows). db.rest.scores) e,
              ap (λ (db : Rows). db.rest.findings) e,
              ap (λ (db : Rows). db.runs) e,
            )

  score_unless-Scored :
      (run_id : ℕ) (s : Session) (o : Option (Score fl lower))
      → score_of fl lower run_id (view s).rest.scores ≡ o
      → Post
          (λ score t. Scored run_id (view s) score (saved t))
          (λ db. db ≡ saved s)
          (score_unless scoring_version run_id o s)
  unfolding score_unless list_findings
  score_unless-Scored run_id s (some old) e = refl
  score_unless-Scored run_id s none e =
      reading_rule (λ score t. Scored run_id (view s) score (saved t)) (λ db. db ≡ saved s)
        (λ (db : Rows). findings_of_run fl lower run_id db.rest.findings) s
        (score_findings scoring_version run_id) refl (score_findings-Scored run_id s e)

  score_existing-Scored :
      (run_id : ℕ) (s : Session) (o : Option AnalysisRun)
      → Post
          (λ score t. Scored run_id (view s) score (saved t))
          (λ db. db ≡ saved s)
          (score_existing scoring_version run_id o s)
  unfolding score_existing get_score
  score_existing-Scored run_id s none = refl
  score_existing-Scored run_id s (some run) =
      reading_rule (λ score t. Scored run_id (view s) score (saved t)) (λ db. db ≡ saved s)
        (λ (db : Rows). score_of fl lower run_id db.rest.scores) s
        (score_unless scoring_version run_id) refl (score_unless-Scored run_id s _ refl)

  -- Scoring is atomic, whatever write, audit event or commit the session refuses: if `score_run`
  -- returns a score, exactly that score of the run's findings is added to what is committed, to a run
  -- that had none, and the run is "scored"; if it raises, nothing is committed.
  pub score_run-Scored :
      (run_id : ℕ) (s : Session)
      → Ends
          (λ score t. Scored run_id (view s) score (saved t))
          (λ e t. saved t ≡ saved s)
          (score_run scoring_version run_id s)
  unfolding score_run get_run
  score_run-Scored run_id s =
      reading_rule (λ score t. Scored run_id (view s) score (saved t)) (λ db. db ≡ saved s)
        (λ (db : Rows). lookup run_id db.runs) s (score_existing scoring_version run_id) refl
        (score_existing-Scored run_id s (lookup run_id (view s).runs))
