-- ===== src/Worker/Phases/States.antt =====
-- The phases of the services, against the workflow of a run.
use agentic_dev_ops.Prelude.{
  ℕ, ◌≡◌, refl, sym, ap, subst, ◌∙◌, ◌⊎◌, inl, inr, Option, none, some, List, [], ◌∷◌, ◌++◌, map,
  String, nat_eq, arith,
}
use agentic_dev_ops.Prelude.Dict.{lookup}
use agentic_dev_ops.Prelude.Text.{Text}
use agentic_dev_ops.Scoring.Engine.{compute_score}
use agentic_dev_ops.Scoring.Service.{as_finding}
use agentic_dev_ops.Scoring.Service.Atomic.{Scored}
use agentic_dev_ops.Git.Service.{ingest}
use agentic_dev_ops.Git.Service.Ingested.{ingest-Ingesting}
use agentic_dev_ops.Agents.Service.{review_run}
use agentic_dev_ops.Agents.Service.Reviewed.{review_run-Reviewing}
use agentic_dev_ops.Db.Session.{Result, Ends, Ends-map, ok, failed}
use agentic_dev_ops.Db.Tables.{Tables, Score, Report, score_of, report_of, findings_of_run}
use agentic_dev_ops.Db.Daos.{Env, Rows, with_run_status}
use agentic_dev_ops.Worker.Pipeline.Ends.{Marked}
use agentic_dev_ops.Worker.Phases.Marks.{MarkedIn, mark_in-MarkedIn, services-Marks}
use agentic_dev_ops.Worker.Runs.{AnalysisRun}
use agentic_dev_ops.Worker.Pipeline.{
  PhaseEnd, finished, raised, ProviderEnd, no_provider, provider_ready, provider_raised,
  after_review, review_in, review_with, review_queried, review_for, then_phase,
}
use agentic_dev_ops.Worker.Phases.{Surroundings, phase_end, mark_in, review_end, services}
use agentic_dev_ops.Worker.Workflow.{
  status_of, Ingesting, Ingesting-Running, Reviewing, Reviewing-Running, Running, ingested,
  reviewed, scored, update_status-status,
}

-- The last row of a list in which the run has no other.
score_of-last :
    ⦃env : Env⦄ (run_id : ℕ) (rows : List (Score env.fl env.lower)) (row : Score env.fl env.lower)
    → score_of env.fl env.lower run_id rows ≡ none
    → row.run_id ≡ run_id
    → score_of env.fl env.lower run_id (rows ++ row ∷ []) ≡ some row
unfolding score_of
score_of-last run_id [] row new same = ground arith
score_of-last run_id (r ∷ rows) row new same = ground (arith, score_of-last run_id rows row)

module _ ⦃env : Env⦄ (around : Surroundings) (run_id : ℕ) (start : Option String)
    (timeout_text : Text) where
  open env use {fl, lower, sessions, now}
  open sessions use {Session, view, saved}

  abbrev pub End : Type 0
  End = PhaseEnd (Tables fl lower)

  abbrev pub Walk : Rows → Type 0
  Walk db = Running start (status_of run_id db.runs)

  abbrev pub Is : String → Rows → Type 0
  Is x db = Walk db × (status_of run_id db.runs ≡ some x)

  -- What holds after a phase that ends well; an exception leaves a status of the pipeline.
  abbrev pub After : (Rows → Type 0) → End → Type 0
  After P (finished db) = P db
  After P (raised e db) = Walk db

  pub then_phase-After :
      (P Q : Rows → Type 0) (end : End) (k : Rows → End)
      → After P end
      → ((db : Rows) → P db → After Q (k db))
      → After Q (then_phase (Tables fl lower) (services around) run_id timeout_text end k)
  unfolding then_phase
  then_phase-After P Q (finished db) k h f = f db h
  then_phase-After P Q (raised e db) k h f = h

  pub phase_end-After :
      {A : Type 0} (P : Rows → Type 0) (r : Result Session A)
      → Ends (λ a t. P (saved t)) (λ e t. Walk (saved t)) r
      → After P (phase_end around r)
  unfolding phase_end
  phase_end-After P (ok a s) h = h
  phase_end-After P (failed e s) h = h

  pub from_begin :
      (db : Rows) (x : Option String)
      → Walk db
      → Ingesting (status_of run_id (saved (sessions.begin db)).runs) x
      → Running start x
  from_begin db x walk r = Ingesting-Running (rw (sessions.saved-begin db) walk) r

  fresh : (db : Rows) → view (sessions.begin db) ≡ saved (sessions.begin db)
  fresh db = sessions.view-begin db ∙ sym (sessions.saved-begin db)

  pub ingest_phase :
      (db : Rows)
      → Walk db
      → After (Is "git_ingested") (phase_end around (ingest around.disk run_id (sessions.begin db)))
  ingest_phase db walk =
      phase_end-After (Is "git_ingested") (ingest around.disk run_id (sessions.begin db)) (
        Ends-map _ _ _ _ (ingest around.disk run_id (sessions.begin db))
          (λ rows t (x, units). (rw x ingested, x)) (λ e t r. from_begin db _ walk r)
          (ingest-Ingesting around.disk run_id (sessions.begin db) (fresh db)))

  -- After a write of a status, of a run that is there.
  pub write-After :
      (Q : Rows → Type 0) (status : String) (reason : Option Text) (old : String) (db : Rows)
      (end : End)
      → Walk db
      → status_of run_id db.runs ≡ some old
      → Marked (Tables fl lower) (services around) now run_id status reason db end
      → ((later : Rows)
          → later ≡ with_run_status run_id status reason db
          → status_of run_id later.runs ≡ some status
          → Q later)
      → After Q end
  write-After Q status reason old db (finished later) walk is h k = k later h (
      ap (λ (d : Rows). status_of run_id d.runs) h
      ∙ update_status-status now run_id status reason db.runs old is)
  write-After Q status reason old db (raised e later) walk is h k = subst Walk (sym h) walk

  -- A review that is cut short has committed a status of its own at most, and its session has not
  -- removed the run.
  abbrev pub KeepsRun : Type 0
  KeepsRun =
      (db : Rows) (s : Session)
      → status_of run_id db.runs ≡ some "git_ingested"
      → around.cancelled run_id db ≡ some s
      → (Reviewing (status_of run_id (saved s).runs)
          ⊎ status_of run_id (saved s).runs ≡ some "agent_review_completed")
        × ((old : String) × (status_of run_id (view s).runs ≡ some old))

  -- The status that a review that is cut short leaves.
  cut_walk : (x : Option String) → Reviewing x ⊎ x ≡ some "agent_review_completed" → Running start x
  cut_walk x (inl r) = Reviewing-Running r
  cut_walk x (inr e) = rw e reviewed

  timed_out-After :
      (Q : Rows → Type 0) (s : Session) (old : String) (end : End)
      → Running start (status_of run_id (saved s).runs)
      → status_of run_id (view s).runs ≡ some old
      → MarkedIn around run_id "failed" (some timeout_text) s end
      → After Q (
          then_phase
            (Tables fl lower)
            (services around)
            run_id
            timeout_text
            end
            (λ db. raised [] db))
  unfolding then_phase
  timed_out-After Q s old (finished db) walk is h =
      let x =
        ap (λ (d : Rows). status_of run_id d.runs) h
        ∙ update_status-status now run_id "failed" (some timeout_text) (view s).runs old is in
      rw x Running.failed
  timed_out-After Q s old (raised e db) walk is h = subst Walk (sym h) walk

  review_end-After :
      {A : Type 0} (db : Rows) (o : Option Session) (r : Result Session A)
      → KeepsRun
      → Is "git_ingested" db
      → around.cancelled run_id db ≡ o
      → Ends (λ a t. Is "agent_review_completed" (saved t)) (λ e t. Walk (saved t)) r
      → After (Is "agent_review_completed") (
          after_review
            (Tables fl lower)
            (services around)
            run_id
            timeout_text
            (review_end around run_id o r))
  unfolding after_review review_end
  review_end-After db (some s) r keeps (walk, is) cut h =
      let (x, (old, was)) = keeps db s is cut in
      timed_out-After (Is "agent_review_completed") s old
        (mark_in around run_id "failed" (some timeout_text) s) (cut_walk _ x) was
        (mark_in-MarkedIn around run_id "failed" (some timeout_text) s)
  review_end-After db none (ok a s) keeps is cut h = h
  review_end-After db none (failed e s) keeps is cut h = h

  review_in-After :
      (provider : around.Provider) (db : Rows) (run : AnalysisRun) (o : Option Text)
      → KeepsRun
      → Is "git_ingested" db
      → After
          (Is "agent_review_completed")
          (review_in (Tables fl lower) (services around) run_id timeout_text provider db run o)
  unfolding review_in
  review_in-After provider db run (some e) keeps is = is.0
  review_in-After provider db run none keeps is =
      let r =
        review_run (around.reviewers provider) around.at around.validate run_id
          (sessions.begin db) in
      review_end-After db (around.cancelled run_id db) r keeps is refl (
        Ends-map _ _ _ _ r (λ rows t (x, found). (rw x reviewed, x))
          (λ e t (q, found). Reviewing-Running q)
          (review_run-Reviewing (around.reviewers provider) around.at around.validate run_id
            (sessions.begin db) (fresh db) (rw (sessions.saved-begin db) is.1)))

  review_with-After :
      (provider : around.Provider) (db : Rows) (o : Option AnalysisRun)
      → KeepsRun
      → Is "git_ingested" db
      → After
          (Is "agent_review_completed")
          (review_with (Tables fl lower) (services around) run_id timeout_text provider db o)
  unfolding review_with
  review_with-After provider db none keeps is = is.0
  review_with-After provider db (some run) keeps is =
      review_in-After provider db run (around.repo_problem run.repository_id) keeps is

  review_queried-After :
      (provider : around.Provider) (db : Rows) (o : Option Text)
      → KeepsRun
      → Is "git_ingested" db
      → After
          (Is "agent_review_completed")
          (review_queried (Tables fl lower) (services around) run_id timeout_text provider db o)
  unfolding review_queried
  review_queried-After provider db (some e) keeps is = is.0
  review_queried-After provider db none keeps is =
      review_with-After provider db (lookup run_id db.runs) keeps is

  pub review_for-After :
      (db : Rows) (o : ProviderEnd (Tables fl lower) around.Provider)
      → KeepsRun
      → Is "git_ingested" db
      → After
          (Is "agent_review_completed")
          (review_for (Tables fl lower) (services around) run_id timeout_text db o)
  unfolding review_for
  review_for-After db no_provider keeps is =
      write-After (Is "agent_review_completed") "agent_review_completed" none "git_ingested" db
        (mark_in around run_id "agent_review_completed" none (sessions.begin db)) is.0 is.1
        (services-Marks around run_id "agent_review_completed" none db)
        (λ later e x. (rw x reviewed, x))
  review_for-After db (provider_raised e) keeps is = is.0
  review_for-After db (provider_ready p) keeps is =
      review_queried-After p db (sessions.problem (sessions.begin db)) keeps is

  -- The run's score is that of its findings, and its report is there.
  abbrev pub HasScore : Rows → Type 0
  HasScore db =
      (score : Score fl lower) × (score_of fl lower run_id db.rest.scores ≡ some score)
      × (score.result
          ≡ compute_score fl lower (
              map (as_finding around.scoring_version)
                (findings_of_run fl lower run_id db.rest.findings)))

  abbrev pub HasReport : Rows → Type 0
  HasReport db = (report : Report) × (report_of run_id db.rest.reports ≡ some report)

  pub Scored-state :
      (before after : Rows) (score : Score fl lower)
      → Is "agent_review_completed" before
      → Scored around.scoring_version run_id before score after
      → Is "scored" after × HasScore after
  Scored-state before after score is (new, mine, result, rows, same, runs) =
      let x =
        ap (status_of run_id) runs
        ∙ update_status-status now run_id "scored" none before.runs "agent_review_completed" is.1 in
      (
        (rw x scored, x),
        (
          score,
          ap (score_of fl lower run_id) rows
              ∙ score_of-last run_id before.rest.scores score new mine,
          result
              ∙ ap
                  (λ fs.
                    compute_score fl lower (
                      map (as_finding around.scoring_version) (findings_of_run fl lower run_id fs)))
                  (sym same),
        ),
      )
