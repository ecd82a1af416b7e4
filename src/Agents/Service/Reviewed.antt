-- ===== src/Agents/Service/Reviewed.antt =====
-- What `review_run` commits.
use agentic_dev_ops.Prelude.{
  ℕ, ◌≡◌, refl, sym, ap, subst, ◌∙◌, Option, none, some, List, [], ◌∷◌, ◌++◌, String, nat_eq,
}
use mathlib.Core.List.{append-nil}
use agentic_dev_ops.Prelude.Dict.{lookup}
use agentic_dev_ops.Prelude.Text.{Text}
use agentic_dev_ops.Db.Session.{Result, Ends, ok, failed, and_then}
use agentic_dev_ops.Db.Tables.{UnitRow, FindingRow, add_event, units_of_run}
use agentic_dev_ops.Db.Daos.{Env, Rows, Do, get_run, list_units, with_run_status}
use agentic_dev_ops.Db.Daos.Rules.{Post, reading_rule, update_rule, audited_rule, commit_rule}
use agentic_dev_ops.Agents.Filters.{OnDisk}
use agentic_dev_ops.Agents.Enrich.{RawFinding}
use agentic_dev_ops.Agents.Numbering.{Reviewers, Numbered, number_from}
use agentic_dev_ops.Agents.Service.Kept.{Walk, At, Never, run_agents-At, persist-At}
use agentic_dev_ops.Agents.Service.{
  persist, run_agents, store_findings, review_units, reviewable, started_event, start_review,
  review_existing, review_run,
}
use agentic_dev_ops.Worker.Runs.{AnalysisRun}
use agentic_dev_ops.Worker.Workflow.{
  status_of, Reviewing, not_started, started, update_status-status,
}

module _ ⦃env : Env⦄ (reviewers : Reviewers env.fl) (at : UnitRow → Text → OnDisk)
    (validate : Numbered env.fl.F → List Text) (run_id : ℕ)
    (start : List (FindingRow env.fl env.lower)) where
  open env use {fl, lower, sessions, now}
  open sessions use {Session, view, saved, problem, write, write_lem}

  abbrev Moved : Rows → Type 0
  Moved = Walk reviewers at validate run_id start

  abbrev Not : Text → Session → Type 0
  Not = Never reviewers at validate run_id start

  abbrev Before : String → List (FindingRow fl lower) → Session → Type 0
  Before = At reviewers at validate run_id start

  -- The run is reviewed, and the returned rows are stored behind those that were there.
  abbrev End : List (FindingRow fl lower) → List (FindingRow fl lower) → Session → Type 0
  End before rows t =
      (status_of run_id (saved t).runs ≡ some "agent_review_completed")
      × ((saved t).rest.findings ≡ before ++ rows)

  never_rule :
      {A B : Type 0} (P : A → Session → Type 0) (Q : B → Session → Type 0) (r : Result Session A)
      (k : A → Do B)
      → Ends P Not r
      → ((a : A) (t : Session) → P a t → Post Q Moved (k a t))
      → Post Q Moved (and_then r k)
  never_rule P Q (ok a t) k h f = f a t h
  never_rule P Q (failed e t) k h f = absurd h

  -- What is stored at the end has the new status.
  ended :
      (before rows : List (FindingRow fl lower)) (x : String) (s w : Session) (done : Rows)
      → (status_of run_id (view s).runs ≡ some x) × ((view s).rest.findings ≡ before ++ rows)
      → saved w ≡ done
      → done.runs ≡ (with_run_status run_id "agent_review_completed" none (view s)).runs
      → done.rest.findings ≡ (view s).rest.findings
      → End before rows w
  ended before rows x s w done (seen, found) stored runs findings = (
    ap (λ (db : Rows). status_of run_id db.runs) stored
        ∙ ap (status_of run_id) runs
        ∙ update_status-status now run_id "agent_review_completed" none (view s).runs x seen,
    ap (λ (db : Rows). db.rest.findings) stored ∙ findings ∙ found,
  )

  store_findings-End :
      (before : List (FindingRow fl lower)) (o : Option (List (Numbered fl.F))) (s : Session)
      → Before "agent_review_started" before s
      → Post (End before) Moved (store_findings reviewers at validate run_id o s)
  unfolding store_findings
  store_findings-End before none s h = h.0
  store_findings-End before (some ns) s h =
      never_rule (λ new t. Before "agent_review_started" (before ++ new) t) (End before)
        (persist reviewers at validate run_id ns s) _
        (persist-At reviewers at validate run_id start "agent_review_started" before ns s h)
        λ rows t (reach, kept, seen).
          update_rule (End before) Moved run_id "agent_review_completed" none t _ reach
            λ u fine changed same.
              audited_rule (End before) Moved _ u _ (subst Moved (sym same) reach) λ w shown stored.
                ended before rows "agent_review_started" t w _ (seen fine) stored
                  (ap (λ (db : Rows). db.runs) changed)
                  (ap (λ (db : Rows). db.rest.findings) changed)

  review_units-End :
      (before : List (FindingRow fl lower)) (run : AnalysisRun) (us : List UnitRow) (s : Session)
      → Before "agent_review_started" before s
      → Post (End before) Moved (review_units reviewers at validate run_id run us s)
  unfolding review_units
  review_units-End before run [] s (reach, kept, seen) =
      update_rule (End before) Moved run_id "agent_review_completed" none s _ reach
        λ u fine changed same.
          commit_rule (End before) Moved u _ (subst Moved (sym same) reach) λ w ready shown stored.
            ended before [] "agent_review_started" s w _
              (let (x, y) = seen fine in (x, y ∙ sym (append-nil before))) stored
              (ap (λ (db : Rows). db.runs) changed) (ap (λ (db : Rows). db.rest.findings) changed)
  review_units-End before run (u ∷ us) s h =
      never_rule (λ (_ : List (RawFinding fl.F)) t. Before "agent_review_started" before t)
        (End before) (run_agents reviewers at validate run_id (u ∷ us) s) _
        (run_agents-At reviewers at validate run_id start "agent_review_started" before (u ∷ us) s
          h)
        λ raw t k. store_findings-End before (number_from reviewers run_id run 1 raw) t k

  -- A session of an ingested run that has only read.
  abbrev Fresh : List (FindingRow fl lower) → Session → Type 0
  Fresh before s =
      Moved (saved s)
      × (status_of run_id (saved s).runs ≡ some "git_ingested")
      × (view s ≡ saved s)
      × (before ≡ start)
      × ((view s).rest.findings ≡ before)

  start_review-End :
      (before : List (FindingRow fl lower)) (run : AnalysisRun) (us : List UnitRow) (s : Session)
      → Fresh before s
      → Post (End before) Moved (start_review reviewers at validate run_id run us s)
  unfolding start_review
  start_review-End before run us s (reach, kept, fresh, none_yet, found) =
      update_rule (End before) Moved run_id "agent_review_started" none s _ reach
        λ u fine changed same.
          let event =
            started_event reviewers at validate run_id (reviewable reviewers at validate us) in
          audited_rule (End before) Moved event u _ (subst Moved (sym same) reach) λ w shown stored.
            let seen : status_of run_id (view s).runs ≡ some "git_ingested" =
              ap (λ (db : Rows). status_of run_id db.runs) fresh ∙ kept in
            let now_started : (db : Rows)
                → db ≡ add_event fl lower event (view u)
                → status_of run_id db.runs ≡ some "agent_review_started" =
              λ db e.
                ap (λ (d : Rows). status_of run_id d.runs) e
                ∙ ap (λ (d : Rows). status_of run_id d.runs) changed
                ∙ update_status-status now run_id "agent_review_started" none (view s).runs
                    "git_ingested" seen in
            let status = now_started (saved w) stored in
            review_units-End before run (reviewable reviewers at validate us) w (
              (
                subst Reviewing (sym status) started,
                ap (λ (d : Rows). d.rest.findings) stored
                    ∙ ap (λ (d : Rows). d.rest.findings) changed
                    ∙ found
                    ∙ none_yet,
              ),
              status,
              λ ready. (
                now_started (view w) shown,
                ap (λ (d : Rows). d.rest.findings) shown
                    ∙ ap (λ (d : Rows). d.rest.findings) changed
                    ∙ found,
              ),
            )

  review_existing-End :
      (before : List (FindingRow fl lower)) (o : Option AnalysisRun) (s : Session)
      → Fresh before s
      → Post (End before) Moved (review_existing reviewers at validate run_id o s)
  unfolding review_existing list_units
  review_existing-End before none s h = h.0
  review_existing-End before (some run) s h =
      reading_rule (End before) Moved (λ (db : Rows). units_of_run run_id db.rest.units) s
        (start_review reviewers at validate run_id run) h.0
        (start_review-End before run (units_of_run run_id (view s).rest.units) s h)

  review_run-End :
      (before : List (FindingRow fl lower)) (s : Session)
      → Fresh before s
      → Post (End before) Moved (review_run reviewers at validate run_id s)
  unfolding review_run get_run
  review_run-End before s h =
      reading_rule (End before) Moved (λ (db : Rows). lookup run_id db.runs) s
        (review_existing reviewers at validate run_id) h.0 (review_existing-End before _ s h)

-- A review of an ingested run, from a session without writes of its own, that returns rows leaves the
-- run reviewed, with exactly these rows stored behind the findings that were there. One that raises,
-- whatever the model writes and the session refuses, leaves the run "git_ingested" or
-- "agent_review_started", and commits no finding.
pub review_run-Reviewing :
    ⦃env : Env⦄ (reviewers : Reviewers env.fl) (at : UnitRow → Text → OnDisk)
    (validate : Numbered env.fl.F → List Text) (run_id : ℕ) (s : env.sessions.Session)
    → env.sessions.view s ≡ env.sessions.saved s
    → status_of run_id (env.sessions.saved s).runs ≡ some "git_ingested"
    → let old = (env.sessions.saved s).rest.findings in
      Ends
        (λ rows t.
          (status_of run_id (env.sessions.saved t).runs ≡ some "agent_review_completed")
          × ((env.sessions.saved t).rest.findings ≡ old ++ rows))
        (λ e t.
          Reviewing (status_of run_id (env.sessions.saved t).runs)
          × ((env.sessions.saved t).rest.findings ≡ old))
        (review_run reviewers at validate run_id s)
review_run-Reviewing ⦃env⦄ reviewers at validate run_id s fresh ingested =
    review_run-End reviewers at validate run_id _ _ s (
      (subst Reviewing (sym ingested) not_started, refl),
      ingested,
      fresh,
      refl,
      ap (λ (db : Rows). db.rest.findings) fresh,
    )
