-- ===== src/Git/Service/Ingested.antt =====
-- What `ingest` commits.
use agentic_dev_ops.Prelude.{
  ℕ, ◌≡◌, refl, sym, ap, subst, ◌∙◌, Bool, Option, none, some, List, [], ◌∷◌, ◌++◌, map, String,
  nat_eq,
}
use agentic_dev_ops.Prelude.Dict.{lookup}
use agentic_dev_ops.Prelude.Text.{Text, codes, text_eq_instance}
use agentic_dev_ops.Db.Session.{Ends}
use agentic_dev_ops.Db.Repositories.{Repository, repository_with_id}
use agentic_dev_ops.Db.Tables.{UnitRow, add_event}
use agentic_dev_ops.Db.Daos.{Env, Rows, get_run, get_repository, get_value}
use agentic_dev_ops.Db.Daos.Rules.{Post, reading_rule, update_rule, audited_rule}
use agentic_dev_ops.Git.Differ.{ChangeUnit}
use agentic_dev_ops.Git.Fetcher.{Outcome, done, git_error, crashed}
use agentic_dev_ops.Git.Codeowners.{Rule}
use agentic_dev_ops.Git.Service.Stored.{bare, Moved, Done, Fetched, fail_with-R, store_units-R}
use agentic_dev_ops.Git.Service.{
  Disk, Place, unit_rows, own_units, on_diff, on_base, on_target, on_fetched, fetch_run,
  ingest_from, ingest_repository, ingest_existing, ingest,
}
use agentic_dev_ops.Worker.Runs.{AnalysisRun}
use agentic_dev_ops.Worker.Workflow.{
  status_in, status_of, Ingesting, untouched, fetching, update_status-status,
}

module _ ⦃env : Env⦄ (disk : Disk) (run_id : ℕ) (start : Option String)
    (before : List (ℕ × ChangeUnit × Option Text)) where
  open env use {fl, lower, sessions, now}
  open sessions use {Session, view, saved, problem, write, write_lem}

  abbrev Walk : Rows → Type 0
  Walk = Moved disk run_id start before

  abbrev End : List UnitRow → Session → Type 0
  End = Done disk run_id start before

  own_units-R :
      (place : Place) (base target : Text) (rewrite : Bool) (units : List ChangeUnit)
      (o : Outcome (Option (List Rule))) (s : Session)
      → Fetched disk run_id start before before s
      → Post End Walk (own_units disk run_id place base target rewrite units o s)
  unfolding own_units
  own_units-R place base target rewrite units (crashed e) s h = h.0
  own_units-R place base target rewrite units (git_error e) s h = h.0
  own_units-R place base target rewrite units (done rules) s h =
      store_units-R disk run_id start before place base target rewrite
        (unit_rows disk run_id rules units) s h

  on_diff-R :
      (run : AnalysisRun) (repo : Repository) (place : Place) (base target : Text) (rewrite : Bool)
      (stat names : Outcome Text) (s : Session)
      → Fetched disk run_id start before before s
      → Post End Walk (on_diff disk run_id run repo place base target rewrite stat names s)
  unfolding on_diff
  on_diff-R run repo place base target rewrite (git_error e) names s h =
      fail_with-R disk run_id start before End e s h
  on_diff-R run repo place base target rewrite (crashed e) names s h = h.0
  on_diff-R run repo place base target rewrite (done n) (git_error e) s h =
      fail_with-R disk run_id start before End e s h
  on_diff-R run repo place base target rewrite (done n) (crashed e) s h = h.0
  on_diff-R run repo place base target rewrite (done n) (done names) s h =
      own_units-R place base target rewrite _ _ s h

  on_base-R :
      (run : AnalysisRun) (repo : Repository) (place : Place) (target : Text) (base : Outcome Text)
      (rewrite : Outcome Bool) (s : Session)
      → Fetched disk run_id start before before s
      → Post End Walk (on_base disk run_id run repo place target base rewrite s)
  unfolding on_base
  on_base-R run repo place target (git_error e) rewrite s h = h.0
  on_base-R run repo place target (crashed e) rewrite s h = h.0
  on_base-R run repo place target (done base) (git_error e) s h = h.0
  on_base-R run repo place target (done base) (crashed e) s h = h.0
  on_base-R run repo place target (done base) (done rewrite) s h =
      on_diff-R run repo place base target rewrite _ _ s h

  on_target-R :
      (run : AnalysisRun) (repo : Repository) (place : Place) (target : Outcome Text) (s : Session)
      → Fetched disk run_id start before before s
      → Post End Walk (on_target disk run_id run repo place target s)
  unfolding on_target
  on_target-R run repo place (git_error e) s h = h.0
  on_target-R run repo place (crashed e) s h = h.0
  on_target-R run repo place (done target) s h = on_base-R run repo place target _ _ s h

  on_fetched-R :
      (run : AnalysisRun) (repo : Repository) (place : Place) (o : Outcome Text) (s : Session)
      → Fetched disk run_id start before before s
      → Post End Walk (on_fetched disk run_id run repo place o s)
  unfolding on_fetched
  on_fetched-R run repo place (git_error e) s h = fail_with-R disk run_id start before End e s h
  on_fetched-R run repo place (crashed e) s h = h.0
  on_fetched-R run repo place (done out) s h = on_target-R run repo place _ s h

  -- A session that has only read.
  abbrev Fresh : Session → Type 0
  Fresh s =
      (status_of run_id (saved s).runs ≡ start)
      × (view s ≡ saved s)
      × (map bare (view s).rest.units ≡ before)

  Fresh-E : (s : Session) → Fresh s → Walk (saved s)
  Fresh-E s h = subst (Ingesting start) (sym h.0) untouched

  fetch_run-R :
      (run : AnalysisRun) (repo : Repository) (place : Place) (url : Text) (s : Session)
      → Fresh s
      → lookup run_id (view s).runs ≡ some run
      → Post End Walk (fetch_run disk run_id run repo place url s)
  unfolding fetch_run
  fetch_run-R run repo place url s h found =
      let was : status_of run_id (view s).runs ≡ some run.status =
        unfold status_of status_in in rw found refl in
      let reach = Fresh-E s h in
      update_rule End Walk run_id "git_fetching" none s _ reach λ t fine changed still.
        audited_rule End Walk _ t _ (subst Walk (sym still) reach) λ u shown stored.
          let status =
            update_status-status now run_id "git_fetching" none (view s).runs run.status was in
          let seen : status_of run_id (view u).runs ≡ some "git_fetching" =
            ap (λ (db : Rows). status_of run_id db.runs) (shown ∙ ap (add_event fl lower _) changed)
            ∙ status in
          let kept : status_of run_id (saved u).runs ≡ some "git_fetching" =
            ap (λ (db : Rows). status_of run_id db.runs)
              (stored ∙ ap (add_event fl lower _) changed)
            ∙ status in
          on_fetched-R run repo place _ u (
            subst (Ingesting start) (sym kept) fetching,
            kept,
            seen,
            ap (λ (db : Rows). map bare db.rest.units) (shown ∙ ap (add_event fl lower _) changed)
                ∙ h.2,
          )

  ingest_from-R :
      (run : AnalysisRun) (repo : Repository) (place : Place) (url : Option Text) (s : Session)
      → Fresh s
      → lookup run_id (view s).runs ≡ some run
      → Post End Walk (ingest_from disk run_id run repo place url s)
  unfolding ingest_from
  ingest_from-R run repo place none s h found = Fresh-E s h
  ingest_from-R run repo place (some []) s h found = Fresh-E s h
  ingest_from-R run repo place (some (c ∷ url)) s h found =
      fetch_run-R run repo place (c ∷ url) s h found

  ingest_repository-R :
      (ws hk : Text) (run : AnalysisRun) (o : Option Repository) (s : Session)
      → Fresh s
      → lookup run_id (view s).runs ≡ some run
      → Post End Walk (ingest_repository disk ws hk run_id run o s)
  unfolding ingest_repository
  ingest_repository-R ws hk run none s h found = Fresh-E s h
  ingest_repository-R ws hk run (some repo) s h found =
      ingest_from-R run repo _ repo.clone_url s h found

  ingest_existing-R :
      (ws hk : Text) (o : Option AnalysisRun) (s : Session)
      → Fresh s
      → lookup run_id (view s).runs ≡ o
      → Post End Walk (ingest_existing disk ws hk run_id o s)
  unfolding ingest_existing get_repository
  ingest_existing-R ws hk none s h found = Fresh-E s h
  ingest_existing-R ws hk (some run) s h found =
      reading_rule End Walk
        (λ (db : Rows). repository_with_id run.repository_id db.rest.repositories) s
        (ingest_repository disk ws hk run_id run) (Fresh-E s h)
        (ingest_repository-R ws hk run _ s h found)

  ingest-R : (s : Session) → Fresh s → Post End Walk (ingest disk run_id s)
  unfolding ingest get_value get_run
  ingest-R s h =
      reading_rule End Walk (λ (db : Rows). lookup (codes "git_workspace") db.rest.settings) s _
        (Fresh-E s h)
        (reading_rule End Walk (λ (db : Rows). lookup (codes "git_hunks_dir") db.rest.settings) s _
          (Fresh-E s h)
          (reading_rule End Walk (λ (db : Rows). lookup run_id db.runs) s _ (Fresh-E s h)
            (ingest_existing-R _ _ _ s h refl)))

-- From a session without writes of its own, an ingestion that returns units leaves its run
-- "git_ingested", with exactly these units stored behind those that were there, whether or not their
-- patches could be written. One that raises, however git, the files and the session fail, leaves the
-- committed status of its run as it was, or "git_fetching", or "failed".
pub ingest-Ingesting :
    ⦃env : Env⦄ (disk : Disk) (run_id : ℕ) (s : env.sessions.Session)
    → env.sessions.view s ≡ env.sessions.saved s
    → let old = env.sessions.saved s in
      Ends
        (λ rows t.
          (status_of run_id (env.sessions.saved t).runs ≡ some "git_ingested")
          × (map bare (env.sessions.saved t).rest.units ≡ map bare old.rest.units ++ map bare rows))
        (λ e t.
          Ingesting (status_of run_id old.runs) (status_of run_id (env.sessions.saved t).runs))
        (ingest disk run_id s)
ingest-Ingesting ⦃env⦄ disk run_id s fresh =
    ingest-R disk run_id _ _ s (refl, fresh, ap (λ (db : Rows). map bare db.rest.units) fresh)
