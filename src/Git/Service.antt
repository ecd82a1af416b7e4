-- ===== src/Git/Service.antt =====
-- packages/git/devmanager_git/service.py, `ingest`. Roots are given without a slash at the end; the
-- processes, the files, `fnmatch`, `str.lower` and the ids of the units are parameters.
pub mod Stored
pub mod Ingested
use agentic_dev_ops.Prelude.{
  ℕ, Bool, Option, none, some, List, [], ◌∷◌, ◌++◌, map, length, is_nil, ◌==◌, if◌then◌else◌,
  nat_eq,
}
use agentic_dev_ops.Prelude.Dict.{Dict, lookup, insert}
use agentic_dev_ops.Prelude.Text.{Text, codes, text_eq_instance}
use agentic_dev_ops.Db.Session.{◌>>=◌, ◌>>◌, pure, raise, best_effort}
use agentic_dev_ops.Db.Repositories.{Repository}
use agentic_dev_ops.Db.Tables.{UnitRow, AuditEvent, text, number, flag}
use agentic_dev_ops.Db.Daos.{
  Env, Rows, Do, get_run, get_repository, get_value, update_run, append, bulk_create,
  bulk_update_hunks, commit, audit_event,
}
use agentic_dev_ops.Git.Differ.{ChangeUnit, parse_diff}
use agentic_dev_ops.Git.Fetcher.{
  Process, Outcome, done, git_error, crashed, null_commit, clone_or_fetch, resolve_sha,
  resolve_merge_base, detect_history_rewrite, get_diff_numstat, get_diff_name_status,
}
use agentic_dev_ops.Git.Codeowners.{Rule, from_bare_repo, find_owner}
use agentic_dev_ops.Git.Hunks.{extract_all_hunks}
use agentic_dev_ops.Worker.Runs.{AnalysisRun, Runs}

-- What the ingestion uses of its surroundings.
pub record Disk : Type 0 where
  pub git : List Text → Text → Process
  pub has_head : Text → Bool
  pub mkdir : Text → Option Text
  pub parent : Text → Text
  pub write_text : Text → Text → Option Text
  pub fnmatch : Text → Text → Bool
  pub posix_path : Text → Text
  pub decimal : ℕ → Text
  pub unit_id : ℕ → Text
  pub default_workspace : Text
  pub default_hunks : Text

-- A commit's place: the repository's directory, the run's hunks, and both ends of the diff.
pub record Place : Type 0 where
  pub repo_dir : Text
  pub hunks_dir : Text

-- `await dao.get_value(...) or str(default)`
unfoldable pub value_or : Option Text → Text → Text
value_or none d = d
value_or (some []) d = d
value_or (some (c ∷ v)) d = c ∷ v

-- `.values(merge_base_sha=..., history_rewrite_detected=..., status="git_ingested")`
abbrev pub ingested_run : Text → Bool → AnalysisRun → AnalysisRun
ingested_run base rewrite run = record run {
  merge_base_sha = some base;
  history_rewrite_detected = rewrite;
  status = "git_ingested";
}

unfoldable pub set_ingested : ℕ → Text → Bool → Runs → Option AnalysisRun → Runs
set_ingested run_id base rewrite runs none = runs
set_ingested run_id base rewrite runs (some run) =
    insert run_id (ingested_run base rewrite run) runs

-- `if owner: unit["owner"] = owner`
abbrev pub owner_or_none : Option Text → Option Text
owner_or_none none = none
owner_or_none (some o) = if is_nil o then none else some o

module _ ⦃env : Env⦄ (disk : Disk) where
  open env use {fl, lower, sessions, str_id}
  open disk use {git, has_head, mkdir, parent, write_text, fnmatch, posix_path, decimal, unit_id}

  unfoldable pub owner_for : Option (List Rule) → Text → Option Text
  unfolding find_owner
  owner_for none path = none
  owner_for (some rules) path = owner_or_none (find_owner fnmatch posix_path rules path)

  unfoldable pub unit_rows : ℕ → Option (List Rule) → List ChangeUnit → List UnitRow
  unfolding owner_for
  unit_rows run_id rules [] = []
  unit_rows run_id rules (u ∷ us) =
      record { run_id = run_id; unit = u; owner = owner_for rules u.file_path; hunks_ref = none }
      ∷ unit_rows run_id rules us

  -- `except GitError as exc`: the run has failed, which is committed, and the text is raised again.
  unfoldable pub fail_with : {A : Type 0} → ℕ → Text → Do A
  unfolding update_run
  fail_with run_id e = do update_run run_id "failed" (some e); commit; raise e

  unfoldable pub create_units : List UnitRow → Do (Unit {0})
  unfolding bulk_create
  create_units [] = pure tt
  create_units (r ∷ rows) = bulk_create (r ∷ rows)

  -- Phase 7, in its `try`.
  unfoldable pub update_hunks : Outcome (Dict Text Text) → Do (Unit {0})
  unfolding bulk_update_hunks
  update_hunks (done refs) = bulk_update_hunks refs
  update_hunks (git_error e) = raise e
  update_hunks (crashed e) = raise e

  unfoldable pub store_hunks : Place → Text → Text → List UnitRow → Do (Unit {0})
  unfolding extract_all_hunks update_hunks
  store_hunks place base target [] = pure tt
  store_hunks place base target (r ∷ rows) = best_effort (
      update_hunks (
        extract_all_hunks git write_text decimal place.repo_dir base target
          (map (λ x. x.unit) (r ∷ rows)) place.hunks_dir))

  abbrev pub completed_event : ℕ → ℕ → Text → Bool → AuditEvent fl lower
  completed_event run_id files base rewrite =
      audit_event "system" run_id "run.ingest_completed" none (
        ("files_changed", number files)
        ∷ ("merge_base_sha", text base)
        ∷ ("history_rewrite", flag rewrite)
        ∷ [])

  -- Phases 6 to 8.
  unfoldable pub store_units : ℕ → Place → Text → Text → Bool → List UnitRow → Do (List UnitRow)
  unfolding create_units store_hunks append set_ingested
  store_units run_id place base target rewrite rows = do
    create_units rows
    store_hunks place base target rows
    sessions.write (λ (db : Rows).
        some
          (record db { runs = set_ingested run_id base rewrite db.runs (lookup run_id db.runs) }))
    best_effort (append (completed_event run_id (length rows) base rewrite))
    commit
    pure rows

  -- Phase 5.
  unfoldable pub own_units :
      ℕ
      → Place
      → Text
      → Text
      → Bool
      → List ChangeUnit
      → Outcome (Option (List Rule))
      → Do (List UnitRow)
  unfolding unit_rows store_units
  own_units run_id place base target rewrite units (crashed e) = raise e
  own_units run_id place base target rewrite units (git_error e) = raise e
  own_units run_id place base target rewrite units (done rules) =
      store_units run_id place base target rewrite (unit_rows run_id rules units)

  abbrev pub units_of : ℕ → AnalysisRun → Repository → Text → Text → Text → List ChangeUnit
  units_of run_id run repo target numstat name_status =
      parse_diff lower unit_id (str_id run_id) repo.full_name run.baseline_sha target numstat
        name_status

  -- Phases 3 and 4: the two halves of the diff.
  unfoldable pub on_diff :
      ℕ
      → AnalysisRun
      → Repository
      → Place
      → Text
      → Text
      → Bool
      → Outcome Text
      → Outcome Text
      → Do (List UnitRow)
  unfolding fail_with own_units
  on_diff run_id run repo place base target rewrite (git_error e) names = fail_with run_id e
  on_diff run_id run repo place base target rewrite (crashed e) names = raise e
  on_diff run_id run repo place base target rewrite (done n) (git_error e) = fail_with run_id e
  on_diff run_id run repo place base target rewrite (done n) (crashed e) = raise e
  on_diff run_id run repo place base target rewrite (done numstat) (done names) =
      own_units run_id place base target rewrite (units_of run_id run repo target numstat names)
        (from_bare_repo git place.repo_dir)

  -- Phase 2: an error of git is not caught here.
  unfoldable pub on_base :
      ℕ → AnalysisRun → Repository → Place → Text → Outcome Text → Outcome Bool → Do (List UnitRow)
  unfolding on_diff get_diff_numstat get_diff_name_status
  on_base run_id run repo place target (git_error e) rewrite = raise e
  on_base run_id run repo place target (crashed e) rewrite = raise e
  on_base run_id run repo place target (done base) (git_error e) = raise e
  on_base run_id run repo place target (done base) (crashed e) = raise e
  on_base run_id run repo place target (done base) (done rewrite) =
      on_diff run_id run repo place base target rewrite
        (get_diff_numstat git has_head mkdir parent place.repo_dir base target)
        (get_diff_name_status git has_head mkdir parent place.repo_dir base target)

  unfoldable pub on_target : ℕ → AnalysisRun → Repository → Place → Outcome Text → Do (List UnitRow)
  unfolding on_base resolve_merge_base detect_history_rewrite
  on_target run_id run repo place (git_error e) = raise e
  on_target run_id run repo place (crashed e) = raise e
  on_target run_id run repo place (done target) =
      on_base run_id run repo place target
        (resolve_merge_base git has_head mkdir parent place.repo_dir run.baseline_sha target)
        (detect_history_rewrite git has_head mkdir parent place.repo_dir run.baseline_sha target)

  -- `if target_sha == _NULL_SHA`
  unfoldable pub target_of : AnalysisRun → Repository → Place → Outcome Text
  unfolding resolve_sha value_or
  target_of run repo place =
      if run.target_sha == null_commit
      then resolve_sha git has_head mkdir parent place.repo_dir
          (value_or (some repo.default_branch) (codes "main"))
      else done run.target_sha

  unfoldable pub on_fetched :
      ℕ → AnalysisRun → Repository → Place → Outcome Text → Do (List UnitRow)
  unfolding fail_with on_target target_of
  on_fetched run_id run repo place (git_error e) = fail_with run_id e
  on_fetched run_id run repo place (crashed e) = raise e
  on_fetched run_id run repo place (done out) =
      on_target run_id run repo place (target_of run repo place)

  abbrev pub started_event : ℕ → AnalysisRun → Repository → AuditEvent fl lower
  started_event run_id run repo =
      audit_event "system" run_id "run.ingest_started" none
        (("repository", text repo.full_name) ∷ ("target_sha", text run.target_sha) ∷ [])

  -- Phase 1.
  unfoldable pub fetch_run : ℕ → AnalysisRun → Repository → Place → Text → Do (List UnitRow)
  unfolding update_run append on_fetched clone_or_fetch
  fetch_run run_id run repo place url = do
    update_run run_id "git_fetching" none
    best_effort (append (started_event run_id run repo))
    commit
    on_fetched run_id run repo place
        (clone_or_fetch git has_head mkdir parent url place.repo_dir repo.access_token)

  abbrev pub no_url : Repository → Text
  no_url repo = codes "Repository " ++ (repo.full_name ++ codes " has no clone_url — cannot fetch")

  unfoldable pub ingest_from :
      ℕ → AnalysisRun → Repository → Place → Option Text → Do (List UnitRow)
  unfolding fetch_run
  ingest_from run_id run repo place none = raise (no_url repo)
  ingest_from run_id run repo place (some []) = raise (no_url repo)
  ingest_from run_id run repo place (some (c ∷ url)) = fetch_run run_id run repo place (c ∷ url)

  abbrev pub place_of : Text → Text → ℕ → Repository → Place
  place_of workspace hunks run_id repo = record {
    repo_dir = workspace ++ (codes "/" ++ str_id repo.repository_id);
    hunks_dir = hunks ++ (codes "/" ++ str_id run_id);
  }

  unfoldable pub ingest_repository :
      Text → Text → ℕ → AnalysisRun → Option Repository → Do (List UnitRow)
  unfolding ingest_from
  ingest_repository workspace hunks run_id run none =
      raise (codes "Repository " ++ (str_id run.repository_id ++ codes " not found"))
  ingest_repository workspace hunks run_id run (some repo) =
      ingest_from run_id run repo (place_of workspace hunks run_id repo) repo.clone_url

  unfoldable pub ingest_existing : Text → Text → ℕ → Option AnalysisRun → Do (List UnitRow)
  unfolding get_repository ingest_repository
  ingest_existing workspace hunks run_id none =
      raise (codes "AnalysisRun " ++ (str_id run_id ++ codes " not found"))
  ingest_existing workspace hunks run_id (some run) =
      get_repository run.repository_id >>= ingest_repository workspace hunks run_id run

  unfoldable pub ingest : ℕ → Do (List UnitRow)
  unfolding get_value value_or get_run ingest_existing
  ingest run_id = do
    ws ← get_value (codes "git_workspace")
    hk ← get_value (codes "git_hunks_dir")
    run ← get_run run_id
    ingest_existing (value_or ws disk.default_workspace) (value_or hk disk.default_hunks) run_id run
