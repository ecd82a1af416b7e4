-- ===== src/Git/Service/Stored.antt =====
-- What an ingestion stores once the run is fetched.
use agentic_dev_ops.Prelude.{
  ℕ, ◌≡◌, refl, sym, ap, subst, ◌∙◌, Bool, Option, none, some, List, [], ◌∷◌, ◌++◌, map, String,
  nat_eq, Bool-cases, inl, inr, ◌==◌,
}
use mathlib.Core.List.{append-nil, map-append}
use agentic_dev_ops.Prelude.Dict.{Dict, lookup, lookup-insert_same}
use agentic_dev_ops.Prelude.Text.{Text, text_eq_instance}
use agentic_dev_ops.Db.Session.{Result, Ends, ok, failed, and_then, and_then_lem}
use agentic_dev_ops.Db.Tables.{UnitRow, set_hunk, add_units, add_event}
use agentic_dev_ops.Db.Daos.{Env, Rows, Do, bulk_create, bulk_update_hunks}
use agentic_dev_ops.Db.Daos.Rules.{
  Post, some_inj, write_rule, update_rule, audited_rule, commit_rule, ignored_rule,
}
use agentic_dev_ops.Git.Differ.{ChangeUnit}
use agentic_dev_ops.Git.Fetcher.{Outcome, done, git_error, crashed}
use agentic_dev_ops.Git.Service.{
  Disk, Place, ingested_run, set_ingested, fail_with, create_units, update_hunks, store_hunks,
  store_units,
}
use agentic_dev_ops.Worker.Runs.{AnalysisRun, Runs}
use agentic_dev_ops.Worker.Workflow.{
  status_in, status_of, Ingesting, given_up, update_status-status,
}

-- A row without the reference of its patch.
abbrev pub bare : UnitRow → ℕ × ChangeUnit × Option Text
bare u = (u.run_id, u.unit, u.owner)

bare-set_hunk : (id ref : Text) (us : List UnitRow) → map bare (set_hunk id ref us) ≡ map bare us
unfolding set_hunk
bare-set_hunk id ref [] = refl
bare-set_hunk id ref (u ∷ us) =
    let ih = bare-set_hunk id ref us in
    elim (Bool-cases (u.unit.change_unit_id == id)) [
      | inl e ↦ rw (e, ih) refl
      | inr e ↦ rw (e, ih) refl
    ]

set_ingested-status :
    (run_id : ℕ) (base : Text) (rewrite : Bool) (runs : Runs) (old : String)
    (o : Option AnalysisRun)
    → status_in o ≡ some old
    → status_of run_id (set_ingested run_id base rewrite runs o) ≡ some "git_ingested"
unfolding set_ingested status_of status_in
set_ingested-status run_id base rewrite runs old none e = absurd (cc)
set_ingested-status run_id base rewrite runs old (some run) e =
    rw (lookup-insert_same run_id (ingested_run base rewrite run) runs) refl

module _ ⦃env : Env⦄ (disk : Disk) (run_id : ℕ) (start : Option String)
    (before : List (ℕ × ChangeUnit × Option Text)) where
  open env use {fl, lower, sessions, now}
  open sessions use {Session, view, saved, problem, write, write_lem}

  -- What an ingestion that raises may leave.
  abbrev pub Moved : Rows → Type 0
  Moved db = Ingesting start (status_of run_id db.runs)

  abbrev pub Done : List UnitRow → Session → Type 0
  Done rows t =
      (status_of run_id (saved t).runs ≡ some "git_ingested")
      × (map bare (saved t).rest.units ≡ before ++ map bare rows)

  -- While a run is fetched, no unit of it is stored.
  abbrev pub Fetched : List (ℕ × ChangeUnit × Option Text) → Session → Type 0
  Fetched rows s =
      Moved (saved s)
      × (status_of run_id (saved s).runs ≡ some "git_fetching")
      × (status_of run_id (view s).runs ≡ some "git_fetching")
      × (map bare (view s).rest.units ≡ rows)

  -- The same, unless the session is lost.
  abbrev Sound : List (ℕ × ChangeUnit × Option Text) → Session → Type 0
  Sound rows s =
      Moved (saved s)
      × (status_of run_id (saved s).runs ≡ some "git_fetching")
      × (problem s ≡ none → Fetched rows s)

  pub fail_with-R :
      {A : Type 0} (Q : A → Session → Type 0) (e : Text) (s : Session)
      → Fetched before s
      → Post Q Moved (fail_with disk run_id e s)
  unfolding fail_with
  fail_with-R Q e s (reach, kept, seen, rows) =
      update_rule Q Moved run_id "failed" (some e) s _ reach λ t fine changed still.
        commit_rule Q Moved t _ (subst Moved (sym still) reach) λ u ready same stored.
          let status : status_of run_id (saved u).runs ≡ some "failed" =
            ap (λ (db : Rows). status_of run_id db.runs) (stored ∙ changed)
            ∙ update_status-status now run_id "failed" (some e) (view s).runs "git_fetching" seen in
          subst (Ingesting start) (sym status) given_up

  -- A write that leaves the runs, and the units but for their patches.
  kept_write :
      (rows : List (ℕ × ChangeUnit × Option Text)) (f : Rows → Option Rows) (s : Session)
      (r : Result Session (Unit {0}))
      → Sound rows s
      → ((db : Rows)
          → f (view s) ≡ some db
          → (db.runs ≡ (view s).runs) × (map bare db.rest.units ≡ map bare (view s).rest.units))
      → Ends
          (λ _ t. (problem s ≡ none) × (f (view s) ≡ some (view t)) × (saved t ≡ saved s))
          (λ e t. (saved t ≡ saved s) × ((p : Text) × (problem t ≡ some p)))
          r
      → Ends (λ _ t. Sound rows t) (λ _ t. Sound rows t) r
  kept_write rows f s (ok a t) (reach, kept, sound) keeps (fine, seen, same) =
      let (_, _, status, units) = sound fine in
      let (runs, bares) = keeps (view t) seen in
      let reach' : Moved (saved t) = subst Moved (sym same) reach in
      let kept' = ap (λ (db : Rows). status_of run_id db.runs) same ∙ kept in
      (reach', kept', λ ready. (reach', kept', ap (status_of run_id) runs ∙ status, bares ∙ units))
  kept_write rows f s (failed e t) (reach, kept, sound) keeps (same, (p, lost)) = (
    subst Moved (sym same) reach,
    ap (λ (db : Rows). status_of run_id db.runs) same ∙ kept,
    λ ready. absurd (cc),
  )

  bulk_update_hunks-Sound :
      (rows : List (ℕ × ChangeUnit × Option Text)) (refs : Dict Text Text) (s : Session)
      → Sound rows s
      → Ends (λ _ t. Sound rows t) (λ _ t. Sound rows t) (bulk_update_hunks refs s)
  unfolding bulk_update_hunks
  bulk_update_hunks-Sound rows [] s h = h
  bulk_update_hunks-Sound rows ((id, ref) ∷ refs) s h =
      let f = λ (db : Rows).
        some (record db { rest = record db.rest { units = set_hunk id ref db.rest.units } }) in
      and_then_lem (λ _ t. Sound rows t) (λ _ t. Sound rows t) (λ _ t. Sound rows t) (write f s)
        (λ _. bulk_update_hunks refs)
        (kept_write rows f s (write f s) h
          (λ db e. (
            sym (ap (λ (x : Rows). x.runs) (some_inj e)),
            sym (ap (λ (x : Rows). map bare x.rest.units) (some_inj e))
                ∙ bare-set_hunk id ref (view s).rest.units,
          ))
          (write_lem f s))
        (λ _ t k. bulk_update_hunks-Sound rows refs t k)

  update_hunks-Sound :
      (rows : List (ℕ × ChangeUnit × Option Text)) (o : Outcome (Dict Text Text)) (s : Session)
      → Sound rows s
      → Ends (λ _ t. Sound rows t) (λ _ t. Sound rows t) (update_hunks disk o s)
  unfolding update_hunks
  update_hunks-Sound rows (done refs) s h = bulk_update_hunks-Sound rows refs s h
  update_hunks-Sound rows (git_error e) s h = h
  update_hunks-Sound rows (crashed e) s h = h

  store_hunks_rule :
      (rows : List (ℕ × ChangeUnit × Option Text)) (place : Place) (base target : Text)
      (new : List UnitRow) (s : Session) (k : Unit {0} → Do (List UnitRow))
      → Sound rows s
      → ((t : Session) → Sound rows t → Post Done Moved (k tt t))
      → Post Done Moved (and_then (store_hunks disk place base target new s) k)
  unfolding store_hunks
  store_hunks_rule rows place base target [] s k h f = f s h
  store_hunks_rule rows place base target (u ∷ new) s k h f =
      ignored_rule Done Moved (Sound rows) _ k (update_hunks-Sound rows _ s h) f

  create_units_rule :
      (new : List UnitRow) (s : Session) (k : Unit {0} → Do (List UnitRow))
      → Fetched before s
      → ((t : Session) → Fetched (before ++ map bare new) t → Post Done Moved (k tt t))
      → Post Done Moved (and_then (create_units disk new s) k)
  unfolding create_units bulk_create
  create_units_rule [] s k h f = f s (rw (append-nil before) h)
  create_units_rule (u ∷ new) s k (reach, kept, seen, units) f =
      write_rule Done Moved (λ (db : Rows). some (add_units fl lower (u ∷ new) db)) s k reach
        λ t fine added same.
          let e = sym (some_inj added) in
          f t (
            subst Moved (sym same) reach,
            ap (λ (db : Rows). status_of run_id db.runs) same ∙ kept,
            ap (λ (db : Rows). status_of run_id db.runs) e ∙ seen,
            ap (λ (db : Rows). map bare db.rest.units) e
                ∙ map-append bare (view s).rest.units (u ∷ new)
                ∙ ap (λ l. l ++ map bare (u ∷ new)) units,
          )

  pub store_units-R :
      (place : Place) (base target : Text) (rewrite : Bool) (new : List UnitRow) (s : Session)
      → Fetched before s
      → Post Done Moved (store_units disk run_id place base target rewrite new s)
  unfolding store_units
  store_units-R place base target rewrite new s h =
      create_units_rule new s _ h λ t (reach, kept, seen, units).
        store_hunks_rule _ place base target new t _
          (reach, kept, λ fine. (reach, kept, seen, units))
          λ u (reach2, kept2, sound). write_rule Done Moved _ u _ reach2 λ v fine set same.
            audited_rule Done Moved _ v _ (subst Moved (sym same) reach2) λ w shown stored.
              let (_, _, was, rows) = sound fine in
              let status : status_of run_id (saved w).runs ≡ some "git_ingested" =
                ap (λ (db : Rows). status_of run_id db.runs)
                  (stored ∙ ap (add_event fl lower _) (sym (some_inj set)))
                ∙ set_ingested-status run_id base rewrite (view u).runs "git_fetching"
                    (lookup run_id (view u).runs) (unfold status_of in was) in
              (
                status,
                ap (λ (db : Rows). map bare db.rest.units)
                      (stored ∙ ap (add_event fl lower _) (sym (some_inj set)))
                    ∙ rows,
              )
