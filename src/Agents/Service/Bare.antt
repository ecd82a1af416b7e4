-- ===== src/Agents/Service/Bare.antt =====
-- A review where the repository has no files beside its history, as in a mirror.
use agentic_dev_ops.Prelude.{
  ℕ, ◌≡◌, refl, ap, ◌∙◌, false, Bool-cases, inl, inr, Option, none, some, List, [], ◌∷◌, nat_eq,
  ◌||◌,
}
use agentic_dev_ops.Prelude.Dict.{lookup}
use agentic_dev_ops.Prelude.Text.{Text}
use agentic_dev_ops.Db.Session.{Ends}
use agentic_dev_ops.Db.Tables.{UnitRow, FindingRow, add_event, units_of_run}
use agentic_dev_ops.Db.Daos.{Env, Rows, get_run, list_units}
use agentic_dev_ops.Db.Daos.Rules.{Post, reading_rule, update_rule, audited_rule, commit_rule}
use agentic_dev_ops.Git.Differ.{ChangeUnit}
use agentic_dev_ops.Agents.Filters.{OnDisk, no_file, is_small_file, is_worth_reviewing}
use agentic_dev_ops.Agents.Numbering.{Reviewers, Numbered}
use agentic_dev_ops.Agents.Service.{
  review_units, reviewable, started_event, start_review, review_existing, review_run,
}
use agentic_dev_ops.Worker.Runs.{AnalysisRun}

not_worth :
    (at : Text → OnDisk) (u : ChangeUnit)
    → at u.file_path ≡ no_file
    → is_worth_reviewing at u ≡ false
unfolding is_worth_reviewing is_small_file
not_worth at u gone = elim (Bool-cases (u.is_binary || u.is_generated || u.is_vendor)) [
  | inl h ↦ rw h refl
  | inr h ↦ rw (h, gone) refl
]

module _ ⦃env : Env⦄ (reviewers : Reviewers env.fl) (at : UnitRow → Text → OnDisk)
    (validate : Numbered env.fl.F → List Text) (run_id : ℕ) where
  open env use {fl, lower, sessions}
  open sessions use {Session, view, saved}

  -- No file lies at the path of any of these units.
  abbrev pub AreBare : List UnitRow → Type 0
  AreBare [] = Unit
  AreBare (u ∷ us) = (at u u.unit.file_path ≡ no_file) × AreBare us

  reviewable-bare : (us : List UnitRow) → AreBare us → reviewable reviewers at validate us ≡ []
  reviewable-bare [] h = refl
  reviewable-bare (u ∷ us) (gone, h) = rw (not_worth (at u) u.unit gone) (reviewable-bare us h)

  abbrev Same : Rows → Rows → Type 0
  Same old db = db.rest.findings ≡ old.rest.findings

  abbrev Nothing : Rows → List (FindingRow fl lower) → Session → Type 0
  Nothing old rows t = (rows ≡ []) × Same old (saved t)

  units_bare :
      (old : Rows) (run : AnalysisRun) (us : List UnitRow) (s : Session)
      → us ≡ []
      → Same old (saved s)
      → Same old (view s)
      → Post (Nothing old) (Same old) (review_units reviewers at validate run_id run us s)
  unfolding review_units
  units_bare old run (u ∷ us) s e kept seen = absurd (cc)
  units_bare old run [] s e kept seen =
      update_rule (Nothing old) (Same old) run_id "agent_review_completed" none s _ kept
        λ t fine changed same.
          commit_rule (Nothing old) (Same old) t _
            (ap (λ (db : Rows). db.rest.findings) same ∙ kept)
            λ u ready shown stored.
              (refl, ap (λ (db : Rows). db.rest.findings) (stored ∙ changed) ∙ seen)

  start_bare :
      (old : Rows) (run : AnalysisRun) (us : List UnitRow) (s : Session)
      → AreBare us
      → Same old (saved s)
      → Same old (view s)
      → Post (Nothing old) (Same old) (start_review reviewers at validate run_id run us s)
  unfolding start_review
  start_bare old run us s bare kept seen =
      let event =
        started_event reviewers at validate run_id (reviewable reviewers at validate us) in
      update_rule (Nothing old) (Same old) run_id "agent_review_started" none s _ kept
        λ t fine changed same.
          audited_rule (Nothing old) (Same old) event t _
            (ap (λ (db : Rows). db.rest.findings) same ∙ kept)
            λ u shown stored.
              units_bare old run (reviewable reviewers at validate us) u (reviewable-bare us bare)
                (ap (λ (db : Rows). db.rest.findings)
                    (stored ∙ ap (add_event fl lower event) changed)
                  ∙ seen)
                (ap (λ (db : Rows). db.rest.findings)
                    (shown ∙ ap (add_event fl lower event) changed)
                  ∙ seen)

  existing_bare :
      (old : Rows) (o : Option AnalysisRun) (s : Session)
      → AreBare (units_of_run run_id (view s).rest.units)
      → Same old (saved s)
      → Same old (view s)
      → Post (Nothing old) (Same old) (review_existing reviewers at validate run_id o s)
  unfolding review_existing list_units
  existing_bare old none s bare kept seen = kept
  existing_bare old (some run) s bare kept seen =
      reading_rule (Nothing old) (Same old) (λ (db : Rows). units_of_run run_id db.rest.units) s
        (start_review reviewers at validate run_id run) kept
        (start_bare old run (units_of_run run_id (view s).rest.units) s bare kept seen)

  -- Where no file lies at the path of any stored change unit of the run, as in the mirror that an
  -- ingestion clones, a review from a session without writes of its own finds nothing, whatever the
  -- model would answer: it returns no finding, and the committed findings stay as they were.
  pub review_run-bare :
      (s : Session)
      → view s ≡ saved s
      → AreBare (units_of_run run_id (view s).rest.units)
      → Ends
          (λ rows t. (rows ≡ []) × ((saved t).rest.findings ≡ (saved s).rest.findings))
          (λ e t. (saved t).rest.findings ≡ (saved s).rest.findings)
          (review_run reviewers at validate run_id s)
  unfolding review_run get_run
  review_run-bare s fresh bare =
      reading_rule (Nothing (saved s)) (Same (saved s)) (λ (db : Rows). lookup run_id db.runs) s
        (review_existing reviewers at validate run_id) refl
        (existing_bare (saved s) (lookup run_id (view s).runs) s bare refl
          (ap (λ (db : Rows). db.rest.findings) fresh))
