-- ===== src/Worker/Pipeline/Ends.antt =====
-- How a pipeline ends.
use agentic_dev_ops.Prelude.{
  ℕ, ◌≡◌, refl, sym, ap, subst, ◌∙◌, ◌⊎◌, inl, inr, true, Option, none, some, String, take, nat_eq,
}
use agentic_dev_ops.Prelude.Dict.{lookup, lookup-insert_same}
use agentic_dev_ops.Prelude.Text.{Text}
use agentic_dev_ops.Worker.Runs.{
  AnalysisRun, Runs, is_final, with_status, set_status, update_status,
}
use agentic_dev_ops.Worker.Pipeline.{
  Database, PhaseEnd, finished, raised, Phases, complete_phase, then_phase, run_phases, handled,
  handle, full_pipeline,
}

-- If the run is there, it has this status, has ended, and its reason is the given one, if one is.
abbrev pub RunIs : ℕ → ℕ → String → Option Text → Runs → Type 0
RunIs now run_id status reason runs =
    (run : AnalysisRun)
    → lookup run_id runs ≡ some run
    → (run.status ≡ status)
      × (run.completed_at ≡ some now)
      × ((r : Text) → reason ≡ some r → run.failure_reason ≡ some r)

finished_inj : {Rest : Type 0} {x y : Database Rest} → finished x ≡ finished y → x ≡ y
finished_inj e = cc

some_inj : {A : Type 0} {x y : A} → some x ≡ some y → x ≡ y
some_inj e = cc

with_status-fields :
    (now : ℕ) (status : String) (reason : Option Text) (old run : AnalysisRun)
    → is_final status ≡ true
    → with_status now status reason old ≡ run
    → (run.status ≡ status)
      × (run.completed_at ≡ some now)
      × ((r : Text) → reason ≡ some r → run.failure_reason ≡ some r)
unfolding with_status
with_status-fields now status reason old run final e = (
  sym (ap (λ r. r.status) e),
  sym (ap (λ r. r.completed_at) e) ∙ rw final refl,
  λ r h. sym (ap (λ x. x.failure_reason) e) ∙ rw h refl,
)

set_status-RunIs :
    (now run_id : ℕ) (status : String) (reason : Option Text) (runs : Runs)
    → is_final status ≡ true
    → (o : Option AnalysisRun) → lookup run_id runs ≡ o
    → RunIs now run_id status reason (set_status now run_id status reason runs o)
unfolding set_status
set_status-RunIs now run_id status reason runs final none e run h = absurd (cc)
set_status-RunIs now run_id status reason runs final (some old) e run h =
    with_status-fields now status reason old run final
      (some_inj (sym (lookup-insert_same run_id (with_status now status reason old) runs) ∙ h))

update_status-RunIs :
    (now run_id : ℕ) (status : String) (reason : Option Text) (runs : Runs)
    → is_final status ≡ true
    → RunIs now run_id status reason (update_status now run_id status reason runs)
unfolding update_status
update_status-RunIs now run_id status reason runs final =
    set_status-RunIs now run_id status reason runs final (lookup run_id runs) refl

module _ (Rest : Type 0) (ph : Phases Rest) where
  -- What a write of a status leaves: the status, or, if it is refused, the database as it was.
  abbrev pub Marked : ℕ → ℕ → String → Option Text → Database Rest → PhaseEnd Rest → Type 0
  Marked now run_id status reason db (finished later) =
      later ≡ (record db { runs = update_status now run_id status reason db.runs })
  Marked now run_id status reason db (raised e later) = later ≡ db

  abbrev pub Marks : ℕ → ℕ → Type 0
  Marks now run_id =
      (status : String) (reason : Option Text) (db : Database Rest)
      → Marked now run_id status reason db (ph.mark run_id status reason db)

  module _ (now run_id : ℕ) (timeout_text : Text) (marks : Marks now run_id) where
    abbrev body : Database Rest → PhaseEnd Rest
    body = run_phases Rest ph run_id timeout_text

    -- The handler's own write was refused, of the database that the phases had left.
    abbrev pub Refused : Text → Database Rest → Database Rest → Type 0
    Refused e start db =
        (body start ≡ raised e db)
        × ((x : Text) × (ph.mark run_id "failed" (some (take 500 e)) db ≡ raised x db))

    abbrev pub Ended : Database Rest → PhaseEnd Rest → Type 0
    Ended start (finished db) = RunIs now run_id "completed" none db.runs
    Ended start (raised e db) =
        RunIs now run_id "failed" (some (take 500 e)) db.runs ⊎ Refused e start db

    marked-RunIs :
        (status : String) (reason : Option Text) (db later : Database Rest)
        → is_final status ≡ true
        → later ≡ (record db { runs = update_status now run_id status reason db.runs })
        → RunIs now run_id status reason later.runs
    marked-RunIs status reason db later final e =
        subst (λ (d : Database Rest). RunIs now run_id status reason d.runs) (sym e)
          (update_status-RunIs now run_id status reason db.runs final)

    handled-Ended :
        (e : Text) (start db : Database Rest) (end : PhaseEnd Rest)
        → body start ≡ raised e db
        → ph.mark run_id "failed" (some (take 500 e)) db ≡ end
        → Marked now run_id "failed" (some (take 500 e)) db end
        → Ended start (handled Rest ph run_id timeout_text e end)
    unfolding handled is_final
    handled-Ended e start db (finished later) left marked h =
        inl (marked-RunIs "failed" (some (take 500 e)) db later refl h)
    handled-Ended e start db (raised x later) left marked h = inr (
      left ∙ ap (raised e) (sym h),
      (x, ap (λ d. ph.mark run_id "failed" (some (take 500 e)) d) h ∙ marked),
    )

    completed :
        (db : Database Rest) (end : PhaseEnd Rest)
        → Marked now run_id "completed" none db end
        → (later : Database Rest) → end ≡ finished later
        → RunIs now run_id "completed" none later.runs
    unfolding is_final
    completed db (finished d) h later e =
        marked-RunIs "completed" none db later refl (sym (finished_inj e) ∙ h)
    completed db (raised x d) h later e = absurd (cc)

    phases-completed :
        (end : PhaseEnd Rest) (later : Database Rest)
        → then_phase Rest ph run_id timeout_text end (complete_phase Rest ph run_id timeout_text)
          ≡ finished later
        → RunIs now run_id "completed" none later.runs
    unfolding then_phase complete_phase
    phases-completed (finished db) later e =
        completed db (ph.mark run_id "completed" none db) (marks "completed" none db) later e
    phases-completed (raised x db) later e = absurd (cc)

    handle-Ended :
        (start : Database Rest) (end : PhaseEnd Rest)
        → body start ≡ end
        → Ended start (handle Rest ph run_id timeout_text end)
    unfolding handle run_phases
    handle-Ended start (finished db) left = phases-completed _ db left
    handle-Ended start (raised e db) left =
        handled-Ended e start db (ph.mark run_id "failed" (some (take 500 e)) db) left refl
          (marks "failed" (some (take 500 e)) db)

    -- If every write of a status by the pipeline itself leaves the status or is refused and changes
    -- nothing, then a pipeline that returns leaves its run (if it is in the database) completed. One
    -- that raises leaves it failed, with the first 500 characters of the exception as its reason, or
    -- the handler's own write was refused, and the database is as the phases left it.
    pub full_pipeline-Ended :
        (db : Database Rest) → Ended db (full_pipeline Rest ph run_id timeout_text db)
    unfolding full_pipeline
    full_pipeline-Ended db = handle-Ended db (body db) refl
