-- ===== src/Worker/Phases/Marks.antt =====
-- The statuses that the pipeline writes itself, in sessions that may refuse them.
use agentic_dev_ops.Prelude.{ℕ, ◌≡◌, refl, ap, ◌∙◌, Option, String, nat_eq}
use agentic_dev_ops.Prelude.Text.{Text}
use agentic_dev_ops.Db.Session.{Result, Ends, Ends-map, ok, failed, and_then}
use agentic_dev_ops.Db.Tables.{Tables}
use agentic_dev_ops.Db.Daos.{Env, Rows, commit, update_run, with_run_status}
use agentic_dev_ops.Db.Daos.Rules.{update_rule}
use agentic_dev_ops.Worker.Pipeline.{PhaseEnd, finished, raised}
use agentic_dev_ops.Worker.Pipeline.Ends.{Marked, Marks}
use agentic_dev_ops.Worker.Phases.{Surroundings, phase_end, mark_in, services}

module _ ⦃env : Env⦄ (around : Surroundings) (run_id : ℕ) where
  open env use {fl, lower, sessions, now}
  open sessions use {Session, view, saved}

  -- What a write of a status in a session leaves.
  abbrev pub MarkedIn : String → Option Text → Session → PhaseEnd (Tables fl lower) → Type 0
  MarkedIn status reason s (finished db) = db ≡ with_run_status run_id status reason (view s)
  MarkedIn status reason s (raised e db) = db ≡ saved s

  end-MarkedIn :
      (status : String) (reason : Option Text) (s : Session) (r : Result Session (Unit {0}))
      → Ends
          (λ _ t. saved t ≡ with_run_status run_id status reason (view s))
          (λ e t. saved t ≡ saved s)
          r
      → MarkedIn status reason s (phase_end around r)
  unfolding phase_end
  end-MarkedIn status reason s (ok a t) h = h
  end-MarkedIn status reason s (failed e t) h = h

  -- A status that is written in a session is committed, or nothing is.
  pub mark_in-MarkedIn :
      (status : String) (reason : Option Text) (s : Session)
      → MarkedIn status reason s (mark_in around run_id status reason s)
  unfolding mark_in
  mark_in-MarkedIn status reason s =
      end-MarkedIn status reason s (and_then (update_run run_id status reason s) (λ _. commit)) (
        update_rule (λ _ t. saved t ≡ with_run_status run_id status reason (view s))
          (λ db. db ≡ saved s) run_id status reason s (λ _. commit) refl
          λ t fine changed same.
            Ends-map _ _ _ _ (commit t) (λ _ u (ready, shown, stored). stored ∙ changed)
              (λ e u kept. kept ∙ same) (sessions.commit_lem t))

  begin-Marked :
      (status : String) (reason : Option Text) (db : Rows) (end : PhaseEnd (Tables fl lower))
      → MarkedIn status reason (sessions.begin db) end
      → Marked (Tables fl lower) (services around) now run_id status reason db end
  begin-Marked status reason db (finished later) h =
      h ∙ ap (with_run_status run_id status reason) (sessions.view-begin db)
  begin-Marked status reason db (raised e later) h = h ∙ sessions.saved-begin db

  -- The services write a status as a pipeline expects it.
  pub services-Marks : Marks (Tables fl lower) (services around) now run_id
  services-Marks status reason db =
      let s = sessions.begin db in
      begin-Marked status reason db (mark_in around run_id status reason s)
        (mark_in-MarkedIn status reason s)
