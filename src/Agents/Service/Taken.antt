-- ===== src/Agents/Service/Taken.antt =====
-- A whole review whose first finding has an id that is taken.
use agentic_dev_ops.Prelude.{
  ℕ, ◌≡◌, refl, sym, ap, subst, ◌∙◌, Option, none, some, List, [], ◌∷◌, ◌++◌, map, any, true,
  nat_eq, ◌==◌,
}
use agentic_dev_ops.Prelude.Dict.{lookup}
use agentic_dev_ops.Prelude.Text.{Text, text_eq_instance}
use agentic_dev_ops.Db.Session.{Result, Ends, ok, failed, Ends-map, and_then, and_then_lem, ignored}
use agentic_dev_ops.Db.Tables.{UnitRow, FindingRow, AuditEvent, add_event, units_of_run}
use agentic_dev_ops.Db.Daos.{Env, Rows, append, get_run, list_units}
use agentic_dev_ops.Db.Daos.Rules.{Post, reading_rule, update_rule, audited_rule}
use agentic_dev_ops.Agents.Filters.{OnDisk}
use agentic_dev_ops.Agents.Enrich.{RawFinding, value_or}
use agentic_dev_ops.Agents.Numbering.{
  Reviewers, Numbered, finding_id, number_from, enrich_all, context_of,
}
use agentic_dev_ops.Agents.Service.{
  append_all, agent_event, finish_agent, loop_of, run_agent, run_agents, tool_event, store_findings,
  review_units, reviewable, started_event, start_review, review_existing, review_run,
}
use agentic_dev_ops.Agents.Service.Clash.{store_findings-clash}
use agentic_dev_ops.Worker.Runs.{AnalysisRun}

module _ ⦃env : Env⦄ (reviewers : Reviewers env.fl) (at : UnitRow → Text → OnDisk)
    (validate : Numbered env.fl.F → List Text) (run_id : ℕ) where
  open env use {fl, lower, sessions}
  open sessions use {Session, view, saved, problem, write, write_lem}

  -- What the loop finds in a unit, completed, or nothing where the completion fails.
  abbrev pub found_in : UnitRow → List (RawFinding fl.F)
  found_in u =
      value_or (enrich_all reviewers (context_of reviewers u) (loop_of reviewers at validate u).0)
        []

  abbrev pub found_in_all : List UnitRow → List (RawFinding fl.F)
  found_in_all [] = []
  found_in_all (u ∷ us) = found_in u ++ found_in_all us

  abbrev Never : Text → Session → Type 0
  Never e s = ⊥

  -- The committed rows, and, unless the session is lost, the findings that it sees.
  abbrev Sees : List (FindingRow fl lower) → Rows → Session → Type 0
  Sees rows old s = (saved s ≡ old) × (problem s ≡ none → (view s).rest.findings ≡ rows)

  abbrev Gives : {A : Type 0} → List (FindingRow fl lower) → Rows → A → A → Session → Type 0
  Gives rows old a b s = (b ≡ a) × Sees rows old s

  tried-Sees :
      (rows : List (FindingRow fl lower)) (old : Rows) (event : AuditEvent fl lower) (s : Session)
      (r : Result Session (Unit {0}))
      → Ends
          (λ _ t.
            (problem s ≡ none)
            × (some (add_event fl lower event (view s)) ≡ some (view t))
            × (saved t ≡ saved s))
          (λ e t. (saved t ≡ saved s) × ((p : Text) × (problem t ≡ some p)))
          r
      → Sees rows old s
      → Ends (λ _ t. Sees rows old t) Never (ignored r)
  tried-Sees rows old event s (ok a t) (fine, wrote, same) (kept, seen) =
      (same ∙ kept, λ ready. sym (ap findings_of wrote) ∙ seen fine)
    where
      findings_of : Option Rows → List (FindingRow fl lower)
      findings_of none = []
      findings_of (some db) = db.rest.findings
  tried-Sees rows old event s (failed e t) (same, (p, lost)) (kept, seen) =
      (same ∙ kept, λ ready. absurd (cc))

  append-Sees :
      (rows : List (FindingRow fl lower)) (old : Rows) (event : AuditEvent fl lower) (s : Session)
      → Sees rows old s
      → Ends (λ _ t. Sees rows old t) Never (ignored (append event s))
  unfolding append
  append-Sees rows old event s h =
      let f = λ (db : Rows). some (add_event fl lower event db) in
      tried-Sees rows old event s (write f s) (write_lem f s) h

  append_all-Sees :
      (rows : List (FindingRow fl lower)) (old : Rows) (es : List (AuditEvent fl lower))
      (s : Session)
      → Sees rows old s
      → Ends (λ _ t. Sees rows old t) Never (append_all reviewers at validate es s)
  unfolding append_all
  append_all-Sees rows old [] s h = h
  append_all-Sees rows old (e ∷ es) s h =
      and_then_lem (λ _ t. Sees rows old t) (λ _ t. Sees rows old t) Never (ignored (append e s))
        (λ _. append_all reviewers at validate es) (append-Sees rows old e s h)
        (λ _ t k. append_all-Sees rows old es t k)

  finish_agent-Gives :
      (rows : List (FindingRow fl lower)) (old : Rows) (u : UnitRow) (s : Session)
      → Sees rows old s
      → Ends
          (Gives rows old (found_in u))
          Never
          (finish_agent reviewers at validate run_id u (loop_of reviewers at validate u).0 s)
  unfolding finish_agent
  finish_agent-Gives rows old u s h =
      let event = agent_event reviewers at validate run_id u (loop_of reviewers at validate u).0 in
      and_then_lem (λ (_ : Unit {0}) t. Sees rows old t) (Gives rows old (found_in u)) Never
        (ignored (append event s)) _ (append-Sees rows old event s h) (λ _ t k. (refl, k))

  run_agent-Gives :
      (rows : List (FindingRow fl lower)) (old : Rows) (u : UnitRow) (s : Session)
      → Sees rows old s
      → Ends (Gives rows old (found_in u)) Never (run_agent reviewers at validate run_id u s)
  unfolding run_agent
  run_agent-Gives rows old u s h =
      let (findings, run) = loop_of reviewers at validate u in
      let es = map (tool_event reviewers at validate run_id) run.audit in
      and_then_lem (λ (_ : Unit {0}) t. Sees rows old t) (Gives rows old (found_in u)) Never
        (append_all reviewers at validate es s)
        (λ _. finish_agent reviewers at validate run_id u findings)
        (append_all-Sees rows old es s h) (λ _ t k. finish_agent-Gives rows old u t k)

  run_agents-Gives :
      (rows : List (FindingRow fl lower)) (old : Rows) (us : List UnitRow) (s : Session)
      → Sees rows old s
      → Ends (Gives rows old (found_in_all us)) Never (run_agents reviewers at validate run_id us s)
  unfolding run_agents
  run_agents-Gives rows old [] s h = (refl, h)
  run_agents-Gives rows old (u ∷ us) s h =
      and_then_lem (Gives rows old (found_in u)) (Gives rows old (found_in_all (u ∷ us))) Never
        (run_agent reviewers at validate run_id u s) _ (run_agent-Gives rows old u s h)
        λ batch t (e, k).
          and_then_lem (Gives rows old (found_in_all us)) (Gives rows old (found_in_all (u ∷ us)))
            Never (run_agents reviewers at validate run_id us t) _
            (run_agents-Gives rows old us t k) (λ batches v (f, q). (rw (e, f) refl, q))

  -- The first finding is valid, and a stored finding has its id.
  abbrev pub IsTaken : AnalysisRun → List UnitRow → List (FindingRow fl lower) → Type 0
  IsTaken run us rows =
      ((n : Numbered fl.F) × (ns : List (Numbered fl.F)) × (number_from reviewers run_id run 1
            (found_in_all us)
          ≡ some (n ∷ ns))
        × (validate n ≡ []))
      × (any (λ f. f.finding_id == finding_id reviewers 1) rows ≡ true)

  -- No result, and the committed findings stay.
  abbrev Refused : List (FindingRow fl lower) → Result Session (List (FindingRow fl lower)) → Type 0
  Refused rows = Post (λ _ _. ⊥) (λ db. db.rest.findings ≡ rows)

  stored_rule :
      (run : AnalysisRun) (rows : List (FindingRow fl lower)) (old : Rows) (us : List UnitRow)
      (raw : List (RawFinding fl.F)) (s : Session)
      → IsTaken run us rows
      → old.rest.findings ≡ rows
      → Gives rows old (found_in_all us) raw s
      → Refused rows
          (store_findings reviewers at validate run_id (number_from reviewers run_id run 1 raw) s)
  stored_rule run rows old us raw s ((n, ns, numbers, valid), taken) kept (e, (same, seen)) =
      let all = found_in_all us in
      let numbered = number_from reviewers run_id run 1 in
      subst (λ r. Refused rows (store_findings reviewers at validate run_id (numbered r) s)) (sym e)
        (Ends-map _ _ _ _ (store_findings reviewers at validate run_id (numbered all) s)
          (λ r t k. k) (λ x t k. ap (λ (db : Rows). db.rest.findings) (k ∙ same) ∙ kept)
          (store_findings-clash reviewers at validate run_id run all n ns s numbers valid
            (λ fine. rw (seen fine) taken)))

  review_units-Refused :
      (run : AnalysisRun) (rows : List (FindingRow fl lower)) (us : List UnitRow) (s : Session)
      → IsTaken run us rows
      → (saved s).rest.findings ≡ rows
      → (view s).rest.findings ≡ rows
      → Refused rows (review_units reviewers at validate run_id run us s)
  unfolding review_units
  review_units-Refused run rows [] s ((n, ns, numbers, valid), taken) kept seen =
      absurd (unfold number_from in cc)
  review_units-Refused run rows (u ∷ us) s h kept seen =
      given_rule (run_agents reviewers at validate run_id (u ∷ us) s)
        (run_agents-Gives rows (saved s) (u ∷ us) s (refl, λ fine. seen))
        λ raw t. stored_rule run rows (saved s) (u ∷ us) raw t h kept
    where
      given_rule :
          (r : Result Session (List (RawFinding fl.F)))
          → Ends (Gives rows (saved s) (found_in_all (u ∷ us))) Never r
          → ((raw : List (RawFinding fl.F)) (t : Session)
              → Gives rows (saved s) (found_in_all (u ∷ us)) raw t
              → Refused rows (
                  store_findings reviewers at validate run_id
                    (number_from reviewers run_id run 1 raw)
                    t))
          → Refused rows (
              and_then r (λ raw.
                store_findings reviewers at validate run_id
                  (number_from reviewers run_id run 1 raw)))
      given_rule (ok raw t) g f = f raw t g
      given_rule (failed e t) g f = absurd g

  start_review-Refused :
      (run : AnalysisRun) (rows : List (FindingRow fl lower)) (us : List UnitRow) (s : Session)
      → IsTaken run (reviewable reviewers at validate us) rows
      → (saved s).rest.findings ≡ rows
      → (view s).rest.findings ≡ rows
      → Refused rows (start_review reviewers at validate run_id run us s)
  unfolding start_review
  start_review-Refused run rows us s h kept seen =
      let event =
        started_event reviewers at validate run_id (reviewable reviewers at validate us) in
      let findings = λ (db : Rows). db.rest.findings in
      let E = λ (db : Rows). db.rest.findings ≡ rows in
      update_rule (λ _ _. ⊥) E run_id "agent_review_started" none s _ kept
        λ t fine changed same.
          audited_rule (λ _ _. ⊥) E event t _ (ap findings same ∙ kept)
            λ u shown stored.
              let now = ap (add_event fl lower event) changed in
              review_units-Refused run rows (reviewable reviewers at validate us) u h
                (ap findings (stored ∙ now) ∙ seen) (ap findings (shown ∙ now) ∙ seen)

  -- Where a stored finding has the first id of the day, as after any earlier run of that day that
  -- stored its first finding, a review from a session without writes of its own whose first finding
  -- is valid never returns: it raises, and no finding of it is committed. What is found are the
  -- findings of the units that are worth a review, in their order.
  pub review_run-clash :
      (run : AnalysisRun) (s : Session)
      → view s ≡ saved s
      → lookup run_id (view s).runs ≡ some run
      → IsTaken run
          (reviewable reviewers at validate (units_of_run run_id (view s).rest.units))
          (view s).rest.findings
      → Ends
          (λ _ _. ⊥)
          (λ e t. (saved t).rest.findings ≡ (saved s).rest.findings)
          (review_run reviewers at validate run_id s)
  unfolding review_run review_existing get_run list_units
  review_run-clash run s fresh found taken =
      let rows = (saved s).rest.findings in
      let E = λ (db : Rows). db.rest.findings ≡ rows in
      let same : (view s).rest.findings ≡ rows = ap (λ (db : Rows). db.rest.findings) fresh in
      let us = units_of_run run_id (view s).rest.units in
      reading_rule (λ _ _. ⊥) E (λ (db : Rows). lookup run_id db.runs) s
        (review_existing reviewers at validate run_id) refl
        (rw found (
          reading_rule (λ _ _. ⊥) E (λ (db : Rows). units_of_run run_id db.rest.units) s
            (start_review reviewers at validate run_id run) refl
            (start_review-Refused run rows us s
              (subst (IsTaken run (reviewable reviewers at validate us)) same taken) refl same)))
