-- ===== src/Agents/Service/Kept.antt =====
-- What the writes of a review keep, before it ends.
use agentic_dev_ops.Prelude.{
  ℕ, ◌≡◌, refl, sym, ap, subst, ◌∙◌, Option, none, some, List, [], ◌∷◌, ◌++◌, map, String, Bool,
  true, false, is_nil, nat_eq, if◌then◌else◌,
}
use mathlib.Core.List.{append-nil, append_assoc}
use agentic_dev_ops.Prelude.Text.{Text}
use agentic_dev_ops.Db.Session.{
  Result, Ends, ok, failed, pure, and_then, and_then_lem, ignored, attempted, attempt,
}
use agentic_dev_ops.Db.Tables.{UnitRow, FindingRow, AuditEvent, add_event, add_finding}
use agentic_dev_ops.Db.Daos.{Env, Rows, create_finding, append}
use agentic_dev_ops.Db.Daos.Rules.{some_inj, unless_some}
use agentic_dev_ops.Agents.Filters.{OnDisk}
use agentic_dev_ops.Agents.Enrich.{RawFinding}
use agentic_dev_ops.Agents.Numbering.{Reviewers, Numbered, cons_some, finding_row}
use agentic_dev_ops.Agents.Service.{
  persist_one, persist, append_all, agent_event, finish_agent, loop_of, run_agent, run_agents,
  tool_event,
}
use agentic_dev_ops.Worker.Workflow.{status_of, Reviewing}

pub some-none : {A : Type 0} {x : A} {o : Option A} → o ≡ none → o ≡ some x → ⊥
some-none e f = absurd (cc)

module _ ⦃env : Env⦄ (reviewers : Reviewers env.fl) (at : UnitRow → Text → OnDisk)
    (validate : Numbered env.fl.F → List Text) (run_id : ℕ)
    (kept_rows : List (FindingRow env.fl env.lower)) where
  open env use {fl, lower, sessions, now}
  open sessions use {Session, view, saved, problem, write, write_lem}

  -- What a review that raises may leave: a status of its own, and no finding.
  abbrev pub Walk : Rows → Type 0
  Walk db = Reviewing (status_of run_id db.runs) × (db.rest.findings ≡ kept_rows)

  -- The status is committed; what is seen, unless the session is lost, has it and these findings.
  abbrev pub At : String → List (FindingRow fl lower) → Session → Type 0
  At x rows s =
      Walk (saved s)
      × (status_of run_id (saved s).runs ≡ some x)
      × (problem s ≡ none
          → (status_of run_id (view s).runs ≡ some x) × ((view s).rest.findings ≡ rows))

  abbrev pub Never : Text → Session → Type 0
  Never e s = ⊥

  -- A write that leaves the runs. Of a session that is lost, anything may be said of what is seen.
  write-At :
      (x : String) (rows more : List (FindingRow fl lower)) (f : Rows → Option Rows) (s : Session)
      (r : Result Session (Unit {0}))
      → At x rows s
      → ((db : Rows)
          → f (view s) ≡ some db
          → (view s).rest.findings ≡ rows
          → (db.runs ≡ (view s).runs) × (db.rest.findings ≡ more))
      → Ends
          (λ _ t. (problem s ≡ none) × (f (view s) ≡ some (view t)) × (saved t ≡ saved s))
          (λ e t. (saved t ≡ saved s) × ((p : Text) × (problem t ≡ some p)))
          r
      → Ends (λ _ t. At x more t) (λ _ t. (any : List (FindingRow fl lower)) → At x any t) r
  write-At x rows more f s (ok a t) (reach, kept, seen) keeps (fine, wrote, same) =
      let (status, found) = seen fine in
      let (runs, findings) = keeps (view t) wrote found in
      (
        subst Walk (sym same) reach,
        ap (λ (db : Rows). status_of run_id db.runs) same ∙ kept,
        λ ready. (ap (status_of run_id) runs ∙ status, findings),
      )
  write-At x rows more f s (failed e t) (reach, kept, seen) keeps (same, (p, lost)) = λ any. (
    subst Walk (sym same) reach,
    ap (λ (db : Rows). status_of run_id db.runs) same ∙ kept,
    λ ready. absurd (some-none ready lost),
  )

  tried-At :
      (x : String) (rows : List (FindingRow fl lower)) (r : Result Session (Unit {0}))
      → Ends (λ _ t. At x rows t) (λ _ t. (any : List (FindingRow fl lower)) → At x any t) r
      → Ends (λ _ t. At x rows t) Never (ignored r)
  tried-At x rows (ok a t) h = h
  tried-At x rows (failed e t) h = h rows

  append-At :
      (x : String) (rows : List (FindingRow fl lower)) (event : AuditEvent fl lower) (s : Session)
      → At x rows s
      → Ends (λ _ t. At x rows t) Never (ignored (append event s))
  unfolding append
  append-At x rows event s h =
      let f = λ (db : Rows). some (add_event fl lower event db) in
      tried-At x rows (write f s) (
        write-At x rows rows f s (write f s) h
          (λ db e found. (
            sym (ap (λ (d : Rows). d.runs) (some_inj e)),
            sym (ap (λ (d : Rows). d.rest.findings) (some_inj e)) ∙ found,
          ))
          (write_lem f s))

  append_all-At :
      (x : String) (rows : List (FindingRow fl lower)) (es : List (AuditEvent fl lower))
      (s : Session)
      → At x rows s
      → Ends (λ _ t. At x rows t) Never (append_all reviewers at validate es s)
  unfolding append_all
  append_all-At x rows [] s h = h
  append_all-At x rows (e ∷ es) s h =
      and_then_lem (λ _ t. At x rows t) (λ _ t. At x rows t) Never (ignored (append e s))
        (λ _. append_all reviewers at validate es) (append-At x rows e s h)
        (λ _ t k. append_all-At x rows es t k)

  finish_agent-At :
      (x : String) (rows : List (FindingRow fl lower)) (u : UnitRow)
      (found : List (RawFinding fl.F)) (s : Session)
      → At x rows s
      → Ends (λ _ t. At x rows t) Never (finish_agent reviewers at validate run_id u found s)
  unfolding finish_agent
  finish_agent-At x rows u found s h =
      let event = agent_event reviewers at validate run_id u found in
      and_then_lem (λ (_ : Unit {0}) t. At x rows t) (λ (_ : List (RawFinding fl.F)) t. At x rows t)
        Never (ignored (append event s)) _ (append-At x rows event s h) (λ _ t k. k)

  run_agent-At :
      (x : String) (rows : List (FindingRow fl lower)) (u : UnitRow) (s : Session)
      → At x rows s
      → Ends (λ _ t. At x rows t) Never (run_agent reviewers at validate run_id u s)
  unfolding run_agent
  run_agent-At x rows u s h =
      let (findings, run) = loop_of reviewers at validate u in
      let es = map (tool_event reviewers at validate run_id) run.audit in
      and_then_lem (λ (_ : Unit {0}) t. At x rows t) (λ (_ : List (RawFinding fl.F)) t. At x rows t)
        Never (append_all reviewers at validate es s)
        (λ _. finish_agent reviewers at validate run_id u findings) (append_all-At x rows es s h)
        (λ _ t k. finish_agent-At x rows u findings t k)

  pub run_agents-At :
      (x : String) (rows : List (FindingRow fl lower)) (us : List UnitRow) (s : Session)
      → At x rows s
      → Ends (λ _ t. At x rows t) Never (run_agents reviewers at validate run_id us s)
  unfolding run_agents
  run_agents-At x rows [] s h = h
  run_agents-At x rows (u ∷ us) s h =
      and_then_lem (λ (_ : List (RawFinding fl.F)) t. At x rows t)
        (λ (_ : List (RawFinding fl.F)) t. At x rows t) Never
        (run_agent reviewers at validate run_id u s) _ (run_agent-At x rows u s h)
        λ batch t k.
          and_then_lem (λ (_ : List (RawFinding fl.F)) v. At x rows v)
            (λ (_ : List (RawFinding fl.F)) v. At x rows v) Never
            (run_agents reviewers at validate run_id us t) _ (run_agents-At x rows us t k)
            (λ _ v q. q)

  -- The rows that are returned are those that are added, unless the session is lost.
  abbrev one : {A : Type 0} → Option A → List A
  one o = cons_some o []

  persisted_one :
      (x : String) (rows : List (FindingRow fl lower)) (row : FindingRow fl lower)
      (r : Result Session (Unit {0}))
      → Ends
          (λ _ t. At x (rows ++ row ∷ []) t)
          (λ _ t. (any : List (FindingRow fl lower)) → At x any t)
          r
      → Ends (λ o t. At x (rows ++ one o) t) Never (attempted (and_then r (λ _. pure row)))
  persisted_one x rows row (ok a t) h = h
  persisted_one x rows row (failed e t) h = h (rows ++ [])

  persist_when :
      (x : String) (rows : List (FindingRow fl lower)) (n : Numbered fl.F) (s : Session) (b : Bool)
      → At x rows s
      → Ends
          (λ o t. At x (rows ++ one o) t)
          Never
          ((if b then attempt (create_finding (finding_row reviewers run_id n)) else pure none) s)
  unfolding create_finding add_finding
  persist_when x rows n s false h = rw (append-nil rows) h
  persist_when x rows n s true h =
      let row = finding_row reviewers run_id n (env.uuid4 (view s)) in
      let f = add_finding fl lower row in
      persisted_one x rows row (write f s) (
        write-At x rows (rows ++ row ∷ []) f s (write f s) h
          (λ db e found.
            let q = unless_some _ _ db e in
            (
              ap (λ (d : Rows). d.runs) q,
              ap (λ (d : Rows). d.rest.findings) q ∙ ap (λ l. l ++ row ∷ []) found,
            ))
          (write_lem f s))

  one-append : {A : Type 0} (o : Option A) (xs : List A) → one o ++ xs ≡ cons_some o xs
  one-append none xs = refl
  one-append (some x) xs = refl

  pub persist-At :
      (x : String) (rows : List (FindingRow fl lower)) (ns : List (Numbered fl.F)) (s : Session)
      → At x rows s
      → Ends (λ new t. At x (rows ++ new) t) Never (persist reviewers at validate run_id ns s)
  unfolding persist persist_one
  persist-At x rows [] s h = rw (append-nil rows) h
  persist-At x rows (n ∷ ns) s h =
      and_then_lem (λ o t. At x (rows ++ one o) t) (λ new t. At x (rows ++ new) t) Never
        (persist_one reviewers at validate run_id n s) _
        (persist_when x rows n s (is_nil (validate n)) h)
        λ o t k.
          and_then_lem (λ new v. At x ((rows ++ one o) ++ new) v) (λ new v. At x (rows ++ new) v)
            Never (persist reviewers at validate run_id ns t) _
            (persist-At x (rows ++ one o) ns t k)
            λ more v q.
              subst (λ l. At x l v)
                (append_assoc rows (one o) more ∙ ap (λ l. rows ++ l) (one-append o more)) q
