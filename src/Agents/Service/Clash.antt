-- ===== src/Agents/Service/Clash.antt =====
-- What happens to a review whose findings have ids that are taken.
use agentic_dev_ops.Prelude.{
  ℕ, ◌≡◌, refl, sym, ap, ◌∙◌, Option, none, some, List, [], ◌∷◌, any, Bool, true, false, is_nil,
  nat_eq, ◌==◌, if◌then◌else◌,
}
use agentic_dev_ops.Prelude.Text.{Text, text_eq_instance}
use agentic_dev_ops.Db.Session.{
  Result, Ends, ok, failed, pure, and_then, and_then_lem, attempted, attempt,
}
use agentic_dev_ops.Db.Tables.{UnitRow, FindingRow, add_finding}
use agentic_dev_ops.Db.Daos.{Env, Rows, Do, create_finding}
use agentic_dev_ops.Db.Daos.Rules.{Post, update_rule}
use agentic_dev_ops.Agents.Filters.{OnDisk}
use agentic_dev_ops.Agents.Enrich.{RawFinding}
use agentic_dev_ops.Agents.Numbering.{
  Reviewers, Numbered, dedupe_key, numbered, both, with_key, finding_id, finding_row, number_from,
}
use agentic_dev_ops.Agents.Service.{persist_one, persist, store_findings}
use agentic_dev_ops.Agents.Service.Kept.{some-none}
use agentic_dev_ops.Worker.Runs.{AnalysisRun}

some_cons : {A : Type 0} {x y : A} {xs ys : List A} → some (x ∷ xs) ≡ some (y ∷ ys) → x ≡ y
some_cons e = cc

module _ ⦃env : Env⦄ (reviewers : Reviewers env.fl) (at : UnitRow → Text → OnDisk)
    (validate : Numbered env.fl.F → List Text) (run_id : ℕ) where
  open env use {fl, lower, sessions}
  open sessions use {Session, view, saved, problem, write, write_lem}

  first_id :
      (run : AnalysisRun) (f : RawFinding fl.F) (key : Option Text)
      (o : Option (List (Numbered fl.F))) (n : Numbered fl.F) (ns : List (Numbered fl.F))
      → both (with_key reviewers (numbered reviewers run_id run 1 f) key) o ≡ some (n ∷ ns)
      → n.finding_id ≡ finding_id reviewers 1
  unfolding numbered
  first_id run f none o n ns e = absurd (cc)
  first_id run f (some key) none n ns e = absurd (cc)
  first_id run f (some key) (some rest) n ns e = sym (ap (λ m. m.finding_id) (some_cons e))

  number_from-first :
      (run : AnalysisRun) (raw : List (RawFinding fl.F)) (n : Numbered fl.F)
      (ns : List (Numbered fl.F))
      → number_from reviewers run_id run 1 raw ≡ some (n ∷ ns)
      → n.finding_id ≡ finding_id reviewers 1
  unfolding number_from
  number_from-first run [] n ns e = absurd (cc)
  number_from-first run (f ∷ fs) n ns e =
      first_id run f (dedupe_key reviewers f) (number_from reviewers run_id run 2 fs) n ns e

  -- The transaction is lost.
  abbrev Lost : Rows → Session → Type 0
  Lost old s = (saved s ≡ old) × ((p : Text) × (problem s ≡ some p))

  abbrev Never : Text → Session → Type 0
  Never e s = ⊥

  refused_one :
      {A : Type 0} (old : Rows) (f : Rows → Option Rows) (row : A) (s : Session)
      (r : Result Session (Unit {0}))
      → saved s ≡ old
      → (problem s ≡ none → (db : Rows) → f (view s) ≡ some db → ⊥)
      → Ends
          (λ _ t. (problem s ≡ none) × (f (view s) ≡ some (view t)) × (saved t ≡ saved s))
          (λ e t. (saved t ≡ saved s) × ((p : Text) × (problem t ≡ some p)))
          r
      → Ends (λ _ t. Lost old t) Never (attempted (and_then r (λ _. pure row)))
  refused_one old f row s (ok a t) kept never (fine, wrote, same) =
      absurd (never fine (view t) wrote)
  refused_one old f row s (failed e t) kept never (same, lost) = (same ∙ kept, lost)

  create_refused :
      (old : Rows) (n : Numbered fl.F) (s : Session)
      → saved s ≡ old
      → (problem s ≡ none → any (λ f. f.finding_id == n.finding_id) (view s).rest.findings ≡ true)
      → Ends (λ _ t. Lost old t) Never (attempt (create_finding (finding_row reviewers run_id n)) s)
  unfolding create_finding add_finding
  create_refused old n s kept taken =
      let row = finding_row reviewers run_id n (env.uuid4 (view s)) in
      refused_one old (add_finding fl lower row) row s (write (add_finding fl lower row) s) kept
        (λ fine db e. some-none (rw (taken fine) refl) e) (write_lem (add_finding fl lower row) s)

  persist_one-Lost :
      (old : Rows) (n : Numbered fl.F) (s : Session) (b : Bool)
      → Lost old s
      → Ends
          (λ _ t. Lost old t)
          Never
          ((if b then attempt (create_finding (finding_row reviewers run_id n)) else pure none) s)
  persist_one-Lost old n s false h = h
  persist_one-Lost old n s true (kept, (p, lost)) =
      create_refused old n s kept (λ fine. absurd (some-none fine lost))

  persist-Lost :
      (old : Rows) (ns : List (Numbered fl.F)) (s : Session)
      → Lost old s
      → Ends (λ _ t. Lost old t) Never (persist reviewers at validate run_id ns s)
  unfolding persist persist_one
  persist-Lost old [] s h = h
  persist-Lost old (n ∷ ns) s h =
      and_then_lem (λ (_ : Option (FindingRow fl lower)) t. Lost old t)
        (λ (_ : List (FindingRow fl lower)) t. Lost old t) Never
        (persist_one reviewers at validate run_id n s) _
        (persist_one-Lost old n s (is_nil (validate n)) h)
        λ o t k.
          and_then_lem (λ (_ : List (FindingRow fl lower)) v. Lost old v)
            (λ (_ : List (FindingRow fl lower)) v. Lost old v) Never
            (persist reviewers at validate run_id ns t) _ (persist-Lost old ns t k) (λ _ v q. q)

  first_refused :
      (old : Rows) (n : Numbered fl.F) (ns : List (Numbered fl.F)) (s : Session)
      → saved s ≡ old
      → validate n ≡ []
      → (problem s ≡ none → any (λ f. f.finding_id == n.finding_id) (view s).rest.findings ≡ true)
      → Ends (λ _ t. Lost old t) Never (persist reviewers at validate run_id (n ∷ ns) s)
  unfolding persist persist_one
  first_refused old n ns s kept valid taken =
      and_then_lem (λ (_ : Option (FindingRow fl lower)) t. Lost old t)
        (λ (_ : List (FindingRow fl lower)) t. Lost old t) Never
        (persist_one reviewers at validate run_id n s) _
        (rw valid (create_refused old n s kept taken))
        λ o t k.
          and_then_lem (λ (_ : List (FindingRow fl lower)) v. Lost old v)
            (λ (_ : List (FindingRow fl lower)) v. Lost old v) Never
            (persist reviewers at validate run_id ns t) _ (persist-Lost old ns t k) (λ _ v q. q)

  Lost-rule :
      {A : Type 0} (old : Rows) (r : Result Session A) (k : A → Do (List (FindingRow fl lower)))
      → Ends (λ _ t. Lost old t) Never r
      → ((a : A) (t : Session) → Lost old t → Post (λ _ _. ⊥) (λ db. db ≡ old) (k a t))
      → Post (λ _ _. ⊥) (λ db. db ≡ old) (and_then r k)
  Lost-rule old (ok a t) k h f = f a t h
  Lost-rule old (failed e t) k h f = absurd h

  -- Where a stored finding has the first id of the day, as after any earlier run of that day that
  -- stored its first finding, the step of a review that stores its findings, with a first one that is
  -- valid, raises and commits nothing of its own: what was committed before it stays as it is. One
  -- refused row loses the transaction of all.
  pub store_findings-clash :
      (run : AnalysisRun) (raw : List (RawFinding fl.F)) (n : Numbered fl.F)
      (ns : List (Numbered fl.F)) (s : Session)
      → number_from reviewers run_id run 1 raw ≡ some (n ∷ ns)
      → validate n ≡ []
      → (problem s ≡ none
          → any (λ f. f.finding_id == finding_id reviewers 1) (view s).rest.findings ≡ true)
      → Ends
          (λ _ _. ⊥)
          (λ e t. saved t ≡ saved s)
          (store_findings reviewers at validate run_id (number_from reviewers run_id run 1 raw) s)
  unfolding store_findings
  store_findings-clash run raw n ns s numbers valid taken =
      let same = number_from-first run raw n ns numbers in
      let taken' : problem s ≡ none
          → any (λ f. f.finding_id == n.finding_id) (view s).rest.findings ≡ true =
        λ fine. rw same (taken fine) in
      rw numbers (
        Lost-rule (saved s) (persist reviewers at validate run_id (n ∷ ns) s) _
          (first_refused (saved s) n ns s refl valid taken')
          λ rows t (kept, (p, lost)).
            update_rule (λ _ _. ⊥) (λ db. db ≡ saved s) run_id "agent_review_completed" none t _
              kept λ u fine changed same. absurd (some-none fine lost))
