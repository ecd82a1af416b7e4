-- ===== src/Db/Daos/Rules.antt =====
-- Rules to prove what a service leaves behind, one for each kind of access. `E` is what the rows that
-- are committed satisfy after an exception.
use agentic_dev_ops.Prelude.{
  nat_eq, ◌≡◌, refl, sym, subst, ◌∙◌, Option, none, some, ℕ, String, Bool, true, false,
  if◌then◌else◌,
}
use agentic_dev_ops.Prelude.Text.{Text}
use agentic_dev_ops.Db.Session.{Result, ok, failed, Ends, and_then, and_then_assoc, ignored, pure}
use agentic_dev_ops.Db.Tables.{AuditEvent, add_event}
use agentic_dev_ops.Db.Daos.{
  Env, Rows, Do, commit, read_unless, reading, append, with_run_status, update_found, update_run,
  get_run,
}
use agentic_dev_ops.Worker.Runs.{AnalysisRun, update_status, set_status}
use agentic_dev_ops.Prelude.Dict.{lookup}

pub some_inj : {A : Type 0} {x y : A} → some x ≡ some y → x ≡ y
some_inj e = cc

-- A write with a constraint that has succeeded.
pub unless_some : {A : Type 0} (b : Bool) (x y : A) → (if b then none else some x) ≡ some y → y ≡ x
unless_some true x y e = absurd (cc)
unless_some false x y e = sym (some_inj e)

module _ ⦃env : Env⦄ where
  open env use {fl, lower, sessions}
  open sessions use {Session, view, saved, problem, write, write_lem, commit_lem}

  -- What holds of a value and the session, or of the committed rows after an exception.
  abbrev pub Post :
      {B : Type 0} → (B → Session → Type 0) → (Rows → Type 0) → Result Session B → Type 0
  Post R E = Ends R (λ e t. E (saved t))

  module _ {A B : Type 0} (R : B → Session → Type 0) (E : Rows → Type 0) where
    read_unless_rule :
        (o : Option Text) (a : A) (s : Session) (k : A → Do B)
        → E (saved s)
        → Post R E (k a s)
        → Post R E (and_then (read_unless o a s) k)
    read_unless_rule none a s k e h = h
    read_unless_rule (some p) a s k e h = e

    pub reading_rule :
        (f : Rows → A) (s : Session) (k : A → Do B)
        → E (saved s)
        → Post R E (k (f (view s)) s)
        → Post R E (and_then (reading f s) k)
    unfolding reading
    reading_rule f s k e h = read_unless_rule (problem s) (f (view s)) s k e h

  module _ {B : Type 0} (R : B → Session → Type 0) (E : Rows → Type 0) where
    written_rule :
        (f : Rows → Option Rows) (s : Session) (k : Unit {0} → Do B) (r : Result Session (Unit {0}))
        → Ends
            (λ _ t. (problem s ≡ none) × (f (view s) ≡ some (view t)) × (saved t ≡ saved s))
            (λ e t. (saved t ≡ saved s) × ((p : Text) × (problem t ≡ some p)))
            r
        → E (saved s)
        → ((t : Session)
            → problem s ≡ none
            → f (view s) ≡ some (view t)
            → saved t ≡ saved s
            → Post R E (k tt t))
        → Post R E (and_then r k)
    written_rule f s k (ok a t) (fine, seen, kept) e h = h t fine seen kept
    written_rule f s k (failed p t) (kept, lost) e h = subst E (sym kept) e

    pub write_rule :
        (f : Rows → Option Rows) (s : Session) (k : Unit {0} → Do B)
        → E (saved s)
        → ((t : Session)
            → problem s ≡ none
            → f (view s) ≡ some (view t)
            → saved t ≡ saved s
            → Post R E (k tt t))
        → Post R E (and_then (write f s) k)
    write_rule f s k e h = written_rule f s k (write f s) (write_lem f s) e h

    committed_rule :
        (s : Session) (k : Unit {0} → Do B) (r : Result Session (Unit {0}))
        → Ends
            (λ _ t. (problem s ≡ none) × (view t ≡ view s) × (saved t ≡ view s))
            (λ e t. saved t ≡ saved s)
            r
        → E (saved s)
        → ((t : Session)
            → problem s ≡ none
            → view t ≡ view s
            → saved t ≡ view s
            → Post R E (k tt t))
        → Post R E (and_then r k)
    committed_rule s k (ok a t) (fine, seen, kept) e h = h t fine seen kept
    committed_rule s k (failed p t) l e h = subst E (sym l) e

    pub commit_rule :
        (s : Session) (k : Unit {0} → Do B)
        → E (saved s)
        → ((t : Session)
            → problem s ≡ none
            → view t ≡ view s
            → saved t ≡ view s
            → Post R E (k tt t))
        → Post R E (and_then (commit s) k)
    commit_rule s k e h = committed_rule s k (commit s) (commit_lem s) e h

    -- A step that is tried, whatever it ends with.
    pub ignored_rule :
        {A : Type 0} (Q : Session → Type 0) (r : Result Session A) (k : Unit {0} → Do B)
        → Ends (λ _ t. Q t) (λ _ t. Q t) r
        → ((t : Session) → Q t → Post R E (k tt t))
        → Post R E (and_then (ignored r) k)
    ignored_rule Q (ok a t) k q h = h t q
    ignored_rule Q (failed e t) k q h = h t q

    -- After a write that was refused, nothing is committed any more.
    lost_rule :
        (s : Session) (k : Unit {0} → Do B) (p : Text)
        → problem s ≡ some p
        → E (saved s)
        → Post R E (and_then (commit s) k)
    lost_rule s k p lost e = commit_rule s k e λ t fine seen kept. absurd (cc)

    tried_rule :
        (event : AuditEvent fl lower) (s : Session) (k : Unit {0} → Do B)
        (r : Result Session (Unit {0}))
        → Ends
            (λ _ t.
              (problem s ≡ none)
              × (some (add_event fl lower event (view s)) ≡ some (view t))
              × (saved t ≡ saved s))
            (λ e t. (saved t ≡ saved s) × ((p : Text) × (problem t ≡ some p)))
            r
        → E (saved s)
        → ((t : Session)
            → view t ≡ add_event fl lower event (view s)
            → saved t ≡ add_event fl lower event (view s)
            → Post R E (k tt t))
        → Post R E (and_then (ignored r) (λ _ t. and_then (commit t) k))
    tried_rule event s k (ok a t) (fine, seen, kept) e h =
        commit_rule t k (subst E (sym kept) e)
          λ u ready same now. h u (same ∙ sym (some_inj seen)) (now ∙ sym (some_inj seen))
    tried_rule event s k (failed x t) (kept, (p, lost)) e h =
        lost_rule t k p lost (subst E (sym kept) e)

    -- An audit event that is tried, and a commit: both are done, or nothing is.
    pub audited_rule :
        (event : AuditEvent fl lower) (s : Session) (k : Unit {0} → Do B)
        → E (saved s)
        → ((t : Session)
            → view t ≡ add_event fl lower event (view s)
            → saved t ≡ add_event fl lower event (view s)
            → Post R E (k tt t))
        → Post R E (and_then (ignored (append event s)) (λ _ t. and_then (commit t) k))
    unfolding append
    audited_rule event s k e h =
        tried_rule event s k (write (λ (db : Rows). some (add_event fl lower event db)) s)
          (write_lem (λ (db : Rows). some (add_event fl lower event db)) s) e h

    found_rule :
        (run_id : ℕ) (status : String) (reason : Option Text) (o : Option AnalysisRun) (s : Session)
        (k : Unit {0} → Do B)
        → lookup run_id (view s).runs ≡ o
        → E (saved s)
        → ((t : Session)
            → view t ≡ with_run_status run_id status reason (view s)
            → saved t ≡ saved s
            → Post R E (k tt t))
        → Post R E (and_then (update_found run_id status reason o s) k)
    unfolding update_found
    found_rule run_id status reason none s k found e h =
        h s (unfold update_status set_status in rw found refl) refl
    found_rule run_id status reason (some run) s k found e h =
        write_rule (λ (db : Rows). some (with_run_status run_id status reason db)) s k e
          λ t fine seen kept. h t (sym (some_inj seen)) kept

    read_fine_rule :
        {A : Type 0} (o : Option Text) (a : A) (s : Session) (k : A → Do B)
        → problem s ≡ o
        → E (saved s)
        → (problem s ≡ none → Post R E (k a s))
        → Post R E (and_then (read_unless o a s) k)
    read_fine_rule none a s k fine e h = h fine
    read_fine_rule (some p) a s k fine e h = e

    -- A change of the run's status, which is seen and not yet committed.
    pub update_rule :
        (run_id : ℕ) (status : String) (reason : Option Text) (s : Session) (k : Unit {0} → Do B)
        → E (saved s)
        → ((t : Session)
            → problem s ≡ none
            → view t ≡ with_run_status run_id status reason (view s)
            → saved t ≡ saved s
            → Post R E (k tt t))
        → Post R E (and_then (update_run run_id status reason s) k)
    unfolding update_run get_run reading
    update_rule run_id status reason s k e h =
        rw (and_then_assoc (get_run run_id s) (update_found run_id status reason) k) (
          read_fine_rule (problem s) (lookup run_id (view s).runs) s
            (λ o t. and_then (update_found run_id status reason o t) k) refl e
            λ fine.
              found_rule run_id status reason (lookup run_id (view s).runs) s k refl e
                λ t changed same. h t fine changed same)

    -- A row that is added, and returned.
    pub added_rule :
        {A : Type 0} (f : Rows → Option Rows) (row : A) (s : Session) (k : A → Do B)
        → E (saved s)
        → ((t : Session) → f (view s) ≡ some (view t) → saved t ≡ saved s → Post R E (k row t))
        → Post R E (and_then (and_then (write f s) (λ _. pure row)) k)
    added_rule f row s k e h =
        rw (and_then_assoc (write f s) (λ _. pure row) k)
          (write_rule f s (λ _ t. k row t) e λ t fine seen kept. h t seen kept)
