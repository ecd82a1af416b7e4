-- ===== src/Db/Session.antt =====
-- A SQLAlchemy session, as the services use it: what its queries see, what is committed, and steps
-- that either go on or raise. The library is the record `Sessions`, with what its documentation says.
use agentic_dev_ops.Prelude.{◌≡◌, refl, Option, none, some}
use agentic_dev_ops.Prelude.Text.{Text}

-- How a step ends: with a value, or with the text of an exception.
pub data Result (S A : Type 0) : Type 0 where
  ok : A → S → Result S A
  failed : Text → S → Result S A

abbrev pub Action : Type 0 → Type 0 → Type 0
Action S A = S → Result S A

module _ {S A : Type 0} where
  abbrev pub pure : A → Action S A
  pure a s = ok a s

  abbrev pub raise : Text → Action S A
  raise e s = failed e s

  abbrev pub or_raise : Text → Option A → Action S A
  or_raise e none = raise e
  or_raise e (some a) = pure a

  -- What holds at the end, of a value or of an exception.
  abbrev pub Ends : (A → S → Type 0) → (Text → S → Type 0) → Result S A → Type 0
  Ends Q E (ok a s) = Q a s
  Ends Q E (failed e s) = E e s

  -- `try: ... except Exception: pass`
  abbrev pub ignored : Result S A → Result S (Unit {0})
  ignored (ok a s) = ok tt s
  ignored (failed e s) = ok tt s

  abbrev pub best_effort : Action S A → Action S (Unit {0})
  best_effort m s = ignored (m s)

  -- The same, with the value if there is one.
  abbrev pub attempted : Result S A → Result S (Option A)
  attempted (ok a s) = ok (some a) s
  attempted (failed e s) = ok none s

  abbrev pub attempt : Action S A → Action S (Option A)
  attempt m s = attempted (m s)

abbrev pub and_then : {S A B : Type 0} → Result S A → (A → Action S B) → Result S B
and_then (ok a s) f = f a s
and_then (failed e s) f = failed e s

infixl 5 ◌>>=◌ ◌>>◌
abbrev pub ◌>>=◌ : {S A B : Type 0} → Action S A → (A → Action S B) → Action S B
◌>>=◌ m f s = and_then (m s) f

abbrev pub ◌>>◌ : {S A B : Type 0} → Action S A → Action S B → Action S B
m >> k = m >>= λ _. k

pub record Sessions (Store : Type 0) : Type 1 where
  pub Session : Type 0
  -- A new session on what is committed.
  pub begin : Store → Session
  -- The rows that its queries see, with its own writes.
  pub view : Session → Store
  -- The rows that are committed.
  pub saved : Session → Store
  -- What every statement raises, once the session's transaction is lost.
  pub problem : Session → Option Text
  -- A write, which has no result where it breaks a constraint of the tables.
  pub write : (Store → Option Store) → Action Session (Unit {0})
  pub commit : Action Session (Unit {0})
  pub view-begin : (db : Store) → view (begin db) ≡ db
  pub saved-begin : (db : Store) → saved (begin db) ≡ db
  -- A write is seen and not yet committed. A refused one loses the transaction.
  pub write_lem :
      (f : Store → Option Store) (s : Session)
      → Ends
          (λ _ t. (problem s ≡ none) × (f (view s) ≡ some (view t)) × (saved t ≡ saved s))
          (λ e t. (saved t ≡ saved s) × ((p : Text) × (problem t ≡ some p)))
          (write f s)
  -- A commit saves what is seen, and is refused once the transaction is lost.
  pub commit_lem :
      (s : Session)
      → Ends
          (λ _ t. (problem s ≡ none) × (view t ≡ view s) × (saved t ≡ view s))
          (λ e t. saved t ≡ saved s)
          (commit s)

-- A session that refuses nothing but what breaks a constraint.
pub record IsReliable {Store : Type 0} (db : Sessions Store) : Type 0 where
  pub writes :
      (f : Store → Option Store) (s : db.Session) (later : Store)
      → db.problem s ≡ none
      → f (db.view s) ≡ some later
      → (t : db.Session) × (db.write f s ≡ ok tt t) × (db.problem t ≡ none) × (db.view t ≡ later)
  pub commits :
      (s : db.Session)
      → db.problem s ≡ none
      → (t : db.Session) × (db.commit s ≡ ok tt t) × (db.problem t ≡ none)

-- What follows a step that ends as `Q` or `E` says.
pub and_then_lem :
    {S A B : Type 0} (Q : A → S → Type 0) (R : B → S → Type 0) (E : Text → S → Type 0)
    (r : Result S A) (f : A → Action S B)
    → Ends Q E r
    → ((a : A) (s : S) → Q a s → Ends R E (f a s))
    → Ends R E (and_then r f)
and_then_lem Q R E (ok a s) f h k = k a s h
and_then_lem Q R E (failed e s) f h k = h

pub Ends-map :
    {S A : Type 0} (Q R : A → S → Type 0) (E G : Text → S → Type 0) (r : Result S A)
    → ((a : A) (s : S) → Q a s → R a s)
    → ((e : Text) (s : S) → E e s → G e s)
    → Ends Q E r
    → Ends R G r
Ends-map Q R E G (ok a s) f g h = f a s h
Ends-map Q R E G (failed e s) f g h = g e s h

pub and_then_assoc :
    {S A B C : Type 0} (r : Result S A) (f : A → Action S B) (g : B → Action S C)
    → and_then (and_then r f) g ≡ and_then r (λ a s. and_then (f a s) g)
and_then_assoc (ok a s) f g = refl
and_then_assoc (failed e s) f g = refl
