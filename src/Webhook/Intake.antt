-- ===== src/Webhook/Intake.antt =====
-- What a webhook changes.
use agentic_dev_ops.Prelude.{
  ℕ, ◌≡◌, refl, sym, ap, ◌∙◌, ◌≢◌, ◌⊎◌, ◌==◌, ==_eq, inl, inr, false, Bool-cases, not, ◌&&◌, Option,
  none, some, List, [], ◌∷◌, ◌++◌, String, map, nat_beq, is_nil,
}
use mathlib.Core.List.{append-nil, map-append}
use agentic_dev_ops.Prelude.Text.{Text, text_eq_instance}
use agentic_dev_ops.Db.Repositories.{Repository, repository_named, set_clone_url}
use agentic_dev_ops.Worker.Runs.{AnalysisRun}
use agentic_dev_ops.Webhook.Events.{
  Payload, EventData, verify_token, parse_push, parse_merge_request, is_missing,
}
use agentic_dev_ops.Webhook.Route.{
  State, fill_clone_url, run_for, add_run, create_run_in, create_run, Reply, forbidden, queued,
  queue_error, on_created, Pool, no_pool, accepting, refusing, EventKind, push, merge_request,
  unhandled, enqueue, handle_event, handle_body, gitlab_webhook,
}

-- The access tokens by repository.
abbrev pub tokens : List Repository → List (Text × Option Text)
tokens rs = map (λ r. (r.full_name, r.access_token)) rs

tokens-set_clone_url :
    (now id : ℕ) (url : Text) (rs : List Repository)
    → tokens (set_clone_url now id url rs) ≡ tokens rs
unfolding set_clone_url
tokens-set_clone_url now id url [] = refl
tokens-set_clone_url now id url (r ∷ rs) =
    let ih = tokens-set_clone_url now id url rs in
    elim (Bool-cases (nat_beq r.repository_id id)) [
      | inl e ↦ rw (e, ih) refl
      | inr e ↦ rw (e, ih) refl
    ]

tokens-fill_clone_url :
    (now : ℕ) (repo : Repository) (url : Option Text) (rs : List Repository)
    → tokens (fill_clone_url now repo url rs) ≡ tokens rs
unfolding fill_clone_url
tokens-fill_clone_url now repo none rs = refl
tokens-fill_clone_url now repo (some url) rs =
    elim (Bool-cases (not (is_nil url) && is_missing repo.clone_url)) [
      | inl e ↦ rw e (tokens-set_clone_url now repo.repository_id url rs)
      | inr e ↦ rw e refl
    ]

module _ (secret policy_version scoring_version : Text) (now : ℕ) where
  abbrev Answer : Type 0
  Answer = Reply secret policy_version scoring_version now

  abbrev pub Queue : Type 0
  Queue = Pool secret policy_version scoring_version now

  abbrev pub IsQueued : Answer → Type 0
  IsQueued (queued id event) = Unit
  IsQueued r = ⊥

  -- A run has been added, and its job, if the queue is there; the repositories that were there keep
  -- their tokens.
  abbrev pub HasRun : State → ℕ × State → Type 0
  HasRun st (id, later) =
      (run : AnalysisRun) × (later.runs ≡ st.runs ++ (id, run) ∷ [])
      × (run.status ≡ "trigger_received")
      × (later.queue ≡ st.queue)
      × ((more : List (Text × Option Text)) × (tokens later.repositories
            ≡ tokens st.repositories ++ more))

  -- What the answer and the queue are for a new run: a job if the queue takes it, and the error of
  -- the queue if it refuses.
  abbrev pub Answered : Queue → ℕ → State → Answer × State → Type 0
  Answered no_pool id st (reply, later) =
      ((event : Text) × (reply ≡ queued id event)) × (later.queue ≡ st.queue)
  Answered accepting id st (reply, later) =
      ((event : Text) × (reply ≡ queued id event)) × (later.queue ≡ st.queue ++ id ∷ [])
  Answered (refusing e) id st (reply, later) = (reply ≡ queue_error e) × (later.queue ≡ st.queue)

  abbrev pub Created : Queue → State → Answer × State → Type 0
  Created pool st (reply, later) =
      (id : ℕ) × (run : AnalysisRun) × Answered pool id st (reply, later)
      × (later.runs ≡ st.runs ++ (id, run) ∷ [])
      × (run.status ≡ "trigger_received")
      × ((more : List (Text × Option Text)) × (tokens later.repositories
            ≡ tokens st.repositories ++ more))

  -- Nothing has changed and no run is reported; or a run has been created.
  abbrev pub Effect : Queue → State → Answer × State → Type 0
  Effect pool st (reply, later) =
      (IsQueued reply → ⊥) × (later ≡ st) ⊎ Created pool st (reply, later)

  create_run_in-HasRun :
      (event : EventData) (trigger_type : String) (st : State) (o : Option Repository)
      → HasRun st (create_run_in secret policy_version scoring_version now event trigger_type st o)
  unfolding create_run_in add_run run_for
  create_run_in-HasRun event trigger_type st (some repo) = (
    _,
    refl,
    refl,
    refl,
    ([], tokens-fill_clone_url now repo event.clone_url st.repositories ∙ sym (append-nil _)),
  )
  create_run_in-HasRun event trigger_type st none =
      (_, refl, refl, refl, (_, map-append _ st.repositories _))

  enqueue-Created :
      (pool : Queue) (name : Text) (st : State) (made : ℕ × State)
      → HasRun st made
      → Created pool st (enqueue secret policy_version scoring_version now pool name made)
  unfolding enqueue
  enqueue-Created no_pool name st (id, later) (run, runs, status, queue, kept) =
      (id, run, ((name, refl), queue), runs, status, kept)
  enqueue-Created accepting name st (id, later) (run, runs, status, queue, kept) =
      (id, run, ((name, refl), ap (λ q. q ++ id ∷ []) queue), runs, status, kept)
  enqueue-Created (refusing e) name st (id, later) (run, runs, status, queue, kept) =
      (id, run, (refl, queue), runs, status, kept)

  on_created-Effect :
      (pool : Queue) (name : Text) (st : State) (o : Option Text) (made : ℕ × State)
      → HasRun st made
      → Effect pool st (on_created secret policy_version scoring_version now pool name st o made)
  unfolding on_created
  on_created-Effect pool name st none made h = inr (enqueue-Created pool name st made h)
  on_created-Effect pool name st (some e) made h = inl ((λ q. q), refl)

  handle_event-Effect :
      (pool : Queue) (name : Text) (trigger_type : String) (o : Option EventData) (st : State)
      → Effect pool st
          (handle_event secret policy_version scoring_version now pool name trigger_type o st)
  unfolding handle_event create_run
  handle_event-Effect pool name trigger_type none st = inl ((λ q. q), refl)
  handle_event-Effect pool name trigger_type (some event) st =
      let found = repository_named event.repository_full_name st.repositories in
      on_created-Effect pool name st st.refuses
        (create_run_in secret policy_version scoring_version now event trigger_type st found)
        (create_run_in-HasRun event trigger_type st found)

  handle_body-Effect :
      (pool : Queue) (name : Text) (kind : EventKind secret policy_version scoring_version now)
      (o : Option Payload) (st : State)
      → Effect pool st (handle_body secret policy_version scoring_version now pool name kind o st)
  unfolding handle_body
  handle_body-Effect pool name (unhandled m) o st = inl ((λ q. q), refl)
  handle_body-Effect pool name push none st = inl ((λ q. q), refl)
  handle_body-Effect pool name push (some p) st =
      handle_event-Effect pool name "push" (parse_push p) st
  handle_body-Effect pool name merge_request none st = inl ((λ q. q), refl)
  handle_body-Effect pool name merge_request (some p) st =
      handle_event-Effect pool name "merge_request" (parse_merge_request p) st

  -- A webhook changes nothing, and then reports no run, as when the database refuses it; or it adds exactly one run, in the status
  -- `trigger_received`, and one job for it if the queue is there and takes it. If the queue raises an
  -- exception, the answer is that exception, and the run stays without a job. Every repository that was
  -- there keeps its access token.
  pub gitlab_webhook-Effect :
      (pool : Queue) (event token : Option Text) (payload : Option Payload) (st : State)
      → Effect pool st
          (gitlab_webhook secret policy_version scoring_version now pool event token payload st)
  unfolding gitlab_webhook
  gitlab_webhook-Effect pool event token payload st =
      elim (Bool-cases (verify_token secret token)) [
        | inl e ↦ rw e (handle_body-Effect pool _ _ payload st)
        | inr e ↦ rw e (inl ((λ q. q), refl))
      ]

  -- With a secret set, a request whose token is missing or differs from it is forbidden and changes
  -- nothing.
  pub gitlab_webhook-forbidden :
      (pool : Queue) (event token : Option Text) (payload : Option Payload) (st : State)
      → is_nil secret ≡ false
      → token ≢ some secret
      → gitlab_webhook secret policy_version scoring_version now pool event token payload st
        ≡ (forbidden, st)
  unfolding gitlab_webhook verify_token
  gitlab_webhook-forbidden pool event none payload st set differs = rw set refl
  gitlab_webhook-forbidden pool event (some t) payload st set differs =
      elim (Bool-cases (t == secret)) [
        | inl e ↦ let same : t ≡ secret = ==_eq e in absurd (differs (ap some same))
        | inr e ↦ elim (Bool-cases (is_nil t)) [
          | inl n ↦ rw (set, e, n) refl
          | inr n ↦ rw (set, e, n) refl
        ]
      ]
