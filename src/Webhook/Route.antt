-- ===== src/Webhook/Route.antt =====
-- apps/api-gateway/api_gateway/routers/webhook_gitlab.py, `_create_run` and the route, with the
-- accesses of the repository DAO that they use. The secret, the versions,
-- the decoding of the body, and the database and the queue, which may refuse, are parameters; ids come
-- from a counter.
use agentic_dev_ops.Prelude.{
  ℕ, suc, false, not, ◌&&◌, Option, none, some, List, [], ◌∷◌, ◌++◌, String, nat_eq, string_eq,
  ◌==◌, is_nil, if◌then◌else◌,
}
use agentic_dev_ops.Prelude.Text.{Text, codes, text_eq_instance}
use agentic_dev_ops.Db.Repositories.{Repository, repository_named, set_clone_url, new_repository}
use agentic_dev_ops.Worker.Runs.{AnalysisRun, Runs}
use agentic_dev_ops.Webhook.Events.{
  Payload, EventData, get_or, is_missing, verify_token, parse_push, parse_merge_request,
}

pub record State : Type 0 where
  pub repositories : List Repository
  pub runs : Runs
  pub next_id : ℕ
  -- What the database raises when the request writes to it, if it does.
  pub refuses : Option Text
  -- The jobs in the queue, the newest last.
  pub queue : List ℕ

-- `elif clone_url and not repo.clone_url`
unfoldable pub fill_clone_url : ℕ → Repository → Option Text → List Repository → List Repository
unfolding set_clone_url is_missing
fill_clone_url now repo none rs = rs
fill_clone_url now repo (some url) rs =
    if not (is_nil url) && is_missing repo.clone_url
    then set_clone_url now repo.repository_id url rs
    else rs

module _ (secret policy_version scoring_version : Text) (now : ℕ) where
  unfoldable pub run_for : ℕ → Text → EventData → String → AnalysisRun
  run_for repository_id full_name event trigger_type = record {
    repository_id = repository_id;
    repository_full_name = full_name;
    trigger_type = trigger_type;
    target_branch = event.target_branch;
    baseline_sha = event.baseline_sha;
    target_sha = event.target_sha;
    policy_version = policy_version;
    scoring_version = scoring_version;
    status = "trigger_received";
    failure_reason = none;
    started_at = now;
    completed_at = none;
    merge_base_sha = none;
    history_rewrite_detected = false;
  }

  -- The id of the new run, and the state with it.
  unfoldable pub add_run : AnalysisRun → State → ℕ × State
  add_run run st =
      (st.next_id, record st { runs = st.runs ++ (st.next_id, run) ∷ []; next_id = suc st.next_id })

  -- The repository is there, or it is created first.
  unfoldable pub create_run_in : EventData → String → State → Option Repository → ℕ × State
  unfolding fill_clone_url run_for add_run
  create_run_in event trigger_type st (some repo) =
      add_run (run_for repo.repository_id repo.full_name event trigger_type)
        (record st { repositories = fill_clone_url now repo event.clone_url st.repositories })
  create_run_in event trigger_type st none =
      add_run (run_for st.next_id event.repository_full_name event trigger_type) (record st {
        repositories =
            st.repositories
            ++ new_repository now st.next_id "gitlab" event.repository_full_name event.clone_url
              ∷ [];
        next_id = suc st.next_id;
      })

  unfoldable pub create_run : EventData → String → State → ℕ × State
  unfolding repository_named create_run_in
  create_run event trigger_type st =
      create_run_in event trigger_type st
        (repository_named event.repository_full_name st.repositories)

  -- The messages of events that make no run; two of them name the event.
  pub data Message : Type 0 where
    missing_header system_hooks tag_push_ignored : Message
    not_handled not_actionable : (event : Text) → Message

  pub data Reply : Type 0 where
    forbidden bad_body : Reply
    message : Message → Reply
    queued : (run_id : ℕ) → (event : Text) → Reply
    -- The exception of the database or of the queue, which is the server's error.
    database_error queue_error : Text → Reply

  -- `get_arq_pool`: no queue, or one that takes a job or raises an exception.
  pub data Pool : Type 0 where
    no_pool accepting : Pool
    refusing : Text → Pool

  pub data EventKind : Type 0 where
    push merge_request : EventKind
    unhandled : Message → EventKind

  -- The checks of the header `X-Gitlab-Event`.
  unfoldable pub kind_of : Option Text → EventKind
  kind_of none = unhandled missing_header
  kind_of (some e) =
      if is_nil e
      then unhandled missing_header
      else if codes "System Hook" == e
      then unhandled system_hooks
      else if codes "Tag Push Hook" == e
      then unhandled tag_push_ignored
      else if codes "Push Hook" == e
      then push
      else if codes "Merge Request Hook" == e
      then merge_request
      else unhandled (not_handled e)

  -- The job of a run, if the queue is there.
  unfoldable pub enqueue : Pool → Text → ℕ × State → Reply × State
  enqueue no_pool event_name (id, st) = (queued id event_name, st)
  enqueue accepting event_name (id, st) =
      (queued id event_name, record st { queue = st.queue ++ id ∷ [] })
  enqueue (refusing e) event_name (id, st) = (queue_error e, st)

  -- A refused write leaves nothing behind.
  unfoldable pub on_created : Pool → Text → State → Option Text → ℕ × State → Reply × State
  unfolding enqueue
  on_created pool event_name st none made = enqueue pool event_name made
  on_created pool event_name st (some e) made = (database_error e, st)

  unfoldable pub handle_event : Pool → Text → String → Option EventData → State → Reply × State
  unfolding create_run on_created
  handle_event pool event_name trigger_type none st = (message (not_actionable event_name), st)
  handle_event pool event_name trigger_type (some event) st =
      on_created pool event_name st st.refuses (create_run event trigger_type st)

  -- `json.loads` refuses a body that is no JSON.
  unfoldable pub handle_body : Pool → Text → EventKind → Option Payload → State → Reply × State
  unfolding handle_event parse_push parse_merge_request
  handle_body pool event_name (unhandled m) payload st = (message m, st)
  handle_body pool event_name push none st = (bad_body, st)
  handle_body pool event_name push (some p) st =
      handle_event pool event_name "push" (parse_push p) st
  handle_body pool event_name merge_request none st = (bad_body, st)
  handle_body pool event_name merge_request (some p) st =
      handle_event pool event_name "merge_request" (parse_merge_request p) st

  unfoldable pub gitlab_webhook :
      Pool → Option Text → Option Text → Option Payload → State → Reply × State
  unfolding verify_token kind_of handle_body get_or
  gitlab_webhook pool event token payload st =
      if verify_token secret token
      then handle_body pool (get_or [] event) (kind_of event) payload st
      else (forbidden, st)
