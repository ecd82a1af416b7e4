-- ===== src/Webhook/Tests.antt =====
-- The theorems on webhooks at one push.
use agentic_dev_ops.Prelude.{◌≡◌, ◌≢◌, refl, none, some, []}
use agentic_dev_ops.Prelude.Text.{codes}
use agentic_dev_ops.Webhook.Events.{Payload}
use agentic_dev_ops.Webhook.Route.{State, forbidden, accepting, gitlab_webhook}
use agentic_dev_ops.Webhook.Intake.{Effect, gitlab_webhook-Effect, gitlab_webhook-forbidden}

abbrev nothing : State
nothing = record { repositories = []; runs = []; next_id = 1; refuses = none; queue = [] }

abbrev pushed : Payload
pushed = record {
  ref = some (codes "refs/heads/main");
  before = some (codes "a1");
  after = some (codes "b2");
  project = record {
    git_http_url = some (codes "https://git/app.git");
    http_url = none;
    path_with_namespace = some (codes "group/app");
  };
  attributes = record { action = none; source_branch = none; last_commit_id = none };
  user_username = some (codes "ann");
}

gitlab_webhook-Effect_example : Effect (codes "s") (codes "v1") (codes "v1") 9 accepting nothing (
    gitlab_webhook
      (codes "s")
      (codes "v1")
      (codes "v1")
      9
      accepting
      (some (codes "Push Hook"))
      (some (codes "s"))
      (some pushed)
      nothing)
gitlab_webhook-Effect_example =
    gitlab_webhook-Effect (codes "s") (codes "v1") (codes "v1") 9 accepting
      (some (codes "Push Hook")) (some (codes "s")) (some pushed) nothing

other_token : some (codes "") ≢ some (codes "s")
other_token e = cc

gitlab_webhook-forbidden_example :
    gitlab_webhook
      (codes "s")
      (codes "v1")
      (codes "v1")
      9
      accepting
      (some (codes "Push Hook"))
      (some (codes ""))
      (some pushed)
      nothing
    ≡ (forbidden, nothing)
gitlab_webhook-forbidden_example =
    gitlab_webhook-forbidden (codes "s") (codes "v1") (codes "v1") 9 accepting
      (some (codes "Push Hook")) (some (codes "")) (some pushed) nothing refl other_token
