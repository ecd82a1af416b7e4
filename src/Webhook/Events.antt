-- ===== src/Webhook/Events.antt =====
-- apps/api-gateway/api_gateway/routers/webhook_gitlab.py: the check of the token, and the data of push
-- and merge request events.
use agentic_dev_ops.Prelude.{
  Bool, true, not, ◌&&◌, ◌||◌, Option, none, some, [], nat_eq, string_eq, ◌==◌, is_nil, drop,
  if◌then◌else◌,
}
use agentic_dev_ops.Prelude.Text.{Text, codes, starts_with, text_eq_instance}

abbrev pub null_sha : Text
null_sha = codes "0000000000000000000000000000000000000000"

-- The fields of a payload that are read; a missing one is `none`.
pub record Project : Type 0 where
  pub git_http_url : Option Text
  pub http_url : Option Text
  pub path_with_namespace : Option Text

pub record Attributes : Type 0 where
  pub action : Option Text
  pub source_branch : Option Text
  -- The id of `last_commit`.
  pub last_commit_id : Option Text

pub record Payload : Type 0 where
  pub ref : Option Text
  pub before : Option Text
  pub after : Option Text
  pub project : Project
  pub attributes : Attributes
  pub user_username : Option Text

pub record EventData : Type 0 where
  pub baseline_sha : Text
  pub target_sha : Text
  pub target_branch : Text
  pub clone_url : Option Text
  pub repository_full_name : Text
  pub actor : Option Text

-- `payload.get(key, default)`
unfoldable pub get_or : Text → Option Text → Text
get_or default none = default
get_or default (some t) = t

unfoldable pub is_missing : Option Text → Bool
is_missing none = true
is_missing (some t) = is_nil t

-- `a or b`
unfoldable pub or_else : Option Text → Option Text → Option Text
unfolding is_missing
or_else a b = if is_missing a then b else a

-- Whether `_verify_token` lets the request pass.
unfoldable pub verify_token : Text → Option Text → Bool
verify_token secret none = is_nil secret
verify_token secret (some token) = is_nil secret || not (is_nil token) && token == secret

-- The data of a push to a branch that is not its deletion.
unfoldable pub parse_push : Payload → Option EventData
unfolding get_or or_else starts_with
parse_push p =
    let ref = get_or [] p.ref in
    let after = get_or null_sha p.after in
    if not (starts_with (codes "refs/heads/") ref) || after == null_sha
    then none
    else some (record {
      baseline_sha = get_or null_sha p.before;
      target_sha = after;
      target_branch = drop 11 ref;
      clone_url = or_else p.project.git_http_url p.project.http_url;
      repository_full_name = get_or [] p.project.path_with_namespace;
      actor = or_else p.user_username p.user_username;
    })

-- `last_commit.get("id") or _NULL_SHA`
unfoldable pub sha_or_null : Option Text → Text
unfolding get_or or_else
sha_or_null id = get_or null_sha (or_else id (some null_sha))

unfoldable pub is_actionable : Text → Bool
is_actionable action =
    codes "open" == action
    || codes "update" == action
    || codes "reopen" == action
    || codes "merge" == action

unfoldable pub parse_merge_request : Payload → Option EventData
unfolding get_or or_else sha_or_null is_actionable
parse_merge_request p =
    if is_actionable (get_or [] p.attributes.action)
    then some (record {
      baseline_sha = null_sha;
      target_sha = sha_or_null p.attributes.last_commit_id;
      target_branch = get_or [] p.attributes.source_branch;
      clone_url = or_else p.project.git_http_url p.project.http_url;
      repository_full_name = get_or [] p.project.path_with_namespace;
      actor = p.user_username;
    })
    else none
