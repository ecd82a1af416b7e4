-- ===== src/Git/Fetcher.antt =====
-- packages/git/devmanager_git/fetcher.py: the git commands of an ingestion. What a command ends with
-- is the parameter `git`, by its arguments and its directory: an ingestion runs no command twice.
-- The tree of a directory (`HEAD` is there, `mkdir`) is a parameter too.
pub mod Token
use agentic_dev_ops.Prelude.{
  Bool, true, false, not, ◌||◌, Option, none, some, List, [], ◌∷◌, ◌++◌, drop, is_nil, ◌==◌,
  if◌then◌else◌,
}
use agentic_dev_ops.Prelude.Text.{Text, codes, text_eq_instance, starts_with, strip}

-- How a process ends: `returncode == 0`, its outputs; or it is not started.
pub data Process : Type 0 where
  ended : Bool → Text → Text → Process
  not_started : Text → Process

-- How a call ends: with a value, by a GitError, or by another exception.
pub data Outcome (A : Type 0) : Type 0 where
  done : A → Outcome A
  git_error : Text → Outcome A
  crashed : Text → Outcome A

abbrev pub empty_tree : Text
empty_tree = codes "4b825dc642cb6eb9a060e54bf8d69288fbee4904"

abbrev pub null_commit : Text
null_commit = codes "0000000000000000000000000000000000000000"

-- `' '.join(args)`
unfoldable pub joined : List Text → Text
joined [] = []
joined (a ∷ []) = a
joined (a ∷ b ∷ args) = a ++ (codes " " ++ joined (b ∷ args))

unfoldable pub run_end : List Text → Process → Outcome Text
unfolding joined
run_end args (ended true out err) = done out
run_end args (ended false out err) = git_error (joined args ++ (codes " failed: " ++ strip err))
run_end args (not_started e) = crashed e

abbrev pub then_git : {A B : Type 0} → Outcome A → (A → Outcome B) → Outcome B
then_git (done a) f = f a
then_git (git_error e) f = git_error e
then_git (crashed e) f = crashed e

-- `if not token or not url.startswith("https://")`. The first `https://` of such a url is its start.
unfoldable pub inject_token : Text → Option Text → Text
unfolding starts_with
inject_token url none = url
inject_token url (some token) =
    if is_nil token || not (starts_with (codes "https://") url)
    then url
    else codes "https://oauth2:" ++ (token ++ (codes "@" ++ drop 8 url))

-- `except GitError: return _EMPTY_TREE`
unfoldable pub base_of : Outcome Text → Outcome Text
base_of (done out) = done (strip out)
base_of (git_error e) = done empty_tree
base_of (crashed e) = crashed e

-- `result.returncode != 0`
unfoldable pub is_rewrite : Process → Outcome Bool
is_rewrite (ended ok out err) = done (not ok)
is_rewrite (not_started e) = crashed e

module _ (git : List Text → Text → Process) (has_head : Text → Bool) (mkdir : Text → Option Text)
    (parent : Text → Text) where
  -- `run_git`
  unfoldable pub run_git : List Text → Text → Outcome Text
  unfolding run_end
  run_git args cwd = run_end args (git args cwd)

  unfoldable pub fetch : Text → Text → Outcome Text
  unfolding run_git
  fetch url repo_dir =
      then_git
        (run_git (codes "git" ∷ codes "remote" ∷ codes "set-url" ∷ codes "origin" ∷ url ∷ [])
          repo_dir)
        (λ out.
          run_git (codes "git" ∷ codes "fetch" ∷ codes "--prune" ∷ codes "origin" ∷ []) repo_dir)

  unfoldable pub clone : Text → Text → Option Text → Outcome Text
  unfolding run_git
  clone url repo_dir (some e) = crashed e
  clone url repo_dir none =
      run_git (codes "git" ∷ codes "clone" ∷ codes "--mirror" ∷ url ∷ repo_dir ∷ [])
        (parent repo_dir)

  unfoldable pub clone_or_fetch : Text → Text → Option Text → Outcome Text
  unfolding inject_token fetch clone
  clone_or_fetch clone_url repo_dir access_token =
      let url = inject_token clone_url access_token in
      if has_head repo_dir then fetch url repo_dir else clone url repo_dir (mkdir repo_dir)

  unfoldable pub resolve_sha : Text → Text → Outcome Text
  unfolding run_git
  resolve_sha repo_dir ref =
      then_git (run_git (codes "git" ∷ codes "rev-parse" ∷ codes "--verify" ∷ ref ∷ []) repo_dir)
        (λ out. done (strip out))

  unfoldable pub resolve_merge_base : Text → Text → Text → Outcome Text
  unfolding run_git base_of
  resolve_merge_base repo_dir baseline_sha target_sha =
      if baseline_sha == null_commit
      then done empty_tree
      else base_of
          (run_git (codes "git" ∷ codes "merge-base" ∷ baseline_sha ∷ target_sha ∷ []) repo_dir)

  unfoldable pub detect_history_rewrite : Text → Text → Text → Outcome Bool
  unfolding is_rewrite
  detect_history_rewrite repo_dir baseline_sha target_sha =
      if baseline_sha == null_commit
      then done false
      else is_rewrite (
          git
            (codes "git"
              ∷ codes "merge-base"
              ∷ codes "--is-ancestor"
              ∷ baseline_sha
              ∷ target_sha
              ∷ [])
            repo_dir)

  -- Both branches of the source run the same command.
  unfoldable pub get_diff_numstat : Text → Text → Text → Outcome Text
  unfolding run_git
  get_diff_numstat repo_dir from_ref to_ref =
      run_git (codes "git" ∷ codes "diff" ∷ codes "--numstat" ∷ from_ref ∷ to_ref ∷ []) repo_dir

  unfoldable pub get_diff_name_status : Text → Text → Text → Outcome Text
  unfolding run_git
  get_diff_name_status repo_dir from_ref to_ref =
      run_git
        (codes "git" ∷ codes "diff" ∷ codes "--name-status" ∷ codes "-M" ∷ from_ref ∷ to_ref ∷ [])
        repo_dir
