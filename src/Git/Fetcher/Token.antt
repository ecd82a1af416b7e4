-- ===== src/Git/Fetcher/Token.antt =====
-- Where the access token goes when git fails.
use agentic_dev_ops.Prelude.{◌≡◌, ◌∙◌, ap, Bool, false, Option, none, some, List, ◌∷◌, ◌++◌, ℕ}
use mathlib.Core.List.{append_assoc}
use agentic_dev_ops.Prelude.Text.{Text, codes, starts_with, strip}
use agentic_dev_ops.Git.Fetcher.{
  Process, ended, git_error, joined, run_end, inject_token, run_git, clone, clone_or_fetch,
}

-- If the clone of a repository with an https address and a token fails, the text of the error holds
-- the token as it is.
pub clone_or_fetch-token :
    (git : List Text → Text → Process) (has_head : Text → Bool) (mkdir : Text → Option Text)
    (parent : Text → Text) (address token dir out err : Text) (c : ℕ)
    → has_head dir ≡ false
    → mkdir dir ≡ none
    → ((args : List Text) → git args (parent dir) ≡ ended false out err)
    → (before after : Text) × (clone_or_fetch git has_head mkdir parent
          (codes "https://" ++ address)
          dir
          (some (c ∷ token))
        ≡ git_error (before ++ (c ∷ token) ++ after))
unfolding clone_or_fetch inject_token clone run_git run_end joined starts_with
clone_or_fetch-token git has_head mkdir parent address token dir out err c bare made fails = (
  codes "git clone --mirror https://oauth2:",
  (codes "@" ++ address) ++ ((codes " " ++ dir) ++ (codes " failed: " ++ strip err)),
  rw (bare, made, fails)
      (ap (λ t. git_error (codes "git clone --mirror https://oauth2:" ++ c ∷ t))
        (append_assoc (token ++ (codes "@" ++ address)) (codes " " ++ dir)
            (codes " failed: " ++ strip err)
          ∙ append_assoc token (codes "@" ++ address)
              ((codes " " ++ dir) ++ (codes " failed: " ++ strip err)))),
)
