-- ===== src/Git/Codeowners/Last.antt =====
-- Which rule of a CODEOWNERS file decides.
use agentic_dev_ops.Prelude.{
  ◌≡◌, refl, ◌∙◌, Bool, true, not, Option, none, some, List, [], ◌∷◌, ◌++◌, all, arith,
  if◌then◌else◌,
}
use agentic_dev_ops.Prelude.Text.{Text}
use agentic_dev_ops.Git.Codeowners.{Rule, matches, owner_from, find_owner}

module _ (fnmatch : Text → Text → Bool) (posix_path : Text → Text) where
  -- No rule of a list matches the path.
  abbrev pub none_matches : Text → List Rule → Bool
  none_matches path rules = all (λ r. not (matches fnmatch posix_path r.0 path)) rules

  owner_from-none :
      (path : Text) (o : Option Text) (rules : List Rule)
      → none_matches path rules ≡ true
      → owner_from fnmatch posix_path path o rules ≡ o
  unfolding owner_from
  owner_from-none path o [] h = refl
  owner_from-none path o ((p, owner) ∷ rules) h = ground (arith, owner_from-none path o rules)

  owner_from-append :
      (path : Text) (rules more : List Rule) (o : Option Text)
      → owner_from fnmatch posix_path path o (rules ++ more)
        ≡ owner_from fnmatch posix_path path (owner_from fnmatch posix_path path o rules) more
  unfolding owner_from
  owner_from-append path [] more o = refl
  owner_from-append path ((p, owner) ∷ rules) more o =
      owner_from-append path rules more
        (if matches fnmatch posix_path p path then some owner else o)

  -- The last rule that matches the normal form of a path decides, whatever stands before it.
  pub find_owner-last :
      (before after : List Rule) (pattern owner path : Text)
      → matches fnmatch posix_path pattern (posix_path path) ≡ true
      → none_matches (posix_path path) after ≡ true
      → find_owner fnmatch posix_path (before ++ (pattern, owner) ∷ after) path ≡ some owner
  unfolding find_owner
  find_owner-last before after pattern owner path hit rest =
      owner_from-append (posix_path path) before ((pattern, owner) ∷ after) none
      ∙ unfold owner_from in rw hit (owner_from-none (posix_path path) (some owner) after rest)
