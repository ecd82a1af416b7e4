-- ===== src/Git/Codeowners.antt =====
-- packages/git/devmanager_git/codeowners.py: the rules of a CODEOWNERS file, of which the last that
-- matches wins. `fnmatch` and the normal form of a path are parameters.
pub mod Last
use agentic_dev_ops.Prelude.{
  ℕ, Bool, true, false, not, ◌||◌, ◌&&◌, Option, none, some, List, [], ◌∷◌, ◌++◌, is_nil, nat_beq,
  if◌then◌else◌,
}
use agentic_dev_ops.Prelude.Text.{Text, codes, starts_with, ends_with, contains, is_space, strip}
use agentic_dev_ops.Prelude.Text.Split.{splitlines}
use agentic_dev_ops.Git.Fetcher.{Process, ended, not_started, Outcome, done, crashed, joined}

-- `s.split()`: the words between the spaces.
abbrev pub add_char : ℕ → Bool → List Text → List Text
add_char c true ws = (c ∷ []) ∷ ws
add_char c false [] = (c ∷ []) ∷ []
add_char c false (w ∷ ws) = (c ∷ w) ∷ ws

abbrev pub starts_word : Text → Bool
starts_word [] = true
starts_word (c ∷ s) = is_space c

unfoldable pub words : Text → List Text
unfolding is_space
words [] = []
words (c ∷ s) = let rest = words s in if is_space c then rest else add_char c (starts_word s) rest

-- A rule: its pattern and its owners.
abbrev pub Rule : Type 0
Rule = Text × Text

unfoldable pub rule_of : List Text → List Rule
unfolding joined
rule_of [] = []
rule_of (p ∷ []) = []
rule_of (p ∷ o ∷ os) = (p, joined (o ∷ os)) ∷ []

unfoldable pub line_rules : Text → List Rule
unfolding rule_of words strip
line_rules line =
    let l = strip line in if is_nil l || starts_with (codes "#") l then [] else rule_of (words l)

unfoldable pub rules_of : List Text → List Rule
unfolding line_rules
rules_of [] = []
rules_of (l ∷ ls) = line_rules l ++ rules_of ls

unfoldable pub from_text : Text → List Rule
unfolding rules_of splitlines
from_text text = rules_of (splitlines text)

-- `from_bare_repo`: the first file that git shows and that is not blank.
unfoldable pub from_shown : Process → Outcome (Option (List Rule)) → Outcome (Option (List Rule))
unfolding from_text
from_shown (ended ok out err) rest =
    if ok && not (is_nil (strip out)) then done (some (from_text out)) else rest
from_shown (not_started e) rest = crashed e

unfoldable pub from_bare_repo : (List Text → Text → Process) → Text → Outcome (Option (List Rule))
unfolding from_shown
from_bare_repo git repo_dir =
    let show = λ (path : Text). git (codes "git" ∷ codes "show" ∷ path ∷ []) repo_dir in
    from_shown (show (codes "HEAD:CODEOWNERS")) (
      from_shown (show (codes "HEAD:.github/CODEOWNERS"))
        (from_shown (show (codes "HEAD:docs/CODEOWNERS")) (done none)))

-- `p.lstrip("/")`
unfoldable pub strip_slashes : Text → Text
strip_slashes [] = []
strip_slashes (c ∷ s) = if nat_beq c 47 then strip_slashes s else c ∷ s

abbrev pub has_slash : Text → Bool
has_slash s = contains (codes "/") s

-- `file_path.rsplit("/", 1)[-1]`
unfoldable pub basename : Text → Text
unfolding contains starts_with
basename [] = []
basename (c ∷ s) =
    let rest = basename s in
    if has_slash (c ∷ s)
    then if has_slash s then rest else if nat_beq c 47 then s else c ∷ s
    else c ∷ s

-- `p.replace("**", "*")`, from left to right.
unfoldable pub replace_stars : Text → Text
replace_stars [] = []
replace_stars (c ∷ []) = c ∷ []
replace_stars (c ∷ d ∷ s) =
    let kept = replace_stars (d ∷ s) in
    let rest = replace_stars s in if nat_beq c 42 && nat_beq d 42 then 42 ∷ rest else c ∷ kept

module _ (fnmatch : Text → Text → Bool) (posix_path : Text → Text) where
  unfoldable pub matches : Text → Text → Bool
  unfolding strip_slashes basename replace_stars
  matches pattern file_path =
      let p = strip_slashes pattern in
      if ends_with (codes "/") p
      then starts_with p file_path || contains (codes "/" ++ p) file_path
      else if not (has_slash p)
      then fnmatch (basename file_path) p
      else let g = replace_stars p in
        fnmatch file_path g || fnmatch (codes "/" ++ file_path) (codes "/" ++ g)

  unfoldable pub owner_from : Text → Option Text → List Rule → Option Text
  unfolding matches
  owner_from path matched [] = matched
  owner_from path matched ((pattern, owner) ∷ rules) =
      owner_from path (if matches pattern path then some owner else matched) rules

  unfoldable pub find_owner : List Rule → Text → Option Text
  unfolding owner_from
  find_owner rules file_path = owner_from (posix_path file_path) none rules
