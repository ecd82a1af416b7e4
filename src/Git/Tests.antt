-- ===== src/Git/Tests.antt =====
-- The theorems on diffs and paths at concrete ones.
use agentic_dev_ops.Prelude.{
  ℕ, ◌≡◌, ◌≢◌, refl, true, false, not, [], ◌∷◌, ◌++◌, all, is_nil, map, nat_beq, arith,
}
use agentic_dev_ops.Prelude.Int.{pos}
use agentic_dev_ops.Prelude.Text.{
  Text, codes, strip, lstrip, rstrip, rstrip_cons, is_space, starts_with, text_eq,
}
use agentic_dev_ops.Prelude.Text.Split.{
  Lacks, OneLine, unlines, is_break, parse_int, signed, digits_from,
}
use agentic_dev_ops.Git.Differ.{parse_diff, is_move, stat_of}
use agentic_dev_ops.Git.Differ.Rows.{
  NumstatRow, numstat_text, IsNumstatRow, StatusRow, moved, status_text, IsStatusRow,
}
use agentic_dev_ops.Git.Differ.Units.{summary, expected_summary, parse_diff-rows}
use agentic_dev_ops.Prelude.{List, none, some, if◌then◌else◌, ◌==◌}
use agentic_dev_ops.Prelude.Text.{text_eq, text_eq_instance, starts_with, ends_with, contains}
use agentic_dev_ops.Git.Fetcher.{Process, ended, git_error, clone_or_fetch}
use agentic_dev_ops.Git.Fetcher.Token.{clone_or_fetch-token}
use agentic_dev_ops.Git.Codeowners.{find_owner, matches, strip_slashes, basename, replace_stars}
use agentic_dev_ops.Git.Codeowners.Last.{find_owner-last}
use agentic_dev_ops.Git.Service.{Disk, ingest}
use agentic_dev_ops.Git.Service.Stored.{bare}
use agentic_dev_ops.Git.Service.Ingested.{ingest-Ingesting}
use agentic_dev_ops.Db.Session.{Ends}
use agentic_dev_ops.Db.Tests.{env, database}
use agentic_dev_ops.Worker.Workflow.{status_of, Ingesting}

-- A text as it is, in place of `str.lower`.
abbrev same_text : Text → Text
same_text t = t

abbrev no_name : ℕ → Text
no_name n = []

lacks : (c : ℕ) (t : Text) → all (λ x. not (nat_beq x c)) t ≡ true → Lacks c t
lacks c [] h = tt
lacks c (x ∷ t) h = (ground arith, lacks c t (ground arith))

abbrev row : NumstatRow
row = record {
  added_s = codes "3";
  deleted_s = codes "1";
  path = codes "new.py";
  stat = record { added = pos 3; deleted = pos 1; binary = false };
}

one_line : (t : Text) → all (λ c. not (is_break c)) t ≡ true → OneLine t
one_line [] h = tt
one_line (c ∷ t) h = (ground arith, one_line t (ground arith))

full : (t : Text) → is_nil t ≡ false → t ≢ []
full [] h e = absurd (cc)
full (c ∷ t) h e = cc

row-IsNumstatRow : IsNumstatRow row
row-IsNumstatRow = record {
  one_line = one_line (numstat_text row) (unfold is_break in refl);
  added_lacks = lacks 9 row.added_s refl;
  deleted_lacks = lacks 9 row.deleted_s refl;
  added_ne = full row.added_s refl;
  added_strips = unfold lstrip is_space in refl;
  path_ne = full row.path refl;
  path_strips = unfold rstrip rstrip_cons is_space in refl;
  counts =
      unfold stat_of parse_int signed digits_from strip lstrip rstrip rstrip_cons is_space
        text_eq in
      refl;
}

abbrev status_row : StatusRow
status_row = moved (codes "R100") (codes "old.py") (codes "new.py")

status_row-IsStatusRow : IsStatusRow status_row
unfolding is_break is_move starts_with lstrip rstrip rstrip_cons is_space
status_row-IsStatusRow = (
  one_line (status_text status_row) refl,
  refl,
  lacks 9 (codes "R100") refl,
  full (codes "R100") refl,
  refl,
  (lacks 9 (codes "new.py") refl, full (codes "new.py") refl, refl),
  lacks 9 (codes "old.py") refl,
)

parse_diff-rows_example :
    map summary (
      parse_diff same_text no_name
        (codes "run")
        (codes "group/app")
        (codes "a1")
        (codes "b2")
        (unlines (map numstat_text (row ∷ [])))
        (unlines (map status_text (status_row ∷ []))))
    ≡ map (expected_summary (row ∷ [])) (status_row ∷ [])
parse_diff-rows_example =
    parse_diff-rows same_text no_name (codes "run") (codes "group/app") (codes "a1") (codes "b2")
      (row ∷ []) (status_row ∷ []) (row-IsNumstatRow, tt) (status_row-IsStatusRow, tt) (refl, tt)

-- Every command succeeds, and the diff is of one file.
abbrev one_file : List Text → Text → Process
one_file (a ∷ b ∷ c ∷ rest) cwd =
    if c == codes "--numstat"
    then ended true (codes "9\t2\tlib.py") []
    else if c == codes "--name-status"
    then ended true (codes "M\tlib.py") []
    else ended true (codes "c0ffee") []
one_file args cwd = ended true [] []

abbrev disk : Disk
disk = record {
  git = one_file;
  has_head = λ dir. true;
  mkdir = λ dir. none;
  parent = λ dir. dir;
  write_text = λ path text. none;
  fnmatch = text_eq;
  posix_path = same_text;
  decimal = λ n. n ∷ [];
  unit_id = λ n. n ∷ [];
  default_workspace = codes "/repos";
  default_hunks = codes "/hunks";
}

ingest-Ingesting_example :
    Ends
      (λ rows t.
        (status_of 3 t.saved.runs ≡ some "git_ingested")
        × (map bare t.saved.rest.units
            ≡ map bare (database "trigger_received").rest.units ++ map bare rows))
      (λ e t. Ingesting (status_of 3 (database "trigger_received").runs) (status_of 3 t.saved.runs))
      (ingest disk 3 (env.sessions.begin (database "trigger_received")))
ingest-Ingesting_example =
    ingest-Ingesting disk 3 (env.sessions.begin (database "trigger_received")) refl

find_owner-last_example :
    find_owner text_eq same_text
      ((codes "*", codes "@all")
        ∷ (codes "lib.py", codes "@lib")
        ∷ (codes "app.py", codes "@app")
        ∷ [])
      (codes "src/lib.py")
    ≡ some (codes "@lib")
find_owner-last_example =
    find_owner-last text_eq same_text ((codes "*", codes "@all") ∷ [])
      ((codes "app.py", codes "@app") ∷ []) (codes "lib.py") (codes "@lib") (codes "src/lib.py")
      (unfold matches strip_slashes basename replace_stars ends_with starts_with contains text_eq in
        refl)
      (unfold matches strip_slashes basename replace_stars ends_with starts_with contains text_eq in
        refl)

clone_or_fetch-token_example :
    (before after : Text) × (clone_or_fetch
        (λ args cwd. ended false [] (codes "denied"))
        (λ dir. false)
        (λ dir. none)
        (λ dir. dir)
        (codes "https://" ++ codes "git/app")
        (codes "/repos/7")
        (some (codes "secret"))
      ≡ git_error (before ++ codes "secret" ++ after))
clone_or_fetch-token_example =
    clone_or_fetch-token (λ args cwd. ended false [] (codes "denied")) (λ dir. false) (λ dir. none)
      (λ dir. dir) (codes "git/app") (codes "ecret") (codes "/repos/7") [] (codes "denied") 115 refl
      refl (λ args. refl)
