-- ===== src/Git/Differ.antt =====
-- packages/git/devmanager_git/differ.py: from the two outputs of `git diff` to change units.
-- Texts are lists of code points. The ids of `uuid.uuid4` come from the parameter `uuid`, by the
-- number of the call.
pub mod Rows
pub mod Units
use agentic_dev_ops.Prelude.{
  ℕ, zero, suc, ◌+◌, Bool, true, false, ◌&&◌, ◌||◌, not, Option, none, some, List, [], ◌∷◌, ◌++◌,
  String, ◌==◌, take, is_nil, if◌then◌else◌,
}
use agentic_dev_ops.Prelude.Dict.{Dict, lookup, insert, has_key}
use agentic_dev_ops.Prelude.Int.{ℤ, pos}
use agentic_dev_ops.Prelude.Text.{Text, codes, strip, text_eq_instance, text_eq, starts_with}
use agentic_dev_ops.Prelude.Text.Split.{splitlines, split_on, split_max, parse_int}
use agentic_dev_ops.Git.Classifier.{
  is_vendor, is_generated, is_test_file, detect_language, compute_risk_tags,
}

pub record Stat : Type 0 where
  pub added : ℤ
  pub deleted : ℤ
  pub binary : Bool

abbrev pub no_stat : Stat
no_stat = record { added = pos 0; deleted = pos 0; binary = false }

-- The two counts of a line; `none` is the `ValueError` of `int`.
unfoldable pub stat_of : Text → Text → Option Stat
stat_of added_s deleted_s =
    if codes "-" == added_s && codes "-" == deleted_s
    then some (record { added = pos 0; deleted = pos 0; binary = true })
    else elim (parse_int added_s) [
      | none ↦ none
      | some a ↦ elim (parse_int deleted_s) [
        | none ↦ none
        | some d ↦ some (record { added = a; deleted = d; binary = false })
      ]
    ]

unfoldable pub numstat_parts : List Text → Dict Text Stat → Dict Text Stat
numstat_parts (added_s ∷ deleted_s ∷ path ∷ []) stats = elim (stat_of added_s deleted_s) [
  | none ↦ stats
  | some st ↦ insert path st stats
]
numstat_parts parts stats = stats

unfoldable pub numstat_line : Text → Dict Text Stat → Dict Text Stat
unfolding numstat_parts
numstat_line line stats =
    let l = strip line in if is_nil l then stats else numstat_parts (split_max 9 2 l) stats

unfoldable pub numstat_lines : List Text → Dict Text Stat → Dict Text Stat
numstat_lines [] stats = stats
numstat_lines (l ∷ ls) stats = numstat_lines ls (numstat_line l stats)

unfoldable pub parse_numstat : Text → Dict Text Stat
parse_numstat numstat = numstat_lines (splitlines numstat) []

pub record StatusEntry : Type 0 where
  pub status : Text
  pub file_path : Text
  pub previous_file_path : Option Text

unfoldable pub is_move : Text → Bool
unfolding starts_with
is_move status = starts_with (codes "R") status || starts_with (codes "C") status

unfoldable pub status_parts : List Text → List StatusEntry
status_parts (status ∷ old ∷ new ∷ more) =
    if is_move status
    then record { status = take 1 status; file_path = new; previous_file_path = some old } ∷ []
    else record { status = status; file_path = old; previous_file_path = none } ∷ []
status_parts (status ∷ path ∷ []) =
    if is_move status
    then record { status = take 1 status; file_path = path; previous_file_path = none } ∷ []
    else record { status = status; file_path = path; previous_file_path = none } ∷ []
status_parts parts = []

unfoldable pub status_line : Text → List StatusEntry
status_line line = let l = strip line in if is_nil l then [] else status_parts (split_on 9 l)

unfoldable pub status_lines : List Text → List StatusEntry
status_lines [] = []
status_lines (l ∷ ls) = status_line l ++ status_lines ls

unfoldable pub parse_name_status : Text → List StatusEntry
parse_name_status name_status = status_lines (splitlines name_status)

-- `_STATUS_MAP.get(code, "modified")`
unfoldable pub change_type_of : Text → String
change_type_of status =
    if codes "A" == status
    then "added"
    else if codes "D" == status
    then "deleted"
    else if codes "R" == status
    then "renamed"
    else if codes "C" == status
    then "copied"
    else "modified"

pub record ChangeUnit : Type 0 where
  pub change_unit_id : Text
  pub run_id : Text
  pub repository_full_name : Text
  pub file_path : Text
  pub previous_file_path : Option Text
  pub change_type : String
  pub language : String
  pub added_lines : ℤ
  pub deleted_lines : ℤ
  pub is_binary : Bool
  pub is_generated : Bool
  pub is_vendor : Bool
  pub is_test_file : Bool
  pub risk_tags : List String
  pub baseline_sha : Text
  pub target_sha : Text

-- `stats.get(path, (0, 0, False))`
unfoldable pub stat_or_zero : Text → Dict Text Stat → Stat
stat_or_zero path stats = elim (lookup path stats) [ none ↦ no_stat | some st ↦ st ]

-- The counts of a file, or of the file that it was, if only that is listed. An empty previous path
-- counts as none.
unfoldable pub stat_for : StatusEntry → Dict Text Stat → Stat
unfolding stat_or_zero
stat_for entry stats = elim entry.previous_file_path [
  | none ↦ stat_or_zero entry.file_path stats
  | some prev ↦
      if not (is_nil prev) && not (has_key entry.file_path stats)
      then stat_or_zero prev stats
      else stat_or_zero entry.file_path stats
]

module _ (lower : Text → Text) (uuid : ℕ → Text)
    (run_id repository_full_name baseline_sha target_sha : Text) where
  unfoldable pub change_unit : ℕ → Dict Text Stat → StatusEntry → ChangeUnit
  change_unit call stats entry =
      let st = stat_for entry stats in
      let gen = is_generated entry.file_path in
      let vend = is_vendor entry.file_path in
      let test = is_test_file entry.file_path in
      record {
        change_unit_id = uuid call;
        run_id = run_id;
        repository_full_name = repository_full_name;
        file_path = entry.file_path;
        previous_file_path = entry.previous_file_path;
        change_type = change_type_of entry.status;
        language = detect_language lower entry.file_path;
        added_lines = st.added;
        deleted_lines = st.deleted;
        is_binary = st.binary;
        is_generated = gen;
        is_vendor = vend;
        is_test_file = test;
        risk_tags =
            compute_risk_tags lower entry.file_path st.added st.deleted st.binary gen vend test;
        baseline_sha = baseline_sha;
        target_sha = target_sha;
      }

  unfoldable pub change_units : ℕ → Dict Text Stat → List StatusEntry → List ChangeUnit
  change_units call stats [] = []
  change_units call stats (e ∷ es) = change_unit call stats e ∷ change_units (suc call) stats es

  unfoldable pub parse_diff : Text → Text → List ChangeUnit
  parse_diff numstat name_status =
      change_units 0 (parse_numstat numstat) (parse_name_status name_status)
