-- ===== src/Git/Hunks.antt =====
-- packages/git/devmanager_git/hunks.py: the patch of each file, written beside the run. What writing
-- a file raises is a parameter; the tasks of `gather` are run one after the other.
use agentic_dev_ops.Prelude.{
  ℕ, ◌+◌, ◌*◌, true, false, ◌||◌, Option, none, some, List, [], ◌∷◌, ◌++◌, is_nil, ltb,
  if◌then◌else◌,
}
use agentic_dev_ops.Prelude.Dict.{Dict, insert}
use agentic_dev_ops.Prelude.Text.{Text, codes, text_eq_instance, strip}
use agentic_dev_ops.Git.Differ.{ChangeUnit}
use agentic_dev_ops.Git.Fetcher.{Process, ended, not_started, Outcome, done, git_error, crashed}

abbrev pub max_hunk_bytes : ℕ
max_hunk_bytes = 512 * 1024

-- `len(patch.encode())`
unfoldable pub byte_length : Text → ℕ
byte_length [] = 0
byte_length (c ∷ s) =
    (if ltb c 128 then 1 else if ltb c 2048 then 2 else if ltb c 65536 then 3 else 4)
    + byte_length s

unfoldable pub diff_end : Process → Outcome Text
diff_end (ended true out err) = done out
diff_end (ended false out err) = git_error (strip err)
diff_end (not_started e) = crashed e

module _ (git : List Text → Text → Process) (write_text : Text → Text → Option Text)
    (decimal : ℕ → Text) where
  unfoldable pub diff_file : Text → Text → Text → Text → Outcome Text
  unfolding diff_end
  diff_file repo_dir from_ref to_ref file_path = diff_end (
      git
        (codes "git"
          ∷ codes "diff"
          ∷ codes "--patch"
          ∷ from_ref
          ∷ to_ref
          ∷ codes "--"
          ∷ file_path
          ∷ [])
        repo_dir)

  unfoldable pub stored_patch : Text → Text → Text
  unfolding byte_length
  stored_patch file_path patch =
      let size = byte_length patch in
      if ltb max_hunk_bytes size
      then codes "# PATCH_TOO_LARGE: "
        ++ (file_path ++ (codes " (" ++ (decimal size ++ codes " bytes)\n")))
      else patch

  abbrev pub written : Text → Option Text → Outcome (Option Text)
  written path (some e) = crashed e
  written path none = done (some (codes "file://" ++ path))

  unfoldable pub store_patch : Text → Text → Outcome Text → Outcome (Option Text)
  unfolding stored_patch
  store_patch file_path output_path (crashed e) = crashed e
  store_patch file_path output_path (git_error e) = done none
  store_patch file_path output_path (done patch) =
      if is_nil (strip patch)
      then done none
      else written output_path (write_text output_path (stored_patch file_path patch))

  unfoldable pub extract_hunk : Text → Text → Text → Text → Text → Outcome (Option Text)
  unfolding diff_file store_patch
  extract_hunk repo_dir from_ref to_ref file_path output_path =
      store_patch file_path output_path (diff_file repo_dir from_ref to_ref file_path)

  unfoldable pub hunk_of : Text → Text → Text → Text → ChangeUnit → Outcome (Option Text)
  unfolding extract_hunk
  hunk_of repo_dir from_ref to_ref hunks_dir unit =
      if unit.is_binary || unit.is_generated || unit.is_vendor
      then done none
      else extract_hunk repo_dir from_ref to_ref unit.file_path
          (hunks_dir ++ (codes "/" ++ (unit.change_unit_id ++ codes ".diff")))

  unfoldable pub add_hunk : Text → Outcome (Option Text) → Dict Text Text → Outcome (Dict Text Text)
  add_hunk id (done (some ref)) refs = done (insert id ref refs)
  add_hunk id (done none) refs = done refs
  add_hunk id (git_error e) refs = git_error e
  add_hunk id (crashed e) refs = crashed e

  unfoldable pub hunks_from :
      Text
      → Text
      → Text
      → Text
      → Outcome (Dict Text Text)
      → List ChangeUnit
      → Outcome (Dict Text Text)
  unfolding hunk_of add_hunk
  hunks_from repo_dir from_ref to_ref hunks_dir refs [] = refs
  hunks_from repo_dir from_ref to_ref hunks_dir (git_error e) (u ∷ us) = git_error e
  hunks_from repo_dir from_ref to_ref hunks_dir (crashed e) (u ∷ us) = crashed e
  hunks_from repo_dir from_ref to_ref hunks_dir (done refs) (u ∷ us) =
      hunks_from repo_dir from_ref to_ref hunks_dir
        (add_hunk u.change_unit_id (hunk_of repo_dir from_ref to_ref hunks_dir u) refs) us

  unfoldable pub extract_all_hunks :
      Text → Text → Text → List ChangeUnit → Text → Outcome (Dict Text Text)
  unfolding hunks_from
  extract_all_hunks repo_dir from_ref to_ref units hunks_dir =
      hunks_from repo_dir from_ref to_ref hunks_dir (done []) units
