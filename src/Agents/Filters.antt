-- ===== src/Agents/Filters.antt =====
-- packages/agents/devmanager_agents/filters.py: which change units a model is asked about.
use agentic_dev_ops.Prelude.{ℕ, Bool, false, not, ◌||◌, ltb, if◌then◌else◌}
use agentic_dev_ops.Prelude.Int.{pos, ◌+ℤ◌, ltb_ℤ}
use agentic_dev_ops.Prelude.Text.{Text}
use agentic_dev_ops.Git.Differ.{ChangeUnit}

-- What is found at a path: no file, a file of this many bytes, or one whose size is not to be had.
pub data OnDisk : Type 0 where
  no_file : OnDisk
  file : ℕ → OnDisk
  unreadable : OnDisk

abbrev pub max_file_bytes : ℕ
max_file_bytes = 50000

abbrev pub min_lines_changed : ℕ
min_lines_changed = 5

unfoldable pub is_small_file : OnDisk → Bool
is_small_file no_file = false
is_small_file unreadable = false
is_small_file (file size) = not (ltb max_file_bytes size)

-- `at` is what lies at `repo_dir / file_path`.
unfoldable pub is_worth_reviewing : (Text → OnDisk) → ChangeUnit → Bool
unfolding is_small_file
is_worth_reviewing at u =
    if u.is_binary || u.is_generated || u.is_vendor
    then false
    else if not (is_small_file (at u.file_path))
    then false
    else not (ltb_ℤ (u.added_lines +ℤ u.deleted_lines) (pos min_lines_changed))
