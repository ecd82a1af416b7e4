-- ===== src/Git/Differ/Units.antt =====
-- The change units of a diff.
use agentic_dev_ops.Prelude.{
  ℕ, suc, ◌≡◌, refl, ◌∙◌, true, false, Option, none, some, List, [], ◌∷◌, map, String, is_nil, All,
  arith, ◌==◌, if◌then◌else◌,
}
use agentic_dev_ops.Prelude.Dict.{Dict, lookup, insert, lookup-insert, has_key}
use agentic_dev_ops.Prelude.Text.{Text, text_eq_instance}
use agentic_dev_ops.Prelude.Text.Split.{unlines}
use agentic_dev_ops.Git.Differ.{
  Stat, no_stat, ChangeUnit, stat_for, change_type_of, change_unit, change_units, parse_diff,
}
use agentic_dev_ops.Git.Differ.Rows.{
  NumstatRow, numstat_text, IsNumstatRow, insert_rows, parse_numstat-rows, StatusRow, plain, moved,
  status_text, status_entry, IsStatusRow, parse_name_status-rows,
}

-- The counts of the last row with a path.
abbrev pub stat_in : Text → List NumstatRow → Option Stat
stat_in path [] = none
stat_in path (r ∷ rs) = elim (stat_in path rs) [
  | some st ↦ some st
  | none ↦ if r.path == path then some r.stat else none
]

abbrev or_else : Option Stat → Option Stat → Option Stat
or_else (some st) o = some st
or_else none o = o

lookup-insert_rows :
    (path : Text) (rs : List NumstatRow) (stats : Dict Text Stat)
    → lookup path (insert_rows rs stats) ≡ or_else (stat_in path rs) (lookup path stats)
lookup-insert_rows path [] stats = refl
lookup-insert_rows path (r ∷ rs) stats =
    lookup-insert_rows path rs (insert r.path r.stat stats)
    ∙ rw (lookup-insert r.path path r.stat stats) (ground arith)

has_key-iff-lookup :
    (path : Text) (d : Dict Text Stat)
    → has_key path d ≡ (elim (lookup path d) [ none ↦ false | some _ ↦ true ])
unfolding has_key lookup
has_key-iff-lookup path [] = refl
has_key-iff-lookup path ((k, v) ∷ d) = ground (arith, has_key-iff-lookup path d)

-- What a row of the status list gets: the counts of its file; for a moved file whose new path has
-- no counts, those of the old path; else zero.
abbrev pub expected : List NumstatRow → StatusRow → Stat
expected rows (plain status path) = elim (stat_in path rows) [ some st ↦ st | none ↦ no_stat ]
expected rows (moved status old new) = elim (stat_in new rows) [
  | some st ↦ st
  | none ↦ elim (stat_in old rows) [ some st ↦ st | none ↦ no_stat ]
]

-- A moved file has a path that it had before.
abbrev pub HasOld : StatusRow → Type 0
HasOld (plain status path) = Unit
HasOld (moved status old new) = is_nil old ≡ false

stat_for-expected :
    (rows : List NumstatRow) (r : StatusRow)
    → HasOld r
    → stat_for (status_entry r) (insert_rows rows []) ≡ expected rows r
unfolding stat_for lookup
stat_for-expected rows (plain status path) h = ground (arith, lookup-insert_rows path rows [])
stat_for-expected rows (moved status old new) h = ground (
  arith,
  lookup-insert_rows new rows [],
  lookup-insert_rows old rows [],
  has_key-iff-lookup new (insert_rows rows []),
)

-- What a change unit says of its file: the path, the path before, the kind of change, the counts.
abbrev pub Summary : Type 0
Summary = Text × Option Text × String × Stat

abbrev pub summary : ChangeUnit → Summary
summary u = (
  u.file_path,
  u.previous_file_path,
  u.change_type,
  record { added = u.added_lines; deleted = u.deleted_lines; binary = u.is_binary },
)

abbrev pub expected_summary : List NumstatRow → StatusRow → Summary
expected_summary rows r =
    let e = status_entry r in
    (e.file_path, e.previous_file_path, change_type_of e.status, expected rows r)

module _ (lower : Text → Text) (uuid : ℕ → Text)
    (run_id full_name baseline_sha target_sha : Text) where
  change_units-summary :
      (rows : List NumstatRow) (rs : List StatusRow) (call : ℕ)
      → All HasOld rs
      → map summary (
          change_units lower uuid run_id full_name baseline_sha target_sha call
            (insert_rows rows [])
            (map status_entry rs))
        ≡ map (expected_summary rows) rs
  unfolding change_units change_unit
  change_units-summary rows [] call h = refl
  change_units-summary rows (r ∷ rs) call h =
      let ih = change_units-summary rows rs (suc call) h.1 in
      rw (stat_for-expected rows r h.0, ih) refl

  -- Reading what git prints for the rows of a diff gives one change unit for each row of the status
  -- list, in order, with its path, the path before, the kind of change and its counts: those of the
  -- last numstat row with its path; for a moved file without one, those of the old path; else zero.
  -- The rows are as git prints them: fields without tabs or line breaks, not empty, and with no
  -- white space at the ends of the line.
  pub parse_diff-rows :
      (rows : List NumstatRow) (rs : List StatusRow)
      → All IsNumstatRow rows
      → All IsStatusRow rs
      → All HasOld rs
      → map summary (
          parse_diff lower uuid run_id full_name baseline_sha target_sha
            (unlines (map numstat_text rows))
            (unlines (map status_text rs)))
        ≡ map (expected_summary rows) rs
  unfolding parse_diff
  parse_diff-rows rows rs hr hs ho =
      rw (parse_numstat-rows rows hr, parse_name_status-rows rs hs)
        (change_units-summary rows rs 0 ho)
