-- ===== src/Git/Differ/Rows.antt =====
-- Reading back the lines that git prints.
use agentic_dev_ops.Prelude.{
  ℕ, ◌≤◌, ◌≡◌, refl, ap, subst, take, ◌∙◌, ◌≢◌, inl, inr, true, false, Bool-cases, none, some, List,
  [], ◌∷◌, ◌++◌, map, is_nil, length, All, arith,
}
use mathlib.Core.List.{append_assoc}
use agentic_dev_ops.Prelude.Dict.{Dict, insert}
use agentic_dev_ops.Prelude.Text.{
  Text, strip, lstrip, rstrip, rstrip_cons, is_space, text_eq_instance,
}
use agentic_dev_ops.Prelude.Text.Split.{
  split_max, split_max-part, split_on-part, split_on-last, unlines, splitlines-unlines, OneLine,
  Lacks,
}
use agentic_dev_ops.Git.Differ.{
  Stat, stat_of, numstat_parts, numstat_line, numstat_lines, parse_numstat, StatusEntry,
  status_parts, status_line, status_lines, parse_name_status, is_move,
}

length-lstrip-le : (s : Text) → length (lstrip s) ≤ length s
unfolding lstrip
length-lstrip-le [] = omega arith
length-lstrip-le (c ∷ s) = ground (arith, length-lstrip-le s)

pub lstrip-append : (a s : Text) → a ≢ [] → lstrip a ≡ a → lstrip (a ++ s) ≡ a ++ s
unfolding lstrip
lstrip-append [] s n h = absurd (n refl)
lstrip-append (c ∷ a) s n h = elim (Bool-cases (is_space c)) [
  | inl e ↦
      let h' : lstrip a ≡ c ∷ a = rw e at h in
      absurd (omega (arith, length-lstrip-le a, ap (λ (t : Text). length t) h'))
  | inr e ↦ rw e refl
]

append-ne_nil : (s p : Text) → p ≢ [] → s ++ p ≢ []
append-ne_nil [] p n = n
append-ne_nil (c ∷ s) p n = λ e. cc

rstrip_cons-ne_nil : (c : ℕ) (r : Text) → r ≢ [] → rstrip_cons c r ≡ c ∷ r
unfolding rstrip_cons
rstrip_cons-ne_nil c [] n = absurd (n refl)
rstrip_cons-ne_nil c (d ∷ r) n = refl

pub rstrip-append : (s p : Text) → p ≢ [] → rstrip p ≡ p → rstrip (s ++ p) ≡ s ++ p
unfolding rstrip
rstrip-append [] p n h = h
rstrip-append (c ∷ s) p n h =
    ap (rstrip_cons c) (rstrip-append s p n h) ∙ rstrip_cons-ne_nil c (s ++ p) (append-ne_nil s p n)

-- A line whose first field does not start with white space and whose last does not end with it.
pub strip-line :
    (a m p : Text)
    → a ≢ []
    → lstrip a ≡ a
    → p ≢ []
    → rstrip p ≡ p
    → strip (a ++ (m ++ p)) ≡ a ++ (m ++ p)
unfolding strip
strip-line a m p na ha np hp =
    ap rstrip (lstrip-append a (m ++ p) na ha)
    ∙ rw (← append_assoc a m p) (rstrip-append (a ++ m) p np hp)

is_nil-append : (a s : Text) → a ≢ [] → is_nil (a ++ s) ≡ false
is_nil-append [] s n = absurd (n refl)
is_nil-append (c ∷ a) s n = refl

-- One line of `git diff --numstat`.
pub record NumstatRow : Type 0 where
  pub added_s : Text
  pub deleted_s : Text
  pub path : Text
  pub stat : Stat

abbrev pub numstat_text : NumstatRow → Text
numstat_text r = r.added_s ++ 9 ∷ (r.deleted_s ++ 9 ∷ r.path)

-- The counts are fields without tabs that read as `stat`; the path may hold tabs and inner spaces.
pub record IsNumstatRow (r : NumstatRow) : Type 0 where
  pub one_line : OneLine (numstat_text r)
  pub added_lacks : Lacks 9 r.added_s
  pub deleted_lacks : Lacks 9 r.deleted_s
  pub added_ne : r.added_s ≢ []
  pub added_strips : lstrip r.added_s ≡ r.added_s
  pub path_ne : r.path ≢ []
  pub path_strips : rstrip r.path ≡ r.path
  pub counts : stat_of r.added_s r.deleted_s ≡ some r.stat

split_max-zero : (sep : ℕ) (s : Text) → split_max sep 0 s ≡ s ∷ []
unfolding split_max
split_max-zero sep [] = refl
split_max-zero sep (c ∷ s) = refl

strip-fields :
    (a d p : Text)
    → a ≢ []
    → lstrip a ≡ a
    → p ≢ []
    → rstrip p ≡ p
    → strip (a ++ 9 ∷ (d ++ 9 ∷ p)) ≡ a ++ 9 ∷ (d ++ 9 ∷ p)
strip-fields a d p na ha np hp =
    subst (λ (t : Text). strip (a ++ 9 ∷ t) ≡ a ++ 9 ∷ t) (append_assoc d (9 ∷ []) p)
      (strip-line a (9 ∷ (d ++ 9 ∷ [])) p na ha np hp)

numstat_line-row :
    (r : NumstatRow) (stats : Dict Text Stat)
    → IsNumstatRow r
    → numstat_line (numstat_text r) stats ≡ insert r.path r.stat stats
unfolding numstat_line
numstat_line-row r stats w =
    let whole =
      strip-fields r.added_s r.deleted_s r.path w.added_ne w.added_strips w.path_ne w.path_strips in
    let parts : split_max 9 2 (numstat_text r) ≡ r.added_s ∷ r.deleted_s ∷ r.path ∷ [] =
      split_max-part 9 1 r.added_s (r.deleted_s ++ 9 ∷ r.path) w.added_lacks
      ∙ ap (λ l. r.added_s ∷ l) (split_max-part 9 0 r.deleted_s r.path w.deleted_lacks)
      ∙ ap (λ l. r.added_s ∷ r.deleted_s ∷ l) (split_max-zero 9 r.path) in
    let full = is_nil-append r.added_s (9 ∷ (r.deleted_s ++ 9 ∷ r.path)) w.added_ne in
    let counts = w.counts in rw (whole, full, parts, counts, numstat_parts) refl

-- Each row in turn sets the counts of its path.
abbrev pub insert_rows : List NumstatRow → Dict Text Stat → Dict Text Stat
insert_rows [] stats = stats
insert_rows (r ∷ rs) stats = insert_rows rs (insert r.path r.stat stats)

numstat_lines-rows :
    (rs : List NumstatRow) (stats : Dict Text Stat)
    → All IsNumstatRow rs
    → numstat_lines (map numstat_text rs) stats ≡ insert_rows rs stats
unfolding numstat_lines
numstat_lines-rows [] stats h = refl
numstat_lines-rows (r ∷ rs) stats h =
    ap (numstat_lines (map numstat_text rs)) (numstat_line-row r stats h.0)
    ∙ numstat_lines-rows rs (insert r.path r.stat stats) h.1

OneLine-rows : (rs : List NumstatRow) → All IsNumstatRow rs → All OneLine (map numstat_text rs)
OneLine-rows [] h = tt
OneLine-rows (r ∷ rs) h = (h.0.one_line, OneLine-rows rs h.1)

-- Reading the printed rows gives the dictionary of the rows.
pub parse_numstat-rows :
    (rs : List NumstatRow)
    → All IsNumstatRow rs
    → parse_numstat (unlines (map numstat_text rs)) ≡ insert_rows rs []
unfolding parse_numstat
parse_numstat-rows rs h =
    rw (splitlines-unlines (map numstat_text rs) (OneLine-rows rs h)) (numstat_lines-rows rs [] h)

-- One line of `git diff --name-status`: a rename or a copy has two paths.
pub data StatusRow : Type 0 where
  plain : Text → Text → StatusRow
  moved : Text → Text → Text → StatusRow

abbrev pub status_text : StatusRow → Text
status_text (plain status path) = status ++ 9 ∷ path
status_text (moved status old new) = status ++ 9 ∷ (old ++ 9 ∷ new)

abbrev pub status_entry : StatusRow → StatusEntry
status_entry (plain status path) = record {
  status = status;
  file_path = path;
  previous_file_path = none;
}
status_entry (moved status old new) = record {
  status = take 1 status;
  file_path = new;
  previous_file_path = some old;
}

-- A field that holds no tab and is not cut at its end by `strip`.
abbrev pub IsField : Text → Type 0
IsField p = Lacks 9 p × (p ≢ []) × (rstrip p ≡ p)

abbrev pub IsStatusRow : StatusRow → Type 0
IsStatusRow (plain status path) =
    OneLine (status ++ 9 ∷ path)
    × (is_move status ≡ false)
    × Lacks 9 status
    × (status ≢ [])
    × (lstrip status ≡ status)
    × IsField path
IsStatusRow (moved status old new) =
    OneLine (status ++ 9 ∷ (old ++ 9 ∷ new))
    × (is_move status ≡ true)
    × Lacks 9 status
    × (status ≢ [])
    × (lstrip status ≡ status)
    × IsField new
    × Lacks 9 old

status_line-row :
    (r : StatusRow) → IsStatusRow r → status_line (status_text r) ≡ status_entry r ∷ []
unfolding status_line status_parts
status_line-row (plain status path) (_, still, lacks, ne, strips, field) =
    let whole = strip-line status (9 ∷ []) path ne strips field.1 field.2 in
    let full = is_nil-append status (9 ∷ path) ne in
    let parts =
      split_on-part 9 status path lacks ∙ ap (λ l. status ∷ l) (split_on-last 9 path field.0) in
    rw (whole, full, parts, still, status_parts) refl
status_line-row (moved status old new) (_, moves, lacks, ne, strips, field, old_lacks) =
    let whole = strip-fields status old new ne strips field.1 field.2 in
    let full = is_nil-append status (9 ∷ (old ++ 9 ∷ new)) ne in
    let parts =
      split_on-part 9 status (old ++ 9 ∷ new) lacks
      ∙ ap (λ l. status ∷ l)
          (split_on-part 9 old new old_lacks ∙ ap (λ l. old ∷ l) (split_on-last 9 new field.0)) in
    rw (whole, full, parts, moves, status_parts) refl

status_lines-rows :
    (rs : List StatusRow)
    → All IsStatusRow rs
    → status_lines (map status_text rs) ≡ map status_entry rs
unfolding status_lines
status_lines-rows [] h = refl
status_lines-rows (r ∷ rs) h =
    ap (λ l. l ++ status_lines (map status_text rs)) (status_line-row r h.0)
    ∙ ap (λ l. status_entry r ∷ l) (status_lines-rows rs h.1)

OneLine-status : (rs : List StatusRow) → All IsStatusRow rs → All OneLine (map status_text rs)
OneLine-status [] h = tt
OneLine-status (plain status path ∷ rs) h = (h.0.0, OneLine-status rs h.1)
OneLine-status (moved status old new ∷ rs) h = (h.0.0, OneLine-status rs h.1)

-- Reading the printed rows gives their entries, in order.
pub parse_name_status-rows :
    (rs : List StatusRow)
    → All IsStatusRow rs
    → parse_name_status (unlines (map status_text rs)) ≡ map status_entry rs
unfolding parse_name_status
parse_name_status-rows rs h =
    rw (splitlines-unlines (map status_text rs) (OneLine-status rs h)) (status_lines-rows rs h)
