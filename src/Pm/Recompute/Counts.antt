-- ===== src/Pm/Recompute/Counts.antt =====
-- The edges that a recomputation writes, against the counts of the rows.
use agentic_dev_ops.Prelude.{
  ℕ, zero, suc, ◌+◌, ◌≡◌, refl, sym, ap, ◌∙◌, subst, Bool, false, ◌||◌, Bool-cases, inl, inr,
  Option, none, some, List, [], ◌∷◌, nat_eq, ◌==◌, arith, if◌then◌else◌,
}
use agentic_dev_ops.Prelude.Dict.{Dict, lookup, insert, has_key, lookup-insert, has_key-lookup}
use agentic_dev_ops.Prelude.Text.{Text, text_eq_instance}
use agentic_dev_ops.Pm.Recompute.{
  Person, GitlabIdentity, ChangeRow, EdgeKey, edge_key_beq_iff, edge_key_eq, Tally, FamiliarityEdge,
  bump, edge_of, count_row, aggregate, edge_row, write_edges, sum_lines, username_to_person,
  recompute_familiarity,
}

-- Whether a row counts for an edge.
abbrev pub hits : Option EdgeKey → EdgeKey → Bool
hits none k = false
hits (some j) k = j == k

-- What is added to a tally, if there is one.
abbrev pub merge : Option Tally → ℕ → ℕ → Option Tally
merge none lines zero = none
merge none lines (suc c) = some (record { lines = lines; commits = suc c })
merge (some t) lines c = some (record { lines = t.lines + lines; commits = t.commits + c })

lookup-bump :
    (k j : EdgeKey) (n : ℕ) (d : Dict EdgeKey Tally)
    → lookup j (bump k n d) ≡ (if k == j then merge (lookup j d) n 1 else lookup j d)
unfolding bump lookup
lookup-bump k j n [] = ground arith
lookup-bump k j n ((i, c) ∷ d) =
    ground
      (arith, edge_key_beq_iff k j, edge_key_beq_iff i k, edge_key_beq_iff i j, lookup-bump k j n d)

sum_lines-bump :
    {F : Type 0} (lower : Text → Text) (edge_score : ℕ → ℕ → F) (now : ℕ) (k : EdgeKey) (n : ℕ)
    (d : Dict EdgeKey Tally)
    → sum_lines lower edge_score now (bump k n d) ≡ n + sum_lines lower edge_score now d
unfolding bump sum_lines
sum_lines-bump lower edge_score now k n [] = omega arith
sum_lines-bump lower edge_score now k n ((j, c) ∷ d) =
    ground (arith, sum_lines-bump lower edge_score now k n d)

-- Every key stands once.
abbrev Distinct : Dict EdgeKey Tally → Type 0
Distinct [] = Unit
Distinct ((k, c) ∷ d) = (has_key k d ≡ false) × Distinct d

has_key-bump :
    (k j : EdgeKey) (n : ℕ) (d : Dict EdgeKey Tally)
    → has_key j (bump k n d) ≡ (k == j || has_key j d)
unfolding bump has_key
has_key-bump k j n [] = ground arith
has_key-bump k j n ((i, c) ∷ d) =
    ground (
      arith,
      edge_key_beq_iff k j,
      edge_key_beq_iff i k,
      edge_key_beq_iff i j,
      has_key-bump k j n d,
    )

bump-Distinct : (k : EdgeKey) (n : ℕ) (d : Dict EdgeKey Tally) → Distinct d → Distinct (bump k n d)
unfolding bump
bump-Distinct k n [] h = (unfold has_key in refl, tt)
bump-Distinct k n ((j, c) ∷ d) (new, rest) = elim (Bool-cases (j == k)) [
  | inl e ↦ rw e (new, rest)
  | inr e ↦ rw e (
    has_key-bump k j n d ∙ ground (arith, edge_key_beq_iff k j, edge_key_beq_iff j k),
    bump-Distinct k n d rest,
  )
]

merge_assoc :
    (o : Option Tally) (n lines c : ℕ) → merge (merge o n 1) lines c ≡ merge o (n + lines) (suc c)
merge_assoc none n lines c = ground arith
merge_assoc (some t) n lines c = ground arith

module _ {F : Type 0} (lower : Text → Text) (edge_score : ℕ → ℕ → F) (now : ℕ)
    (names : Dict Text ℕ) where
  abbrev edge : ChangeRow → Option EdgeKey
  edge r = edge_of lower edge_score now names r r.owner

  -- The lines and the number of the rows that count for an edge, and the lines of all that count.
  abbrev pub lines_for : EdgeKey → List ChangeRow → ℕ
  lines_for k [] = 0
  lines_for k (r ∷ rows) =
      (if hits (edge r) k then r.added_lines + r.deleted_lines else 0) + lines_for k rows

  abbrev pub commits_for : EdgeKey → List ChangeRow → ℕ
  commits_for k [] = 0
  commits_for k (r ∷ rows) = (if hits (edge r) k then 1 else 0) + commits_for k rows

  abbrev pub lines_if : Option EdgeKey → ℕ → ℕ
  lines_if none n = 0
  lines_if (some k) n = n

  abbrev pub counted_lines : List ChangeRow → ℕ
  counted_lines [] = 0
  counted_lines (r ∷ rows) =
      lines_if (edge r) (r.added_lines + r.deleted_lines) + counted_lines rows

  lookup-count_row :
      (r : ChangeRow) (o : Option EdgeKey) (k : EdgeKey) (agg : Dict EdgeKey Tally) (lines c : ℕ)
      → merge (lookup k (count_row lower edge_score now r o agg)) lines c
        ≡ merge
            (lookup k agg)
            ((if hits o k then r.added_lines + r.deleted_lines else 0) + lines)
            ((if hits o k then 1 else 0) + c)
  unfolding count_row
  lookup-count_row r none k agg lines c = ground arith
  lookup-count_row r (some j) k agg lines c = elim (Bool-cases (j == k)) [
    | inl e ↦
        rw (lookup-bump j k (r.added_lines + r.deleted_lines) agg, e)
          (merge_assoc (lookup k agg) (r.added_lines + r.deleted_lines) lines c ∙ ground arith)
    | inr e ↦ rw (lookup-bump j k (r.added_lines + r.deleted_lines) agg, e) (ground arith)
  ]

  merge_none : (o : Option Tally) → merge o 0 0 ≡ o
  merge_none none = refl
  merge_none (some t) = ground arith

  lookup-aggregate :
      (k : EdgeKey) (rows : List ChangeRow) (agg : Dict EdgeKey Tally)
      → lookup k (aggregate lower edge_score now names rows agg)
        ≡ merge (lookup k agg) (lines_for k rows) (commits_for k rows)
  unfolding aggregate
  lookup-aggregate k [] agg = sym (merge_none (lookup k agg))
  lookup-aggregate k (r ∷ rows) agg =
      lookup-aggregate k rows (count_row lower edge_score now r (edge r) agg)
      ∙ lookup-count_row r (edge r) k agg (lines_for k rows) (commits_for k rows)

  count_row-Distinct :
      (r : ChangeRow) (o : Option EdgeKey) (agg : Dict EdgeKey Tally)
      → Distinct agg
      → Distinct (count_row lower edge_score now r o agg)
  unfolding count_row
  count_row-Distinct r none agg h = h
  count_row-Distinct r (some k) agg h = bump-Distinct k _ agg h

  aggregate-Distinct :
      (rows : List ChangeRow) (agg : Dict EdgeKey Tally)
      → Distinct agg
      → Distinct (aggregate lower edge_score now names rows agg)
  unfolding aggregate
  aggregate-Distinct [] agg h = h
  aggregate-Distinct (r ∷ rows) agg h =
      aggregate-Distinct rows _ (count_row-Distinct r (edge r) agg h)

  sum_lines-count_row :
      (r : ChangeRow) (o : Option EdgeKey) (agg : Dict EdgeKey Tally)
      → sum_lines lower edge_score now (count_row lower edge_score now r o agg)
        ≡ lines_if o (r.added_lines + r.deleted_lines) + sum_lines lower edge_score now agg
  unfolding count_row
  sum_lines-count_row r none agg = omega arith
  sum_lines-count_row r (some k) agg = sum_lines-bump lower edge_score now k _ agg

  sum_lines-aggregate :
      (rows : List ChangeRow) (agg : Dict EdgeKey Tally)
      → sum_lines lower edge_score now (aggregate lower edge_score now names rows agg)
        ≡ counted_lines rows + sum_lines lower edge_score now agg
  unfolding aggregate
  sum_lines-aggregate [] agg = omega arith
  sum_lines-aggregate (r ∷ rows) agg = omega (
    arith,
    sum_lines-aggregate rows (count_row lower edge_score now r (edge r) agg),
    sum_lines-count_row r (edge r) agg,
  )

  -- The edge of a tally, or what was there.
  abbrev pub edge_or : Option Tally → Option (FamiliarityEdge F) → Option (FamiliarityEdge F)
  edge_or none old = old
  edge_or (some t) old = some (edge_row lower edge_score now t)

  lookup-write_edges :
      (agg : Dict EdgeKey Tally) (table : Dict EdgeKey (FamiliarityEdge F)) (k : EdgeKey)
      → Distinct agg
      → lookup k (write_edges lower edge_score now agg table)
        ≡ edge_or (lookup k agg) (lookup k table)
  unfolding write_edges
  lookup-write_edges [] table k h = unfold lookup in refl
  lookup-write_edges ((j, c) ∷ agg) table k (new, rest) =
      lookup-write_edges agg (insert j (edge_row lower edge_score now c) table) k rest
      ∙ rw (lookup-insert j k (edge_row lower edge_score now c) table) (elim (Bool-cases (j == k)) [
        | inl e ↦
            let same : j ≡ k = (edge_key_beq_iff j k).0 e in
            let gone : lookup k agg ≡ none =
              subst (λ x. lookup x agg ≡ none) same (has_key-lookup j agg new) in
            unfold lookup in rw (e, gone) refl
        | inr e ↦ unfold lookup in rw e refl
      ])

-- After a recomputation every edge that some row counts for holds the lines and the number of the
-- rows that count for it, and every other edge is as it was before, also one that no row counts for
-- any more. The reported total is the lines of all rows that count for an edge.
pub recompute_familiarity-counts :
    {F : Type 0} (lower : Text → Text) (edge_score : ℕ → ℕ → F) (now : ℕ) (persons : List Person)
    (identities : List GitlabIdentity) (rows : List ChangeRow)
    (table : Dict EdgeKey (FamiliarityEdge F)) (k : EdgeKey)
    → let names = username_to_person lower edge_score now persons identities [] in
      let (stats, after) =
        recompute_familiarity lower edge_score now persons identities rows table in
      (lookup k after
        ≡ edge_or lower edge_score now names
            (merge none
              (lines_for lower edge_score now names k rows)
              (commits_for lower edge_score now names k rows))
            (lookup k table))
      × (stats.lines_total ≡ counted_lines lower edge_score now names rows)
unfolding recompute_familiarity
recompute_familiarity-counts lower edge_score now persons identities rows table k =
    let names = username_to_person lower edge_score now persons identities [] in
    let agg = aggregate lower edge_score now names rows [] in
    (
      lookup-write_edges lower edge_score now names agg table k
            (aggregate-Distinct lower edge_score now names rows [] tt)
          ∙ ap (λ o. edge_or lower edge_score now names o (lookup k table))
              (lookup-aggregate lower edge_score now names k rows [] ∙ unfold lookup in refl),
      sum_lines-aggregate lower edge_score now names rows [] ∙ unfold sum_lines in omega arith,
    )
