-- ===== src/Pm/Recompute/Tests.antt =====
-- The edges of one person.
use agentic_dev_ops.Prelude.{ℕ, ◌+◌, ◌≡◌, true, none, some, List, [], ◌∷◌}
use agentic_dev_ops.Prelude.Dict.{lookup}
use agentic_dev_ops.Prelude.Text.{Text, codes}
use agentic_dev_ops.Pm.Recompute.{
  Person, GitlabIdentity, ChangeRow, edge_key, edge_key_eq, username_to_person,
  recompute_familiarity,
}
use agentic_dev_ops.Pm.Recompute.Counts.{
  merge, lines_for, commits_for, counted_lines, edge_or, recompute_familiarity-counts,
}

abbrev same_text : Text → Text
same_text t = t

abbrev sum : ℕ → ℕ → ℕ
sum m n = m + n

abbrev people : List Person
people = record { person_id = 1; is_active = true } ∷ []

abbrev identities : List GitlabIdentity
identities = record { person_id = 1; gitlab_username = codes "ann"; effective_to = none } ∷ []

abbrev change : ChangeRow
change = record {
  owner = some (codes "ann");
  language = codes "python";
  added_lines = 3;
  deleted_lines = 2;
}

recompute_familiarity-counts_example :
    let names = username_to_person same_text sum 9 people identities [] in
    let (stats, after) =
      recompute_familiarity same_text sum 9 people identities (change ∷ change ∷ []) [] in
    (lookup (edge_key 1 (codes "lang:python")) after
      ≡ edge_or same_text sum 9 names
          (merge none
            (lines_for same_text sum 9 names
              (edge_key 1 (codes "lang:python"))
              (change ∷ change ∷ []))
            (commits_for same_text sum 9 names
              (edge_key 1 (codes "lang:python"))
              (change ∷ change ∷ [])))
          (lookup (edge_key 1 (codes "lang:python")) []))
    × (stats.lines_total ≡ counted_lines same_text sum 9 names (change ∷ change ∷ []))
recompute_familiarity-counts_example =
    recompute_familiarity-counts same_text sum 9 people identities (change ∷ change ∷ []) []
      (edge_key 1 (codes "lang:python"))
