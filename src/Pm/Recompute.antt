-- ===== src/Pm/Recompute.antt =====
-- services/pm-integration/devmanager_pm_integration/recompute/familiarity.py, with the DAOs that it
-- uses. The tables are given in the order in which the queries return them; counts of lines are not
-- negative. `str.lower` and the score of an edge are parameters.
pub mod Counts
pub mod Tests
use agentic_dev_ops.Prelude.{
  ℕ, zero, suc, ◌+◌, Bool, true, false, not, ◌&&◌, Option, none, some, List, [], ◌∷◌, ◌++◌, any,
  keep, is_nil, nat_beq, nat_beq_iff, nat_eq, ◌==◌, Eq, ◌≡◌, ◌↔◌, arith, length, if◌then◌else◌,
}
use agentic_dev_ops.Prelude.Dict.{Dict, lookup, insert}
use agentic_dev_ops.Prelude.Text.{Text, codes, text_eq, text_eq_iff, text_eq_instance}

pub record Person : Type 0 where
  pub person_id : ℕ
  pub is_active : Bool

pub record GitlabIdentity : Type 0 where
  pub person_id : ℕ
  pub gitlab_username : Text
  pub effective_to : Option ℕ

-- The selected columns of a change unit.
pub record ChangeRow : Type 0 where
  pub owner : Option Text
  pub language : Text
  pub added_lines : ℕ
  pub deleted_lines : ℕ

-- `(person_id, area_key)`
pub data EdgeKey : Type 0 where
  edge_key : ℕ → Text → EdgeKey

unfoldable pub edge_key_beq : EdgeKey → EdgeKey → Bool
edge_key_beq (edge_key p a) (edge_key q b) = nat_beq p q && text_eq a b

pub edge_key_beq_iff : (a b : EdgeKey) → (edge_key_beq a b ≡ true) ↔ (a ≡ b)
unfolding edge_key_beq
edge_key_beq_iff (edge_key p a) (edge_key q b) = ground (arith, nat_beq_iff p q, text_eq_iff a b)

instance abbrev pub edge_key_eq : Eq EdgeKey
edge_key_eq = record { equal = edge_key_beq; decides = edge_key_beq_iff }

pub record Tally : Type 0 where
  pub lines : ℕ
  pub commits : ℕ

pub record FamiliarityEdge (F : Type 0) : Type 0 where
  pub commits_count : ℕ
  pub lines_changed : ℕ
  pub score : F
  pub last_seen_at : ℕ

pub record FamiliarityStats : Type 0 where
  pub persons : ℕ
  pub edges : ℕ
  pub lines_total : ℕ

abbrev pub is_none : Option ℕ → Bool
is_none none = true
is_none (some n) = false

-- `agg[key]["lines"] += n` and `agg[key]["commits"] += 1`, from zero where the key is new.
unfoldable pub bump : EdgeKey → ℕ → Dict EdgeKey Tally → Dict EdgeKey Tally
bump k n [] = (k, record { lines = n; commits = 1 }) ∷ []
bump k n ((j, c) ∷ d) =
    if j == k
    then (j, record { lines = c.lines + n; commits = c.commits + 1 }) ∷ d
    else (j, c) ∷ bump k n d

module _ {F : Type 0} (lower : Text → Text) (edge_score : ℕ → ℕ → F) (now : ℕ) where
  -- `list_active_by_person`, of which the names that are not empty are entered.
  unfoldable pub enter_names : ℕ → List GitlabIdentity → Dict Text ℕ → Dict Text ℕ
  enter_names person [] names = names
  enter_names person (i ∷ is) names = enter_names person is (
      if nat_beq i.person_id person && is_none i.effective_to && not (is_nil i.gitlab_username)
      then insert (lower i.gitlab_username) person names
      else names)

  unfoldable pub username_to_person : List Person → List GitlabIdentity → Dict Text ℕ → Dict Text ℕ
  unfolding enter_names
  username_to_person [] identities names = names
  username_to_person (p ∷ ps) identities names =
      username_to_person ps identities
        (if p.is_active then enter_names p.person_id identities names else names)

  -- The edge that a row counts for, if it has an owner and a language and the owner is known.
  unfoldable pub known_edge : Text → Option ℕ → Option EdgeKey
  known_edge language none = none
  known_edge language (some person) = some (edge_key person (codes "lang:" ++ language))

  unfoldable pub edge_of : Dict Text ℕ → ChangeRow → Option Text → Option EdgeKey
  unfolding known_edge
  edge_of names row none = none
  edge_of names row (some owner) =
      if is_nil owner
      then none
      else if is_nil row.language
      then none
      else known_edge row.language (lookup (lower owner) names)

  unfoldable pub count_row : ChangeRow → Option EdgeKey → Dict EdgeKey Tally → Dict EdgeKey Tally
  unfolding bump
  count_row row none agg = agg
  count_row row (some k) agg = bump k (row.added_lines + row.deleted_lines) agg

  unfoldable pub aggregate : Dict Text ℕ → List ChangeRow → Dict EdgeKey Tally → Dict EdgeKey Tally
  unfolding edge_of count_row
  aggregate names [] agg = agg
  aggregate names (r ∷ rows) agg = aggregate names rows (count_row r (edge_of names r r.owner) agg)

  -- `FamiliarityEdgeDAO.upsert`
  abbrev pub edge_row : Tally → FamiliarityEdge F
  edge_row c = record {
    commits_count = c.commits;
    lines_changed = c.lines;
    score = edge_score c.lines c.commits;
    last_seen_at = now;
  }

  unfoldable pub write_edges :
      Dict EdgeKey Tally → Dict EdgeKey (FamiliarityEdge F) → Dict EdgeKey (FamiliarityEdge F)
  write_edges [] table = table
  write_edges ((k, c) ∷ agg) table = write_edges agg (insert k (edge_row c) table)

  -- The ids that are seen, each once.
  unfoldable pub seen_persons : Dict EdgeKey Tally → List ℕ → List ℕ
  seen_persons [] seen = seen
  seen_persons ((edge_key p a, c) ∷ agg) seen =
      seen_persons agg (if any (nat_beq p) seen then seen else p ∷ seen)

  unfoldable pub sum_lines : Dict EdgeKey Tally → ℕ
  sum_lines [] = 0
  sum_lines ((k, c) ∷ agg) = c.lines + sum_lines agg

  unfoldable pub recompute_familiarity :
      List Person
      → List GitlabIdentity
      → List ChangeRow
      → Dict EdgeKey (FamiliarityEdge F)
      → FamiliarityStats × Dict EdgeKey (FamiliarityEdge F)
  unfolding username_to_person aggregate write_edges seen_persons sum_lines
  recompute_familiarity persons identities rows table =
      let agg = aggregate (username_to_person persons identities []) rows [] in
      (
        record {
          persons = length (seen_persons agg []);
          edges = length agg;
          lines_total = sum_lines agg;
        },
        write_edges agg table,
      )
