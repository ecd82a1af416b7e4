-- ===== src/Codemap/Diff.antt =====
-- apps/api-gateway/api_gateway/routers/code_map/diff.py: what changed between two graphs.
-- Sorting edge keys compares a missing `via` with a text, which Python refuses, if two keys agree in
-- the rest: `none` is that TypeError.
pub mod Same
use agentic_dev_ops.Prelude.{
  ℕ, ◌≡◌, refl, Bool, true, false, ◌&&◌, ◌||◌, not, Option, none, some, List, [], ◌∷◌, ◌++◌, String,
  map, any, keep, is_nil, ◌==◌, string_eq, Eq, ◌↔◌, arith, if◌then◌else◌,
}
use agentic_dev_ops.Prelude.Dict.{Dict, lookup, insert, has_key, keys}
use agentic_dev_ops.Prelude.Order.{text_lt, sort_by}
use agentic_dev_ops.Prelude.Text.{Text, text_eq, text_eq_iff, text_eq_instance}
use agentic_dev_ops.Codemap.Schema.{Module, Edge, ScopeGraph, kind_value}

-- The tuple `(from, to, via)`.
pub data EdgeKey : Type 0 where
  edge_key : Text → Text → Option Text → EdgeKey

unfoldable pub via_beq : Option Text → Option Text → Bool
via_beq none none = true
via_beq none (some t) = false
via_beq (some s) none = false
via_beq (some s) (some t) = text_eq s t

unfoldable pub edge_key_beq : EdgeKey → EdgeKey → Bool
unfolding via_beq
edge_key_beq (edge_key a b v) (edge_key c d w) = text_eq a c && text_eq b d && via_beq v w

via_beq_iff : (v w : Option Text) → (via_beq v w ≡ true) ↔ (v ≡ w)
unfolding via_beq
via_beq_iff none none = ground arith
via_beq_iff none (some t) = ground arith
via_beq_iff (some s) none = ground arith
via_beq_iff (some s) (some t) = ground (arith, text_eq_iff s t)

pub edge_key_beq_iff : (k j : EdgeKey) → (edge_key_beq k j ≡ true) ↔ (k ≡ j)
unfolding edge_key_beq
edge_key_beq_iff (edge_key a b v) (edge_key c d w) =
    ground (arith, text_eq_iff a c, text_eq_iff b d, via_beq_iff v w)

instance abbrev pub edge_key_eq : Eq EdgeKey
edge_key_eq = record { equal = edge_key_beq; decides = edge_key_beq_iff }

-- `_edge_key`
unfoldable pub key_of_edge : Edge → EdgeKey
key_of_edge e = edge_key e.source e.to e.via

unfoldable pub texts_beq : List Text → List Text → Bool
texts_beq [] [] = true
texts_beq [] (t ∷ ts) = false
texts_beq (s ∷ ss) [] = false
texts_beq (s ∷ ss) (t ∷ ts) = text_eq s t && texts_beq ss ts

-- The names of the compared fields that differ, in the order of `_FIELDS_TO_COMPARE`.
unfoldable pub module_fields_changed : Module → Module → List String
unfolding texts_beq
module_fields_changed a b =
    (if text_eq a.name b.name then [] else "name" ∷ [])
    ++ (if kind_value a.kind == kind_value b.kind then [] else "kind" ∷ [])
    ++ (if text_eq a.responsibility b.responsibility then [] else "responsibility" ∷ [])
    ++ (if texts_beq a.entry_points b.entry_points then [] else "entry_points" ∷ [])
    ++ (if texts_beq a.key_files b.key_files then [] else "key_files" ∷ [])

-- `{m.id: m for m in modules}`
unfoldable pub modules_by_id : List Module → Dict Text Module → Dict Text Module
modules_by_id [] d = d
modules_by_id (m ∷ ms) d = modules_by_id ms (insert m.id m d)

unfoldable pub edges_by_key : List Edge → Dict EdgeKey Edge → Dict EdgeKey Edge
unfolding key_of_edge
edges_by_key [] d = d
edges_by_key (e ∷ es) d = edges_by_key es (insert (key_of_edge e) e d)

-- `set(a) - set(b)` and `set(a) & set(b)`
unfoldable pub missing_in : {K V W : Type 0} ⦃e : Eq K⦄ → Dict K V → Dict K W → List K
missing_in a b = keep (λ k. not (has_key k b)) (keys a)

unfoldable pub common_keys : {K V W : Type 0} ⦃e : Eq K⦄ → Dict K V → Dict K W → List K
common_keys a b = keep (λ k. has_key k b) (keys a)

-- `[d[k] for k in ks]`, where each key is in the dictionary.
unfoldable pub values_at : {K V : Type 0} ⦃e : Eq K⦄ → Dict K V → List K → List V
values_at d [] = []
values_at d (k ∷ ks) =
    let rest = values_at d ks in elim (lookup k d) [ none ↦ rest | some v ↦ v ∷ rest ]

pub record Changed : Type 0 where
  pub id : Text
  pub fields_changed : List String
  pub before : Module
  pub later : Module

unfoldable pub changed_module : Text → Module → Module → List Changed
unfolding module_fields_changed
changed_module mid a b =
    let fields = module_fields_changed a b in
    if is_nil fields
    then []
    else record { id = mid; fields_changed = fields; before = a; later = b } ∷ []

unfoldable pub changed_pair : Text → Option Module → Option Module → List Changed
unfolding changed_module
changed_pair mid none o = []
changed_pair mid (some m) none = []
changed_pair mid (some m) (some n) = changed_module mid m n

unfoldable pub changed_at : Dict Text Module → Dict Text Module → Text → List Changed
unfolding changed_pair
changed_at a b mid = changed_pair mid (lookup mid a) (lookup mid b)

unfoldable pub changed_modules_of : Dict Text Module → Dict Text Module → List Text → List Changed
unfolding changed_at
changed_modules_of a b [] = []
changed_modules_of a b (mid ∷ mids) = changed_at a b mid ++ changed_modules_of a b mids

-- Two keys that `<` cannot compare.
unfoldable pub clash : EdgeKey → EdgeKey → Bool
clash (edge_key a b none) (edge_key c d (some w)) = text_eq a c && text_eq b d
clash (edge_key a b (some v)) (edge_key c d none) = text_eq a c && text_eq b d
clash k j = false

unfoldable pub any_clash : List EdgeKey → Bool
unfolding clash
any_clash [] = false
any_clash (k ∷ ks) = any (clash k) ks || any_clash ks

unfoldable pub via_lt : Option Text → Option Text → Bool
via_lt (some v) (some w) = text_lt v w
via_lt v w = false

unfoldable pub edge_key_lt : EdgeKey → EdgeKey → Bool
unfolding via_lt
edge_key_lt (edge_key a b v) (edge_key c d w) =
    text_lt a c || text_eq a c && (text_lt b d || text_eq b d && via_lt v w)

unfoldable pub sorted_keys : List EdgeKey → Option (List EdgeKey)
unfolding any_clash edge_key_lt sort_by
sorted_keys ks = if any_clash ks then none else some (sort_by edge_key_lt ks)

pub record ScopeDiff : Type 0 where
  pub scope : Text
  pub from_version : ℕ
  pub to_version : ℕ
  pub added_modules : List Module
  pub removed_modules : List Module
  pub changed_modules : List Changed
  pub added_edges : List Edge
  pub removed_edges : List Edge

unfoldable pub sorted_values : Dict EdgeKey Edge → List EdgeKey → Option (List Edge)
unfolding sorted_keys values_at
sorted_values d ks = elim (sorted_keys ks) [ none ↦ none | some l ↦ some (values_at d l) ]

unfoldable pub with_edges : ScopeDiff → Option (List Edge) → Option (List Edge) → Option ScopeDiff
with_edges d none removed = none
with_edges d (some added) none = none
with_edges d (some added) (some removed) =
    some (record d { added_edges = added; removed_edges = removed })

unfoldable pub diff_scope_graphs : ScopeGraph → ScopeGraph → Option ScopeDiff
unfolding modules_by_id edges_by_key missing_in common_keys values_at changed_modules_of
    sorted_values with_edges sort_by
diff_scope_graphs a b =
    let a_modules = modules_by_id a.modules [] in
    let b_modules = modules_by_id b.modules [] in
    let a_edges = edges_by_key a.edges [] in
    let b_edges = edges_by_key b.edges [] in
    with_edges
      (record {
        scope = b.scope;
        from_version = a.version;
        to_version = b.version;
        added_modules = values_at b_modules (sort_by text_lt (missing_in b_modules a_modules));
        removed_modules = values_at a_modules (sort_by text_lt (missing_in a_modules b_modules));
        changed_modules =
            changed_modules_of a_modules b_modules
              (sort_by text_lt (common_keys a_modules b_modules));
        added_edges = [];
        removed_edges = [];
      })
      (sorted_values b_edges (missing_in b_edges a_edges))
      (sorted_values a_edges (missing_in a_edges b_edges))
