-- ===== src/Codemap/Diff/Same.antt =====
-- The difference of a graph and itself.
use agentic_dev_ops.Prelude.{
  ◌≡◌, refl, Bool, true, false, not, Option, none, some, List, [], ◌∷◌, keep, string_eq, ==_refl,
  Eq, arith, All, All-map,
}
use agentic_dev_ops.Prelude.Dict.{Dict, lookup, has_key, keys}
use agentic_dev_ops.Prelude.Order.{text_lt, sort_by}
use agentic_dev_ops.Prelude.Text.{Text, text_eq_instance}
use agentic_dev_ops.Codemap.Schema.{Module, ScopeGraph, kind_value}
use agentic_dev_ops.Codemap.Diff.{
  texts_beq, module_fields_changed, modules_by_id, edges_by_key, missing_in, common_keys, values_at,
  changed_pair, changed_module, changed_at, changed_modules_of, any_clash, sorted_keys,
  sorted_values, with_edges, diff_scope_graphs, edge_key_eq,
}

keep-none : {A : Type 0} (p : A → Bool) (xs : List A) → All (λ x. p x ≡ false) xs → keep p xs ≡ []
keep-none p [] h = refl
keep-none p (x ∷ xs) h = let e = h.0 in rw e (keep-none p xs h.1)

module _ {K V : Type 0} ⦃e : Eq K⦄ where
  has_key-keys : (d : Dict K V) → All (λ k. has_key k d ≡ true) (keys d)
  unfolding has_key
  has_key-keys [] = tt
  has_key-keys ((k, v) ∷ d) = (
    rw (==_refl k) refl,
    All-map (λ j. has_key j d ≡ true) (λ j. has_key j ((k, v) ∷ d) ≡ true) (keys d)
        (λ j h. rw h (ground arith)) (has_key-keys d),
  )

  missing_in_self : (d : Dict K V) → missing_in d d ≡ []
  unfolding missing_in
  missing_in_self d =
      keep-none (λ k. not (has_key k d)) (keys d)
        (All-map (λ k. has_key k d ≡ true) (λ k. not (has_key k d) ≡ false) (keys d)
          (λ k h. rw h refl) (has_key-keys d))

texts_beq_refl : (ts : List Text) → texts_beq ts ts ≡ true
unfolding texts_beq
texts_beq_refl [] = refl
texts_beq_refl (t ∷ ts) = rw (==_refl t, texts_beq_refl ts) refl

module_fields_changed_self : (m : Module) → module_fields_changed m m ≡ []
unfolding module_fields_changed
module_fields_changed_self m =
    rw
      (
        ==_refl m.name,
        ==_refl (kind_value m.kind),
        ==_refl m.responsibility,
        texts_beq_refl m.entry_points,
        texts_beq_refl m.key_files,
      )
      refl

changed_pair_self : (mid : Text) (o : Option Module) → changed_pair mid o o ≡ []
unfolding changed_pair changed_module
changed_pair_self mid none = refl
changed_pair_self mid (some m) = rw (module_fields_changed_self m) refl

changed_at_self : (d : Dict Text Module) (mid : Text) → changed_at d d mid ≡ []
unfolding changed_at
changed_at_self d mid = changed_pair_self mid (lookup mid d)

changed_modules_of_self :
    (d : Dict Text Module) (mids : List Text) → changed_modules_of d d mids ≡ []
unfolding changed_modules_of
changed_modules_of_self d [] = refl
changed_modules_of_self d (mid ∷ mids) = rw (changed_at_self d mid) (changed_modules_of_self d mids)

-- A graph and itself have an empty difference, and computing it raises no error.
pub diff_scope_graphs_self :
    (g : ScopeGraph)
    → diff_scope_graphs g g
      ≡ some (record {
        scope = g.scope;
        from_version = g.version;
        to_version = g.version;
        added_modules = [];
        removed_modules = [];
        changed_modules = [];
        added_edges = [];
        removed_edges = [];
      })
unfolding diff_scope_graphs sorted_values sorted_keys any_clash values_at sort_by with_edges
diff_scope_graphs_self g =
    let modules = modules_by_id g.modules [] in
    rw
      (
        missing_in_self modules,
        missing_in_self (edges_by_key g.edges []),
        changed_modules_of_self modules (sort_by text_lt (common_keys modules modules)),
      )
      refl
