-- ===== src/Codemap/Lines.antt =====
-- apps/api-gateway/api_gateway/routers/code_map/line_context.py: the module that a file belongs to.
pub mod Longest
use agentic_dev_ops.Prelude.{
  ℕ, suc, ◌≤◌, ◌<◌, ◌≡◌, refl, ap, ◌∙◌, Bool, true, false, ◌||◌, inl, inr, Bool-cases, Option, none,
  some, List, [], ◌∷◌, ◌++◌, ltb, length, ◌==◌, arith, All, OnSome, if◌then◌else◌,
}
use agentic_dev_ops.Prelude.Text.{Text, codes, starts_with, text_eq_instance}
use agentic_dev_ops.Codemap.Schema.{Module, ModuleKind, ScopeGraph}

pub record Owner : Type 0 where
  pub module_id : Text
  pub scope : Text
  pub responsibility : Text
  pub kind : ModuleKind

unfoldable pub owns : Text → Module → Bool
unfolding starts_with
owns file_path m = starts_with (m.path ++ codes "/") file_path || file_path == m.path

abbrev pub owner_of : Text → Module → Owner
owner_of scope m = record {
  module_id = m.id;
  scope = scope;
  responsibility = m.responsibility;
  kind = m.kind;
}

abbrev pub Best : Type 0
Best = Option (ℕ × Owner)

-- `best is None or len(m.path) > best[0]`
unfoldable pub is_better : Module → Best → Bool
is_better m none = true
is_better m (some (n, o)) = ltb n (length m.path)

unfoldable pub better : Text → Text → Best → Module → Best
unfolding owns is_better
better file_path scope best m =
    if owns file_path m
    then (if is_better m best then some (length m.path, owner_of scope m) else best)
    else best

unfoldable pub best_in_graph : Text → Text → Best → List Module → Best
unfolding better
best_in_graph file_path scope best [] = best
best_in_graph file_path scope best (m ∷ ms) =
    best_in_graph file_path scope (better file_path scope best m) ms

unfoldable pub best_in_graphs : Text → Best → List ScopeGraph → Best
unfolding best_in_graph
best_in_graphs file_path best [] = best
best_in_graphs file_path best (g ∷ gs) =
    best_in_graphs file_path (best_in_graph file_path g.scope best g.modules) gs

unfoldable pub find_module_for_file : Text → List ScopeGraph → Option Owner
unfolding best_in_graphs
find_module_for_file file_path graphs = elim (best_in_graphs file_path none graphs) [
  | none ↦ none
  | some (n, o) ↦ some o
]
