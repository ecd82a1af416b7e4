-- ===== src/Codemap/Tests.antt =====
-- The theorems on the code map at a small one.
use agentic_dev_ops.Prelude.{ℕ, zero, suc, ◌≡◌, true, false, none, some, List, [], ◌∷◌}
use agentic_dev_ops.Prelude.Text.{Text, codes}
use agentic_dev_ops.Codemap.Schema.{Module, lib, ScopeGraph}
use agentic_dev_ops.Codemap.Store.{get, streak, empty_store}
use agentic_dev_ops.Codemap.Store.Streak.{PutCall, after, last_graph, last_stale, after_lem}
use agentic_dev_ops.Codemap.Lines.{find_module_for_file}
use agentic_dev_ops.Codemap.Lines.Longest.{Answers, all_modules, find_module_for_file_lem}
use agentic_dev_ops.Codemap.Changes.{timeout_error, Result, ok, raised}
use agentic_dev_ops.Codemap.Regen.{Files, RegenState, regen_one_scope}
use agentic_dev_ops.Codemap.Regen.Outcome.{Regenerated, regen_one_scope-Regenerated}

abbrev app : Module
app = record {
  id = codes "apps/web";
  path = codes "apps/web";
  name = codes "web";
  kind = lib;
  responsibility = codes "pages";
  entry_points = [];
  key_files = [];
}

abbrev graph : ScopeGraph
graph = record {
  scope = codes "apps";
  version = 3;
  generated_at = codes "t0";
  head_sha = codes "a1";
  generator = codes "mock";
  stale = false;
  stale_reason = none;
  modules = app ∷ [];
  edges = record { source = codes "apps/web"; to = codes "apps/api"; via = none } ∷ [];
}

abbrev calls : List PutCall
calls =
    record {
      now = codes "t2";
      scope = codes "apps";
      graph = graph;
      stale = true;
      stale_reason = some (codes "timeout");
    }
    ∷ record {
      now = codes "t1";
      scope = codes "apps";
      graph = graph;
      stale = false;
      stale_reason = none;
    }
    ∷ []

after_lem_example :
    (get (codes "apps") (after calls) ≡ last_graph (codes "apps") calls)
    × (streak (codes "apps") (after calls) ≡ last_stale (codes "apps") calls)
after_lem_example = after_lem (codes "apps") calls

find_module_for_file_lem_example :
    Answers
      (codes "apps/web/a.ts")
      (all_modules (graph ∷ []))
      (find_module_for_file (codes "apps/web/a.ts") (graph ∷ []))
find_module_for_file_lem_example = find_module_for_file_lem (codes "apps/web/a.ts") (graph ∷ [])

abbrev same_text : Text → Text
same_text t = t

abbrev read_graph : Text → Result ScopeGraph
read_graph t = ok graph

-- A disk that counts the files written.
abbrev counting : Files
counting = record { Disk = ℕ; write_json = λ path payload n. (suc n, none); read_index = λ n. none }

abbrev failing_once : ℕ → Result Text
failing_once zero = raised (record { kind = timeout_error; message = codes "timed out" })
failing_once (suc n) = ok (codes "{}")

abbrev start : RegenState same_text read_graph counting (codes "t1")
start = record { disk = 0; store = empty_store; sleeps = [] }

regen_one_scope-Regenerated_example :
    (later : RegenState same_text read_graph counting (codes "t1")) × (regen_one_scope same_text
        read_graph counting
        (codes "t1")
        failing_once
        (codes "apps")
        (some graph)
        (codes "b2")
        (codes "mock")
        2
        start
      ≡ some later)
    × Regenerated same_text read_graph counting
        (codes "t1")
        (codes "apps")
        (some graph)
        1
        start
        later
regen_one_scope-Regenerated_example =
    regen_one_scope-Regenerated same_text read_graph counting (codes "t1") failing_once
      (codes "apps") (some graph) (codes "b2") (codes "mock") 1 start
