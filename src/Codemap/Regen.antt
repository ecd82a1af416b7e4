-- ===== src/Codemap/Regen.antt =====
-- apps/api-gateway/api_gateway/routers/code_map/regen.py: a new graph for each scope that changed.
-- The language model, pydantic's JSON reader, `str.lower` and the file system are parameters; the
-- log is not kept. `now` is what the clock says throughout one regeneration.
pub mod Outcome
use agentic_dev_ops.Prelude.{
  ℕ, zero, suc, ◌+◌, ◌-◌, ◌≡◌, refl, Bool, true, false, ◌&&◌, ◌||◌, Option, none, some, List, [],
  ◌∷◌, ◌++◌, String, ltb, nat_beq, length, any, keep, drop, take, is_nil, map, ◌==◌, if◌then◌else◌,
}
use agentic_dev_ops.Prelude.Dict.{Dict, lookup, insert}
use agentic_dev_ops.Prelude.Order.{text_lt, sort_by}
use agentic_dev_ops.Prelude.Text.{Text, codes, starts_with, contains, strip, text_eq_instance}
use agentic_dev_ops.Prelude.Text.Split.{split_on}
use agentic_dev_ops.Codemap.Schema.{Module, ScopeGraph, ModuleCard, ScopeEntry, IndexFile}
use agentic_dev_ops.Codemap.Store.{CodeMapStore, put, get, empty_store}
use agentic_dev_ops.Codemap.Changes.{
  Exc, Result, ok, raised, Retry, transient, permanent, classify_error, file, more, strip_fences,
  card_name, card_of,
}

-- What is written as JSON.
pub data Payload : Type 0 where
  graph_file : ScopeGraph → Payload
  card_file : ModuleCard → Payload
  index_file : IndexFile → Payload

-- The file system: it writes a file (or raises), and reads the index file if there is one.
pub record Files : Type 1 where
  pub Disk : Type 0
  pub write_json : List Text → Payload → Disk → Disk × Option Exc
  pub read_index : Disk → Option (Result IndexFile)

abbrev pub next_version : Option ScopeGraph → ℕ
next_version none = 1
next_version (some g) = g.version + 1

abbrev pub retry_delay : ℕ
retry_delay = 5

abbrev pub is_transient : Retry → Bool
is_transient transient = true
is_transient permanent = false

module _ (lower : Text → Text) (validate_json : Text → Result ScopeGraph) (fs : Files)
    (now : Text) where
  open fs use {Disk, write_json, read_index}

  unfoldable pub entry_of : ScopeGraph → ScopeEntry
  entry_of g = record {
    version = g.version;
    head_sha = g.head_sha;
    stale = g.stale;
    stale_reason = g.stale_reason;
    module_count = length g.modules;
  }

  abbrev pub loaded_index : Option (Result IndexFile) → Result IndexFile
  loaded_index none =
      ok (record { generated_at = codes "t"; last_pull_at = none; last_error = none; scopes = [] })
  loaded_index (some r) = r

  unfoldable pub write_index : Text → ScopeGraph → Disk → Result IndexFile → Disk × Option Exc
  unfolding entry_of
  write_index scope g disk (raised e) = (disk, some e)
  write_index scope g disk (ok idx) =
      write_json (codes "index.json" ∷ [])
        (index_file (record idx {
          generated_at = now;
          last_pull_at = some now;
          scopes = insert scope (entry_of g) idx.scopes;
        }))
        disk

  unfoldable pub update_index : Text → ScopeGraph → Disk → Disk × Option Exc
  unfolding write_index
  update_index scope g disk = write_index scope g disk (loaded_index (read_index disk))

  -- Goes on unless an exception was raised.
  abbrev pub and_then : Disk × Option Exc → (Disk → Disk × Option Exc) → Disk × Option Exc
  and_then (disk, some e) k = (disk, some e)
  and_then (disk, none) k = k disk

  unfoldable pub write_cards : Text → ScopeGraph → List Module → Disk → Disk × Option Exc
  unfolding card_of card_name
  write_cards scope g [] disk = (disk, none)
  write_cards scope g (m ∷ ms) disk =
      and_then
        (write_json (scope ∷ (card_name m.id ++ codes ".json") ∷ []) (card_file (card_of scope g m))
          disk)
        (write_cards scope g ms)

  unfoldable pub write_graph : Text → ScopeGraph → Disk → Disk × Option Exc
  unfolding write_cards update_index
  write_graph scope g disk =
      and_then (write_json ((scope ++ codes ".json") ∷ []) (graph_file g) disk)
        (λ d. and_then (write_cards scope g g.modules d) (update_index scope g))

  -- The new graph, if it was written.
  unfoldable pub written : ScopeGraph → Disk × Option Exc → Disk × Result ScopeGraph
  written g (disk, none) = (disk, ok g)
  written g (disk, some e) = (disk, raised e)

  unfoldable pub write_new :
      Text → Option ScopeGraph → Disk → Result ScopeGraph → Disk × Result ScopeGraph
  unfolding written write_graph
  write_new scope old disk (raised e) = (disk, raised e)
  write_new scope old disk (ok g) =
      let new = record g { version = next_version old; stale = false; stale_reason = none } in
      written new (write_graph scope new disk)

  -- The body of the `try`: the new graph, if all goes well.
  unfoldable pub attempt : Text → Option ScopeGraph → Result Text → Disk → Disk × Result ScopeGraph
  unfolding strip_fences write_new
  attempt scope old (raised e) disk = (disk, raised e)
  attempt scope old (ok content) disk =
      write_new scope old disk (validate_json (strip_fences lower content))

  -- The disk, the store, and for how long each `sleep` was.
  pub record RegenState : Type 0 where
    pub disk : Disk
    pub store : CodeMapStore
    pub sleeps : List ℕ

  unfoldable pub fallback : Text → Option ScopeGraph → Text → Text → Exc → RegenState → RegenState
  fallback scope (some old) head_sha generator e st = record st {
    store = put now scope old true (some e.message) st.store;
  }
  fallback scope none head_sha generator e st = record st {
    store =
        put now scope
          (record {
            scope = scope;
            version = 0;
            generated_at = now;
            head_sha = head_sha;
            generator = generator;
            stale = true;
            stale_reason = some e.message;
            modules = [];
            edges = [];
          })
          true (some e.message) st.store;
  }

  module _ (complete : ℕ → Result Text) (scope : Text) (old : Option ScopeGraph)
      (head_sha generator : Text) where
    -- What follows an attempt: `again` if it failed, the error is transient and attempts are left.
    unfoldable pub settle : Bool → RegenState → Result ScopeGraph → RegenState → RegenState
    unfolding fallback classify_error
    settle left again (ok new) st = record st { store = put now scope new false none st.store }
    settle left again (raised e) st =
        if left && is_transient (classify_error lower e)
        then again
        else fallback scope old head_sha generator e st

    -- The attempts from number `n` on, when `left` more may follow. `complete n` is what the
    -- language model answers to attempt `n`.
    unfoldable pub regen_from : ℕ → ℕ → RegenState → RegenState
    unfolding attempt settle
    regen_from zero n st =
        let (disk', result) = attempt scope old (complete n) st.disk in
        let st' = record st { disk = disk' } in settle false st' result st'
    regen_from (suc left) n st =
        let (disk', result) = attempt scope old (complete n) st.disk in
        let st' = record st { disk = disk' } in
        settle true
          (regen_from left (suc n) (record st' { sleeps = st.sleeps ++ retry_delay ∷ [] })) result
          st'

    -- `none` is the failed assertion when no attempt is allowed.
    unfoldable pub regen_one_scope : ℕ → RegenState → Option RegenState
    unfolding regen_from
    regen_one_scope zero st = none
    regen_one_scope (suc left) st = some (regen_from left 0 st)

  -- The loop of `main`: `complete scope n` is the answer to attempt `n` for a scope. No scope raises.
  unfoldable pub regen_scopes :
      (Text → ℕ → Result Text) → Text → Text → List Text → RegenState → RegenState
  unfolding regen_from get
  regen_scopes complete head_sha generator [] st = st
  regen_scopes complete head_sha generator (scope ∷ scopes) st =
      regen_scopes complete head_sha generator scopes
        (regen_from (complete scope) scope (get scope st.store) head_sha generator 1 0 st)

  -- `_load_disk_into_store`: each file with its stem and what reading it gives.
  unfoldable pub load_disk : List (Text × Result ScopeGraph) → CodeMapStore → CodeMapStore
  load_disk [] store = store
  load_disk ((stem, r) ∷ files) store =
      let next = load_disk files in
      if codes "index" == stem
      then next store
      else (elim r [ raised e ↦ next store | ok g ↦ next (put now stem g false none store) ])
