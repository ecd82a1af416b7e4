-- ===== src/Codemap/Changes.antt =====
-- apps/api-gateway/api_gateway/routers/code_map/regen.py, the helpers of a regeneration: the classes
-- of errors, the files by scope, the text of the model's answer, and the cards of modules.
use agentic_dev_ops.Prelude.{
  ℕ, ◌-◌, ◌&&◌, ◌||◌, List, [], ◌∷◌, ◌++◌, String, ltb, nat_beq, length, any, keep, drop, take,
  is_nil, map, ◌==◌, if◌then◌else◌,
}
use agentic_dev_ops.Prelude.Dict.{Dict}
use agentic_dev_ops.Prelude.Order.{text_lt, sort_by}
use agentic_dev_ops.Prelude.Text.{Text, codes, starts_with, contains, strip, text_eq_instance}
use agentic_dev_ops.Prelude.Text.Split.{split_on}
use agentic_dev_ops.Codemap.Schema.{Module, ScopeGraph, ModuleCard}

pub data ExcKind : Type 0 where
  llm_auth_error timeout_error connection_error other_error : ExcKind

pub record Exc : Type 0 where
  pub kind : ExcKind
  pub message : Text

-- What a call that may raise gives.
pub data Result (A : Type 0) : Type 0 where
  ok : A → Result A
  raised : Exc → Result A

pub data Retry : Type 0 where
  transient permanent : Retry

abbrev pub transient_keywords : List String
transient_keywords =
    "timeout" ∷ "timed out" ∷ "connection" ∷ "reset by peer" ∷ "temporarily" ∷ "503" ∷ "502" ∷ "500"
    ∷ "504" ∷ "unavailable" ∷ "rate limit" ∷ "429" ∷ "overloaded" ∷ []

unfoldable pub classify_error : (Text → Text) → Exc → Retry
unfolding contains
classify_error lower e = elim e.kind [
  | llm_auth_error ↦ permanent
  | timeout_error ↦ transient
  | connection_error ↦ transient
  | other_error ↦
      if any (λ kw. contains (codes kw) (lower e.message)) transient_keywords
      then transient
      else permanent
]

-- `f.split("/", 1)[0]`
unfoldable pub top_of : Text → Text
top_of [] = []
top_of (c ∷ s) = if nat_beq c b'/' then [] else c ∷ top_of s

-- `set.add`: sets are lists without repetition.
unfoldable pub add_to_set : Text → List Text → List Text
add_to_set t ts = if any (λ u. u == t) ts then ts else ts ++ t ∷ []

-- `out.setdefault(top, set()).add(f)`
unfoldable pub add_file : Text → Text → Dict Text (List Text) → Dict Text (List Text)
unfolding add_to_set
add_file top f [] = (top, f ∷ []) ∷ []
add_file top f ((k, fs) ∷ d) =
    if k == top then (k, add_to_set f fs) ∷ d else (k, fs) ∷ add_file top f d

unfoldable pub group_from : List Text → Dict Text (List Text) → Dict Text (List Text)
unfolding top_of add_file
group_from [] d = d
group_from (f ∷ fs) d = group_from fs (add_file (top_of f) f d)

unfoldable pub group_by_scope : List Text → Dict Text (List Text)
unfolding group_from
group_by_scope files = group_from files []

-- The lines of `_collect_tree`: a file, or how many are left out.
pub data TreeLine : Type 0 where
  file : Text → TreeLine
  more : ℕ → TreeLine

unfoldable pub collect_tree : Text → List Text → ℕ → List TreeLine
unfolding starts_with sort_by
collect_tree scope files max_lines =
    let scope_files =
      sort_by text_lt (keep (λ f. starts_with (scope ++ codes "/") f || f == scope) files) in
    if ltb max_lines (length scope_files)
    then map file (take max_lines scope_files) ++ more (length scope_files - max_lines) ∷ []
    else map file scope_files

-- `text.split("```", 2)[1]` of a text that starts with a fence.
unfoldable pub until_fence : Text → Text
unfolding starts_with
until_fence [] = []
until_fence (c ∷ s) = if starts_with (codes "```") (c ∷ s) then [] else c ∷ until_fence s

-- `rstrip("`")`
unfoldable pub rstrip_ticks : Text → Text
rstrip_ticks [] = []
rstrip_ticks (c ∷ s) =
    let rest = rstrip_ticks s in if nat_beq c 96 && is_nil rest then [] else c ∷ rest

unfoldable pub strip_fences : (Text → Text) → Text → Text
unfolding starts_with until_fence rstrip_ticks strip
strip_fences lower content =
    let text = strip content in
    let inner = until_fence (drop 3 text) in
    let body = if starts_with (codes "json") (lower inner) then drop 4 inner else inner in
    if starts_with (codes "```") text then strip (rstrip_ticks (strip body)) else text

-- `m.id.split("/")[-1]`
unfoldable pub last_of : Text → List Text → Text
last_of t [] = t
last_of t (u ∷ us) = last_of u us

unfoldable pub card_name : Text → Text
unfolding last_of split_on
card_name id = last_of [] (split_on b'/' id)

unfoldable pub card_of : Text → ScopeGraph → Module → ModuleCard
card_of scope g m = record {
  scope = scope;
  module_id = m.id;
  version = g.version;
  generated_at = g.generated_at;
  head_sha = g.head_sha;
  responsibility = m.responsibility;
  interfaces = record { exports = []; imports = m.entry_points; consumes_api = [] };
  depends_on = [];
  depended_on_by = [];
  key_files = m.key_files;
  notes = [];
}
