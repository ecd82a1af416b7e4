-- ===== src/Agents/Chunker.antt =====
-- packages/agents/devmanager_agents/chunker.py, `_split_by_tokens` and `_count_tokens`.
-- Texts are lists of code points; sizes and positions are natural numbers. The `while` loop takes
-- fuel, and `none` means that the fuel ran out: the children prove when it suffices and when no
-- fuel does. The splitters by structure and `HybridChunker.chunk` stand in the child `Hybrid`.
pub mod Window
pub mod Pieces
pub mod Total
pub mod Ink
pub mod Diverges
pub mod Hybrid
use agentic_dev_ops.Prelude.{
  ℕ, zero, suc, ◌+◌, ◌-◌, ◌*◌, ◌/◌, min, max, Bool, Option, none, some, List, [], ◌∷◌, ◌++◌, ltb,
  leb, nat_beq, length, take, drop, is_nil, if◌then◌else◌,
}
use agentic_dev_ops.Prelude.Text.{Text, strip}

-- `not text.strip()`
unfoldable pub is_blank : Text → Bool
unfolding strip
is_blank text = is_nil (strip text)

unfoldable pub count_tokens : Text → ℕ
count_tokens text = max 1 (length text / 4)

-- The last place of a space in a window of the text.
unfoldable pub last_space : Text → Option ℕ
last_space [] = none
last_space (c ∷ s) = elim (last_space s) [
  | some j ↦ some (suc j)
  | none ↦ if nat_beq c 32 then some 0 else none
]

-- `text[i:j]`
abbrev pub slice : Text → ℕ → ℕ → Text
slice text i j = take (j - i) (drop i text)

-- `ws = text.rfind(" ", i, end)` and `if ws > i: end = ws`; the window starts at `i`.
unfoldable pub break_at : ℕ → ℕ → Option ℕ → ℕ
break_at i end none = end
break_at i end (some j) = if ltb 0 j then i + j else end

-- The end of the piece that starts at `i`.
unfoldable pub cut_end : Text → ℕ → ℕ → ℕ
unfolding break_at
cut_end text char_budget i =
    let end = min (i + char_budget) (length text) in
    if ltb end (length text) then break_at i end (last_space (slice text i end)) else end

-- Where the next piece starts. The subtraction stops at 0, and so does the test for `i <= 0`.
unfoldable pub next_start : ℕ → ℕ → ℕ
next_start overlap_chars end =
    let i = if ltb 0 overlap_chars then end - overlap_chars else end in
    if nat_beq i 0 then end else i

unfoldable pub add_piece : Text → List Text → List Text
add_piece piece out = if is_blank piece then out else out ++ piece ∷ []

module _ (text : Text) (char_budget overlap_chars : ℕ) where
  unfoldable pub split_loop : ℕ → ℕ → List Text → Option (List Text)
  unfolding next_start
  split_loop zero i out = none
  split_loop (suc fuel) i out =
      let end = cut_end text char_budget i in
      let out' = add_piece (slice text i end) out in
      let rest = split_loop fuel (next_start overlap_chars end) out' in
      if ltb i (length text) then (if leb (length text) end then some out' else rest) else some out

unfoldable pub split_by_tokens : ℕ → Text → ℕ → ℕ → Option (List Text)
split_by_tokens fuel text max_tokens overlap =
    if is_blank text
    then some []
    else if leb (length text) (max_tokens * 4)
    then some (text ∷ [])
    else split_loop text (max_tokens * 4) (overlap * 4) fuel 0 []
