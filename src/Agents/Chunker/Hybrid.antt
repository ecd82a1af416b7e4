-- ===== src/Agents/Chunker/Hybrid.antt =====
-- packages/agents/devmanager_agents/chunker.py: the splitters by structure and
-- `HybridChunker.chunk`. The regular expressions are read out as functions on the text behind a
-- place: `_PARA_BREAK` is `break_length`, `_HEADING` is `is_heading`, `_CODE_DEF` is `is_code_def`.
pub mod Sizes
use agentic_dev_ops.Prelude.{
  ℕ, zero, suc, ◌+◌, ◌-◌, Bool, true, false, ◌&&◌, ◌||◌, not, Option, none, some, List, [], ◌∷◌,
  ◌++◌, String, ltb, nat_beq, ◌==◌, string_eq, map, keep, drop, if◌then◌else◌,
}
use agentic_dev_ops.Prelude.Text.{Text, codes, strip, lstrip, is_space, starts_with}
use agentic_dev_ops.Agents.Chunker.{is_blank, count_tokens, split_by_tokens}

pub data ChunkStrategy : Type 0 where
  markdown_heading code_function paragraph token_cap : ChunkStrategy

abbrev pub strategy_value : ChunkStrategy → String
strategy_value markdown_heading = "md_heading"
strategy_value code_function = "code_function"
strategy_value paragraph = "paragraph"
strategy_value token_cap = "token_cap"

pub record Chunk : Type 0 where
  pub content : Text
  pub token_count : ℕ
  pub strategy : String

-- `[p.strip() for p in parts if p.strip()]`
unfoldable pub strip_all : List Text → List Text
unfolding is_blank
strip_all [] = []
strip_all (p ∷ ps) = if is_blank p then strip_all ps else strip p ∷ strip_all ps

-- How much of the text behind a line break belongs to the match of `\n\s*\n` that starts there:
-- up to the last line break of the white space that follows.
unfoldable pub break_length : Text → Option ℕ
break_length [] = none
break_length (c ∷ s) =
    let more = break_length s in
    if is_space c
    then (elim more [ some n ↦ some (suc n) | none ↦ if nat_beq c 10 then some 1 else none ])
    else none

unfoldable pub cons_head : ℕ → List Text → List Text
cons_head c [] = (c ∷ []) ∷ []
cons_head c (p ∷ ps) = (c ∷ p) ∷ ps

-- `_PARA_BREAK.split(text)`, with the number of characters that the last match still covers.
unfoldable pub split_breaks : ℕ → Text → List Text
unfolding break_length cons_head
split_breaks skip [] = [] ∷ []
split_breaks (suc skip) (c ∷ s) = split_breaks skip s
split_breaks zero (c ∷ s) =
    let same = cons_head c (split_breaks 0 s) in
    if nat_beq c 10
    then (elim (break_length s) [ some n ↦ [] ∷ split_breaks n s | none ↦ same ])
    else same

unfoldable pub split_by_paragraph : Text → List Text
unfolding split_breaks strip_all
split_by_paragraph text = strip_all (split_breaks 0 text)

-- `^#{1,6}\s`: at most `k` more hashes, and a white space.
unfoldable pub after_hashes : ℕ → Text → Bool
after_hashes k [] = false
after_hashes zero (c ∷ s) = is_space c
after_hashes (suc k) (c ∷ s) = if nat_beq c 35 then after_hashes k s else is_space c

unfoldable pub is_heading : Text → Bool
unfolding after_hashes
is_heading [] = false
is_heading (c ∷ s) = nat_beq c 35 && after_hashes 5 s

-- A word, and white space behind it: `public\s+`.
unfoldable pub is_word_space : Text → Text → Bool
unfolding starts_with is_space
is_word_space [] [] = false
is_word_space [] (c ∷ s) = is_space c
is_word_space (x ∷ w) [] = false
is_word_space (x ∷ w) (c ∷ s) = nat_beq x c && is_word_space w s

unfoldable pub is_code_def : Text → Bool
unfolding is_word_space lstrip starts_with
is_code_def s =
    starts_with (codes "def ") s
    || starts_with (codes "class ") s
    || starts_with (codes "func ") s
    || starts_with (codes "func") s && starts_with (codes "(") (lstrip (drop 4 s))
    || starts_with (codes "function ") s
    || is_word_space (codes "public") s
    || is_word_space (codes "private") s
    || is_word_space (codes "protected") s

-- Cuts the text at each line start where `matches` holds of the rest: what stands before the first
-- such place, and the pieces from one place to the next.
unfoldable pub split_at_lines : (Text → Bool) → Bool → Text → Text × List Text
split_at_lines matches line_start [] = ([], [])
split_at_lines matches line_start (c ∷ s) =
    let (before, pieces) = split_at_lines matches (nat_beq c 10) s in
    if line_start && matches (c ∷ s) then ([], (c ∷ before) ∷ pieces) else (c ∷ before, pieces)

-- With no match the text is split by paragraphs.
unfoldable pub pieces_or_paragraphs : Text → List Text → List Text
unfolding strip_all split_by_paragraph
pieces_or_paragraphs text [] = split_by_paragraph text
pieces_or_paragraphs text (p ∷ ps) = strip_all (p ∷ ps)

unfoldable pub split_by_markdown_heading : Text → List Text
unfolding split_at_lines pieces_or_paragraphs is_heading
split_by_markdown_heading text =
    let (before, pieces) = split_at_lines is_heading true text in pieces_or_paragraphs text pieces

unfoldable pub split_by_code_function : Text → List Text
unfolding split_at_lines pieces_or_paragraphs is_code_def
split_by_code_function text =
    let (before, pieces) = split_at_lines is_code_def true text in pieces_or_paragraphs text pieces

-- `_PRIMARY_BY_FILE_TYPE.get(file_type, ChunkStrategy.PARAGRAPH)`
unfoldable pub primary_by_file_type : String → ChunkStrategy
primary_by_file_type file_type =
    if file_type == "md"
    then markdown_heading
    else if file_type == "py"
        || file_type == "go"
        || file_type == "java"
        || file_type == "js"
        || file_type == "ts"
    then code_function
    else paragraph

pub record HybridChunker : Type 0 where
  pub max_tokens : ℕ
  pub overlap_tokens : ℕ
  pub primary : Option ChunkStrategy

unfoldable pub strategy_for : HybridChunker → String → ChunkStrategy
unfolding primary_by_file_type
strategy_for chunker file_type = elim chunker.primary [
  | some s ↦ s
  | none ↦ primary_by_file_type file_type
]

unfoldable pub pieces_for : ℕ → HybridChunker → ChunkStrategy → Text → Option (List Text)
pieces_for fuel chunker markdown_heading text = some (split_by_markdown_heading text)
pieces_for fuel chunker code_function text = some (split_by_code_function text)
pieces_for fuel chunker paragraph text = some (split_by_paragraph text)
pieces_for fuel chunker token_cap text = split_by_tokens fuel text chunker.max_tokens 0

infixl 5 ◌>>=◌
abbrev pub ◌>>=◌ : {A B : Type 0} → Option A → (A → Option B) → Option B
none >>= f = none
some a >>= f = f a

-- The `for` loop over the pieces: what is too large is cut again.
unfoldable pub cap_pieces : ℕ → HybridChunker → List Text → Option (List Text)
cap_pieces fuel chunker [] = some []
cap_pieces fuel chunker (p ∷ ps) =
    let rest = cap_pieces fuel chunker ps in
    if ltb chunker.max_tokens (count_tokens p)
    then (do
      cut ← split_by_tokens fuel p chunker.max_tokens chunker.overlap_tokens
      out ← rest
      some (cut ++ out))
    else (do out ← rest; some (p ∷ out))

unfoldable pub to_chunks : ChunkStrategy → List Text → List Chunk
to_chunks strategy [] = []
to_chunks strategy (p ∷ ps) =
    let rest = to_chunks strategy ps in
    if is_blank p
    then rest
    else record { content = p; token_count = count_tokens p; strategy = strategy_value strategy }
      ∷ rest

unfoldable pub chunk : ℕ → HybridChunker → Text → String → Option (List Chunk)
chunk fuel chunker text file_type =
    let strategy = strategy_for chunker file_type in
    if is_blank text then some [] else (do
      pieces ← pieces_for fuel chunker strategy text
      out ← cap_pieces fuel chunker pieces
      some (to_chunks strategy out))
