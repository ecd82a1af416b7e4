-- ===== src/Agents/Tests.antt =====
-- The theorems on chunks, skills and reviews at concrete inputs.
use agentic_dev_ops.Prelude.{
  suc, ◌≡◌, ◌≢◌, refl, true, false, not, inl, none, some, List, [], ◌∷◌, ◌++◌, all, is_nil, nat_beq,
  length, arith, All, concat, Option, Bool,
}
use agentic_dev_ops.Prelude.Text.{
  Text, codes, is_space, strip, lstrip, rstrip, rstrip_cons, text_eq_instance,
}
use agentic_dev_ops.Agents.Registry.{Skill}
use agentic_dev_ops.Agents.Reviewer.{
  ToolUse, LlmResponse, Message, user_prompt, CallEnd, output, review_all,
}
use agentic_dev_ops.Agents.Reviewer.Loop.{EndsWithin, review_all-EndsWithin}
use agentic_dev_ops.Agents.Chunker.{
  is_blank, split_by_tokens, split_loop, cut_end, break_at, next_start, add_piece, last_space,
  count_tokens,
}
use agentic_dev_ops.Agents.Chunker.Pieces.{Fits, split_by_tokens-Fits}
use agentic_dev_ops.Agents.Chunker.Total.{split_by_tokens-returns}
use agentic_dev_ops.Agents.Chunker.Ink.{ink, split_by_tokens-ink}
use agentic_dev_ops.Agents.Chunker.Diverges.{split_by_tokens_diverges}
use agentic_dev_ops.Agents.Chunker.Hybrid.{
  HybridChunker, Chunk, chunk, strategy_for, pieces_for, cap_pieces, to_chunks, split_by_paragraph,
  split_breaks, break_length, strip_all, cons_head,
}
use agentic_dev_ops.Agents.Chunker.Hybrid.Sizes.{IsGood, chunk-IsGood}

abbrev words : Text
words = codes "ab cd ef"

words-pieces : split_by_tokens 9 words 1 0 ≡ some (codes "ab" ∷ codes " cd" ∷ codes " ef" ∷ [])
unfolding split_by_tokens split_loop is_blank strip lstrip rstrip rstrip_cons cut_end break_at
    next_start add_piece is_space last_space
words-pieces = refl

split_by_tokens-Fits_example : All (Fits 4) (codes "ab" ∷ codes " cd" ∷ codes " ef" ∷ [])
split_by_tokens-Fits_example = split_by_tokens-Fits 9 words 1 0 words-pieces

split_by_tokens-ink_example : ink (concat (codes "ab" ∷ codes " cd" ∷ codes " ef" ∷ [])) ≡ ink words
split_by_tokens-ink_example = split_by_tokens-ink 9 words 1 (omega arith) words-pieces

split_by_tokens-returns_example :
    (pieces : List Text) × (split_by_tokens (suc (length words)) words 1 0 ≡ some pieces)
split_by_tokens-returns_example = split_by_tokens-returns words 1 0 (inl (omega arith, refl))

bare : (t : Text) → all (λ c. not (nat_beq c 32)) t ≡ true → All (λ c. c ≢ 32) t
bare [] h = tt
bare (c ∷ t) h = (ground arith, bare t (ground arith))

abbrev long_word : Text
long_word = codes "bbbbbbbbbbbbbbbb"

split_by_tokens_diverges_example :
    split_by_tokens 1000 (codes "aaaaaa" ++ 32 ∷ (long_word ++ codes " cc")) 4 1 ≡ none
split_by_tokens_diverges_example =
    split_by_tokens_diverges (codes "aaaaaa") long_word (codes " cc") 4 1 (bare long_word refl)
      (omega arith) (omega arith) (omega arith) (omega arith)
      (unfold is_blank strip lstrip rstrip rstrip_cons is_space in refl) 1000

abbrev paragraphs : Text
paragraphs = codes "one" ++ 10 ∷ 10 ∷ codes "two"

abbrev chunker : HybridChunker
chunker = record { max_tokens = 8; overlap_tokens = 0; primary = none }

abbrev paragraph_chunks : List Chunk
paragraph_chunks =
    record { content = codes "one"; token_count = 1; strategy = "paragraph" }
    ∷ record { content = codes "two"; token_count = 1; strategy = "paragraph" }
    ∷ []

paragraphs-chunks : chunk 1 chunker paragraphs "txt" ≡ some paragraph_chunks
unfolding chunk strategy_for pieces_for cap_pieces to_chunks split_by_paragraph split_breaks
    break_length strip_all cons_head is_blank strip lstrip rstrip rstrip_cons count_tokens is_space
paragraphs-chunks = refl

chunk-IsGood_example : All (IsGood 8) paragraph_chunks
chunk-IsGood_example = chunk-IsGood 1 chunker paragraphs "txt" paragraphs-chunks

abbrev headed : Text
headed = codes "intro" ++ 10 ∷ codes "# title" ++ 10 ∷ codes "text"

is_full : {A : Type 0} (xs : List A) → is_nil xs ≡ false → xs ≢ []
is_full [] h n = absurd (cc)
is_full (x ∷ xs) h n = cc

abbrev coded : Text
coded = codes "import os" ++ 10 ∷ codes "def f():" ++ 10 ∷ codes "  pass"

abbrev grep_skill : Skill
grep_skill = record {
  name = codes "grep";
  description = codes "search";
  input_schema = codes "{}";
  is_async = true;
}

-- The model asks for one skill after the other.
abbrev asking : List Message → Option LlmResponse
asking messages = some (record {
  content = codes "";
  end_turn = false;
  tool_uses = record { id = codes "t1"; name = codes "grep"; input = codes "{}" } ∷ [];
})

abbrev answering : ToolUse → CallEnd
answering tu = output (codes "no match")

abbrev audits : ToolUse → Bool
audits tu = true

abbrev no_findings : Text → Option (List Text)
no_findings t = some []

review_all-EndsWithin_example :
    EndsWithin asking answering audits no_findings 10
      (user_prompt (codes "review") ∷ [])
      (review_all asking answering audits no_findings 10 (codes "review")).1
review_all-EndsWithin_example =
    review_all-EndsWithin asking answering audits no_findings 10 (codes "review")

abbrev two_uses : List ToolUse
two_uses =
    record { id = codes "t1"; name = codes "grep"; input = codes "{}" }
    ∷ record { id = codes "t2"; name = codes "read"; input = codes "{}" }
    ∷ []
