-- ===== src/Agents/Chunker/Hybrid/Sizes.antt =====
-- The chunks of `HybridChunker.chunk` fit the model that reads them.
use agentic_dev_ops.Prelude.{
  ℕ, ◌*◌, ◌≤◌, max, ◌≡◌, refl, false, inl, inr, Option, none, some, List, [], ◌∷◌, ◌++◌, String,
  ltb, All, All-append, All-map, OnSome, OnSome-elim, Bool-cases, arith,
}
use agentic_dev_ops.Prelude.Text.{Text}
use agentic_dev_ops.Agents.Chunker.{is_blank, count_tokens, split_by_tokens}
use agentic_dev_ops.Agents.Chunker.Pieces.{Fits, split_by_tokens-OnSome}
use agentic_dev_ops.Agents.Chunker.Hybrid.{
  HybridChunker, Chunk, ChunkStrategy, strategy_for, pieces_for, cap_pieces, to_chunks, chunk,
  ◌>>=◌,
}

abbrev Small : ℕ → Text → Type 0
Small max_tokens p = count_tokens p ≤ max 1 max_tokens

Fits→Small : (max_tokens : ℕ) (p : Text) → Fits (max_tokens * 4) p → Small max_tokens p
unfolding count_tokens
Fits→Small max_tokens p h = omega (arith, h.1)

cap_pieces-Small :
    (fuel : ℕ) (chunker : HybridChunker) (ps : List Text)
    → OnSome (All (Small chunker.max_tokens)) (cap_pieces fuel chunker ps)
unfolding cap_pieces
cap_pieces-Small fuel chunker [] = tt
cap_pieces-Small fuel chunker (p ∷ ps) =
    elim (Bool-cases (ltb chunker.max_tokens (count_tokens p))) [
      | inl e ↦ rw e (
          cut (split_by_tokens fuel p chunker.max_tokens chunker.overlap_tokens)
            (split_by_tokens-OnSome fuel p chunker.max_tokens chunker.overlap_tokens)
            (cap_pieces fuel chunker ps) (cap_pieces-Small fuel chunker ps))
      | inr e ↦
          rw e
            (whole (cap_pieces fuel chunker ps) (ground arith) (cap_pieces-Small fuel chunker ps))
    ]
  where
    cut :
        (c : Option (List Text))
        → OnSome (All (Fits (chunker.max_tokens * 4))) c
        → (r : Option (List Text)) → OnSome (All (Small chunker.max_tokens)) r
        → OnSome (All (Small chunker.max_tokens)) (c >>= λ x. r >>= λ y. some (x ++ y))
    cut none h r k = tt
    cut (some x) h none k = tt
    cut (some x) h (some y) k =
        All-append (Small chunker.max_tokens) x y
          (All-map (Fits (chunker.max_tokens * 4)) (Small chunker.max_tokens) x
            (Fits→Small chunker.max_tokens) h)
          k

    whole :
        (r : Option (List Text))
        → Small chunker.max_tokens p
        → OnSome (All (Small chunker.max_tokens)) r
        → OnSome (All (Small chunker.max_tokens)) (r >>= λ y. some (p ∷ y))
    whole none s k = tt
    whole (some y) s k = (s, k)

-- A chunk is not blank, carries the size of its content, and is within the limit.
abbrev pub IsGood : ℕ → Chunk → Type 0
IsGood max_tokens c =
    (is_blank c.content ≡ false)
    × (c.token_count ≡ count_tokens c.content)
    × (c.token_count ≤ max 1 max_tokens)

to_chunks-IsGood :
    (max_tokens : ℕ) (strategy : ChunkStrategy) (ps : List Text)
    → All (Small max_tokens) ps
    → All (IsGood max_tokens) (to_chunks strategy ps)
unfolding to_chunks
to_chunks-IsGood max_tokens strategy [] h = tt
to_chunks-IsGood max_tokens strategy (p ∷ ps) h = elim (Bool-cases (is_blank p)) [
  | inl e ↦ rw e (to_chunks-IsGood max_tokens strategy ps h.1)
  | inr e ↦ rw e ((e, refl, h.0), to_chunks-IsGood max_tokens strategy ps h.1)
]

chunk-OnSome :
    (fuel : ℕ) (chunker : HybridChunker) (text : Text) (file_type : String)
    → OnSome (All (IsGood chunker.max_tokens)) (chunk fuel chunker text file_type)
unfolding chunk
chunk-OnSome fuel chunker text file_type = elim (Bool-cases (is_blank text)) [
  | inl e ↦ rw e tt
  | inr e ↦ rw e (go (pieces_for fuel chunker (strategy_for chunker file_type) text))
]
  where
    fine :
        (o : Option (List Text))
        → OnSome (All (Small chunker.max_tokens)) o
        → OnSome
            (All (IsGood chunker.max_tokens))
            (o >>= λ out. some (to_chunks (strategy_for chunker file_type) out))
    fine none h = tt
    fine (some out) h = to_chunks-IsGood chunker.max_tokens (strategy_for chunker file_type) out h

    go :
        (o : Option (List Text))
        → OnSome (All (IsGood chunker.max_tokens)) (
            o >>= λ pieces. cap_pieces fuel chunker pieces >>= λ out.
            some (to_chunks (strategy_for chunker file_type) out))
    go none = tt
    go (some pieces) = fine (cap_pieces fuel chunker pieces) (cap_pieces-Small fuel chunker pieces)

-- Every chunk that `HybridChunker.chunk` returns holds more than white space, has the token count
-- of its content, and counts at most `max_tokens` tokens (or one, if that is 0).
pub chunk-IsGood :
    (fuel : ℕ) (chunker : HybridChunker) (text : Text) (file_type : String) {chunks : List Chunk}
    → chunk fuel chunker text file_type ≡ some chunks
    → All (IsGood chunker.max_tokens) chunks
chunk-IsGood fuel chunker text file_type e =
    OnSome-elim (All (IsGood chunker.max_tokens)) e (chunk-OnSome fuel chunker text file_type)
