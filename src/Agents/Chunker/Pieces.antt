-- ===== src/Agents/Chunker/Pieces.antt =====
-- What the pieces of `split_by_tokens` are.
use agentic_dev_ops.Prelude.{
  ℕ, zero, suc, ◌*◌, ◌≤◌, ◌≡◌, inl, inr, false, some, List, [], ◌∷◌, length, arith, All, All-append,
  OnSome, OnSome-elim, leb→le, Bool-cases, leb, ltb,
}
use agentic_dev_ops.Prelude.Text.{Text}
use agentic_dev_ops.Agents.Chunker.{
  is_blank, slice, cut_end, next_start, add_piece, split_loop, split_by_tokens,
}
use agentic_dev_ops.Agents.Chunker.Window.{length-slice-le, cut_end-le}

-- A piece holds more than white space and fits the budget.
abbrev pub Fits : ℕ → Text → Type 0
Fits char_budget p = (is_blank p ≡ false) × (length p ≤ char_budget)

add_piece-Fits :
    (char_budget : ℕ) (p : Text) (out : List Text)
    → length p ≤ char_budget
    → All (Fits char_budget) out
    → All (Fits char_budget) (add_piece p out)
unfolding add_piece
add_piece-Fits char_budget p out h k = elim (Bool-cases (is_blank p)) [
  | inl e ↦ rw e k
  | inr e ↦ rw e (All-append (Fits char_budget) out (p ∷ []) k ((e, h), tt))
]

split_loop-Fits :
    (text : Text) (char_budget overlap_chars fuel i : ℕ) (out : List Text)
    → All (Fits char_budget) out
    → OnSome (All (Fits char_budget)) (split_loop text char_budget overlap_chars fuel i out)
unfolding split_loop
split_loop-Fits text char_budget overlap_chars zero i out h = tt
split_loop-Fits text char_budget overlap_chars (suc fuel) i out h =
    let end = cut_end text char_budget i in
    let piece = slice text i end in
    let fits =
      add_piece-Fits char_budget piece out
        (omega (arith, length-slice-le text i end, (cut_end-le text char_budget i).0)) h in
    let rest =
      split_loop-Fits text char_budget overlap_chars fuel (next_start overlap_chars end) _ fits in
    elim (Bool-cases (ltb i (length text))) [
      | inl p ↦ elim (Bool-cases (leb (length text) end)) [
        | inl q ↦ rw (p, q) fits
        | inr q ↦ rw (p, q) rest
      ]
      | inr p ↦ rw p h
    ]

pub split_by_tokens-OnSome :
    (fuel : ℕ) (text : Text) (max_tokens overlap : ℕ)
    → OnSome (All (Fits (max_tokens * 4))) (split_by_tokens fuel text max_tokens overlap)
unfolding split_by_tokens
split_by_tokens-OnSome fuel text max_tokens overlap = elim (Bool-cases (is_blank text)) [
  | inl p ↦ rw p tt
  | inr p ↦ elim (Bool-cases (leb (length text) (max_tokens * 4))) [
    | inl q ↦ rw (p, q) ((p, leb→le _ _ q), tt)
    | inr q ↦ rw (p, q) (split_loop-Fits text (max_tokens * 4) (overlap * 4) fuel 0 [] tt)
  ]
]

-- Every piece that `split_by_tokens` returns holds more than white space, and a text that is cut
-- at all is cut into pieces of at most four characters for each of the `max_tokens`.
pub split_by_tokens-Fits :
    (fuel : ℕ) (text : Text) (max_tokens overlap : ℕ) {pieces : List Text}
    → split_by_tokens fuel text max_tokens overlap ≡ some pieces
    → All (Fits (max_tokens * 4)) pieces
split_by_tokens-Fits fuel text max_tokens overlap e =
    OnSome-elim (All (Fits (max_tokens * 4))) e
      (split_by_tokens-OnSome fuel text max_tokens overlap)
