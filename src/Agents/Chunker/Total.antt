-- ===== src/Agents/Chunker/Total.antt =====
-- When the loop of `split_by_tokens` ends.
use agentic_dev_ops.Prelude.{
  ℕ, zero, suc, ◌+◌, ◌-◌, ◌*◌, ◌<◌, min, ◌≡◌, ◌≢◌, inl, inr, ◌⊎◌, All-drop, true, false, some, List,
  [], ◌∷◌, length, arith, All, All-take, Bool-cases, leb, ltb, drop,
}
use agentic_dev_ops.Prelude.Text.{Text}
use agentic_dev_ops.Agents.Chunker.{
  is_blank, slice, break_at, cut_end, next_start, add_piece, split_loop, split_by_tokens,
}
use agentic_dev_ops.Agents.Chunker.Window.{last_space-none, cut_end-gt}

-- Each cut that is not the last lies more than the overlap behind the start of its piece.
abbrev pub Advances : Text → ℕ → ℕ → Type 0
Advances text char_budget overlap_chars =
    (i : ℕ)
    → i < length text
    → cut_end text char_budget i < length text
    → i + overlap_chars < cut_end text char_budget i

next_start-gt :
    (overlap_chars i end : ℕ) → i + overlap_chars < end → i < next_start overlap_chars end
unfolding next_start
next_start-gt overlap_chars i end h = ground arith

pub split_loop-returns :
    (text : Text) (char_budget overlap_chars : ℕ)
    → Advances text char_budget overlap_chars
    → (fuel i : ℕ) (out : List Text) → length text - i < fuel
    → (pieces : List Text) × (split_loop text char_budget overlap_chars fuel i out ≡ some pieces)
unfolding split_loop
split_loop-returns text char_budget overlap_chars adv zero i out h = elim h [ ]
split_loop-returns text char_budget overlap_chars adv (suc fuel) i out h =
    let end = cut_end text char_budget i in
    let out' = add_piece (slice text i end) out in
    elim (Bool-cases (ltb i (length text))) [
      | inl p ↦ elim (Bool-cases (leb (length text) end)) [
        | inl q ↦ (out', rw (p, q))
        | inr q ↦
            rw (p, q)
              (split_loop-returns text char_budget overlap_chars adv fuel
                (next_start overlap_chars end) out' (closer p q))
      ]
      | inr p ↦ (out, rw p)
    ]
  where
    closer :
        ltb i (length text) ≡ true
        → leb (length text) (cut_end text char_budget i) ≡ false
        → length text - next_start overlap_chars (cut_end text char_budget i) < fuel
    closer p q =
        let end = cut_end text char_budget i in
        let inside : i < length text = ground arith in
        let short : end < length text = ground arith in
        omega (arith, next_start-gt overlap_chars i end (adv i inside short))

-- With no overlap and a positive budget every cut advances.
pub Advances-zero : (text : Text) (char_budget : ℕ) → 0 < char_budget → Advances text char_budget 0
Advances-zero text char_budget h i k _ = omega (arith, cut_end-gt text char_budget i h k)

-- In a text with no space every cut uses the whole budget.
pub Advances-unbroken :
    (text : Text) (char_budget overlap_chars : ℕ)
    → All (λ c. c ≢ 32) text
    → overlap_chars < char_budget
    → Advances text char_budget overlap_chars
unfolding cut_end break_at
Advances-unbroken text char_budget overlap_chars h k i inside short =
    let end = min (i + char_budget) (length text) in
    let dropped = All-drop (λ c. c ≢ 32) i text h in
    let bare =
      last_space-none (slice text i end) (All-take (λ c. c ≢ 32) (end - i) (drop i text) dropped) in
    ground (arith, bare)

-- `split_by_tokens` returns, with one more step of fuel than the text is long, if there is no overlap
-- and the budget is positive, or if the text has no space and the overlap is below the budget.
pub split_by_tokens-returns :
    (text : Text) (max_tokens overlap : ℕ)
    → (0 < max_tokens) × (overlap ≡ 0) ⊎ All (λ c. c ≢ 32) text × (overlap < max_tokens)
    → (pieces : List Text) × (split_by_tokens (suc (length text)) text max_tokens overlap
        ≡ some pieces)
unfolding split_by_tokens
split_by_tokens-returns text max_tokens overlap h = elim (Bool-cases (is_blank text)) [
  | inl p ↦ ([], rw p)
  | inr p ↦ elim (Bool-cases (leb (length text) (max_tokens * 4))) [
    | inl q ↦ (text ∷ [], rw (p, q))
    | inr q ↦
        rw (p, q)
          (split_loop-returns text (max_tokens * 4) (overlap * 4) (advances h) (suc (length text)) 0
            [] (omega arith))
  ]
]
  where
    advances :
        (0 < max_tokens) × (overlap ≡ 0) ⊎ All (λ c. c ≢ 32) text × (overlap < max_tokens)
        → Advances text (max_tokens * 4) (overlap * 4)
    advances (inl (pos, e)) =
        let z : overlap * 4 ≡ 0 = omega arith in
        rw z (Advances-zero text (max_tokens * 4) (omega arith))
    advances (inr (bare, lt)) =
        Advances-unbroken text (max_tokens * 4) (overlap * 4) bare (omega arith)
