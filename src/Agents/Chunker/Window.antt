-- ===== src/Agents/Chunker/Window.antt =====
-- Where a window of the text is cut.
use agentic_dev_ops.Prelude.{
  ℕ, ◌+◌, ◌-◌, ◌≤◌, ◌<◌, min, ◌≡◌, refl, ◌≢◌, inl, inr, Option-cases, none, some, [], ◌∷◌, length,
  drop, length-take, arith, All,
}
use agentic_dev_ops.Prelude.Text.{Text}
use agentic_dev_ops.Agents.Chunker.{last_space, slice, break_at, cut_end}

pub last_space-lt : (w : Text) (j : ℕ) → last_space w ≡ some j → j < length w
unfolding last_space
last_space-lt [] j h = ground arith
last_space-lt (c ∷ s) j h = elim (Option-cases (last_space s)) [
  | inl e ↦ ground arith
  | inr (k, e) ↦ ground (arith, last_space-lt s k)
]

pub length-slice-le : (text : Text) (i j : ℕ) → length (slice text i j) ≤ j - i
length-slice-le text i j = omega (arith, length-take (j - i) (drop i text))

break_at-le :
    (i end : ℕ) (w : Text) → length w ≤ end - i → i ≤ end → break_at i end (last_space w) ≤ end
unfolding break_at
break_at-le i end w h k = elim (Option-cases (last_space w)) [
  | inl e ↦ ground arith
  | inr (j, e) ↦ ground (arith, last_space-lt w j)
]

-- A piece is not longer than the budget and ends in the text.
pub cut_end-le :
    (text : Text) (char_budget i : ℕ)
    → (cut_end text char_budget i ≤ i + char_budget) × (cut_end text char_budget i ≤ length text)
unfolding cut_end
cut_end-le text char_budget i =
    let end = min (i + char_budget) (length text) in
    let w = slice text i end in ground (arith, break_at-le i end w, length-slice-le text i end)

-- With a positive budget a piece that starts in the text is not empty.
pub cut_end-gt :
    (text : Text) (char_budget i : ℕ)
    → 0 < char_budget
    → i < length text
    → i < cut_end text char_budget i
unfolding cut_end break_at
cut_end-gt text char_budget i h k = ground arith

-- A window with no space has no last space.
pub last_space-none : (w : Text) → All (λ c. c ≢ 32) w → last_space w ≡ none
unfolding last_space
last_space-none [] h = refl
last_space-none (c ∷ s) h = let e = last_space-none s h.1 in let n = h.0 in rw e (ground arith)
