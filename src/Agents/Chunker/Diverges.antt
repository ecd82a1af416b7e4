-- ===== src/Agents/Chunker/Diverges.antt =====
-- Inputs on which the loop of `split_by_tokens` never ends: a space, and behind it a stretch with
-- no space that fills the rest of the window. The next piece then starts `overlap_chars` before the
-- space, is cut at the same space, and so on.
use agentic_dev_ops.Prelude.{
  ℕ, zero, suc, ◌+◌, ◌-◌, ◌*◌, ◌≤◌, ◌<◌, min, ◌≡◌, refl, ◌≢◌, false, none, some, List, [], ◌∷◌,
  ◌++◌, length, arith, All, All-take, take-append, leb, take, drop, drop-append, length-append,
  length-drop,
}
use agentic_dev_ops.Prelude.Text.{Text}
use agentic_dev_ops.Agents.Chunker.{
  is_blank, slice, last_space, break_at, cut_end, next_start, add_piece, split_loop,
  split_by_tokens,
}
use agentic_dev_ops.Agents.Chunker.Window.{last_space-none}

-- The window ends behind the space and within the stretch `c`.
last_space-take :
    (m : ℕ) (a c d : Text)
    → length a < m
    → m ≤ length a + 1 + length c
    → All (λ x. x ≢ 32) c
    → last_space (take m (a ++ 32 ∷ (c ++ d))) ≡ some (length a)
unfolding last_space
last_space-take zero a c d h k bare = elim h [ ]
last_space-take (suc m) [] c d h k bare =
    let e =
      last_space-none (take m (c ++ d))
        (rw (take-append m c d (omega arith)) (All-take (λ x. x ≢ 32) m c bare)) in
    rw e refl
last_space-take (suc m) (x ∷ a) c d h k bare =
    rw (last_space-take m a c d (omega arith) (omega arith) bare) refl

module _ (a c d : Text) (char_budget overlap_chars : ℕ) (bare : All (λ x. x ≢ 32) c)
    (positive : 0 < overlap_chars) (behind : overlap_chars < length a)
    (first : length a < char_budget) (stretch : char_budget < overlap_chars + 1 + length c) where
  abbrev text : Text
  text = a ++ 32 ∷ (c ++ d)

  text-length : length text ≡ length a + 1 + length c + length d
  text-length = omega (arith, length-append {0} a (32 ∷ (c ++ d)), length-append {0} c d)

  -- From each start up to the overlap before the space, the piece ends at the space.
  cut_end-eq : (i : ℕ) → i ≤ length a - overlap_chars → cut_end text char_budget i ≡ length a
  unfolding cut_end break_at
  cut_end-eq i h =
      let end : min (i + char_budget) (length text) ≡ i + char_budget =
        omega (arith, text-length) in
      let win : drop i text ≡ drop i a ++ 32 ∷ (c ++ d) =
        drop-append i a (32 ∷ (c ++ d)) (omega arith) in
      let last =
        last_space-take (i + char_budget - i) (drop i a) c d (omega (arith, length-drop {0} i a))
          (omega (arith, length-drop {0} i a)) bare in
      rw (end, win, last) (ground (arith, length-drop {0} i a, text-length))

  next_start-eq : next_start overlap_chars (length a) ≡ length a - overlap_chars
  unfolding next_start
  next_start-eq = ground arith

  split_loop-stuck :
      (fuel i : ℕ) (out : List Text)
      → i ≤ length a - overlap_chars
      → split_loop text char_budget overlap_chars fuel i out ≡ none
  unfolding split_loop
  split_loop-stuck zero i out h = refl
  split_loop-stuck (suc fuel) i out h =
      let out' = add_piece (slice text i (length a)) out in
      let again = split_loop-stuck fuel (length a - overlap_chars) out' (omega arith) in
      rw (cut_end-eq i h, next_start-eq) (ground (arith, text-length, again))

-- `split_by_tokens` does not return, whatever the fuel, on a text `a`, a space, a stretch `c` with
-- no space and a rest `d`, if `a` is longer than the overlap and shorter than the budget, and `c`
-- reaches from the space to the end of the window that starts the overlap before it.
pub split_by_tokens_diverges :
    (a c d : Text) (max_tokens overlap : ℕ)
    → All (λ x. x ≢ 32) c
    → 0 < overlap
    → overlap * 4 < length a
    → length a < max_tokens * 4
    → max_tokens * 4 < overlap * 4 + 1 + length c
    → is_blank (a ++ 32 ∷ (c ++ d)) ≡ false
    → (fuel : ℕ) → split_by_tokens fuel (a ++ 32 ∷ (c ++ d)) max_tokens overlap ≡ none
unfolding split_by_tokens
split_by_tokens_diverges a c d max_tokens overlap bare pos behind first stretch ink fuel =
    let t = a ++ 32 ∷ (c ++ d) in
    let size =
      text-length a c d (max_tokens * 4) (overlap * 4) bare (omega arith) behind first stretch in
    let long : leb (length t) (max_tokens * 4) ≡ false = ground (arith, size) in
    rw (ink, long)
      (split_loop-stuck a c d (max_tokens * 4) (overlap * 4) bare (omega arith) behind first stretch
        fuel 0 [] (omega arith))
