-- ===== src/Agents/Chunker/Ink.antt =====
-- What `split_by_tokens` keeps of a text: with no overlap, every character but white space.
use agentic_dev_ops.Prelude.{
  ℕ, zero, suc, ◌+◌, ◌-◌, ◌*◌, ◌≤◌, ◌<◌, ◌≡◌, refl, sym, ap, ◌∙◌, inl, inr, true, not, some, List,
  [], ◌∷◌, ◌++◌, length, arith, Bool-cases, leb, ltb, leb→le, ltb→lt, keep, drop, take-append-drop,
  drop-drop, drop-length, OnSome, OnSome-elim, OnSome-map, is_nil, concat, concat-append,
}
use agentic_dev_ops.Prelude.Text.{Text, is_space, strip, lstrip, rstrip_cons, rstrip}
use agentic_dev_ops.Agents.Chunker.{
  is_blank, slice, cut_end, next_start, add_piece, split_loop, split_by_tokens,
}
use agentic_dev_ops.Agents.Chunker.Window.{cut_end-gt}
use mathlib.Core.List.{append_assoc, append-nil}

-- The characters that are no white space, in their order.
abbrev pub ink : Text → Text
ink = keep (λ c. not (is_space c))

pub ink-append : (s t : Text) → ink (s ++ t) ≡ ink s ++ ink t
ink-append [] t = refl
ink-append (c ∷ s) t = elim (Bool-cases (is_space c)) [
  | inl e ↦ rw e (ink-append s t)
  | inr e ↦ rw e (ap (λ l. c ∷ l) (ink-append s t))
]

ink-lstrip : (s : Text) → ink (lstrip s) ≡ ink s
unfolding lstrip
ink-lstrip [] = refl
ink-lstrip (c ∷ s) = elim (Bool-cases (is_space c)) [
  | inl e ↦ rw e (ink-lstrip s)
  | inr e ↦ rw e (rw e refl)
]

ink-rstrip_cons : (c : ℕ) (r : Text) → ink (rstrip_cons c r) ≡ ink (c ∷ r)
unfolding rstrip_cons
ink-rstrip_cons c [] = ground arith
ink-rstrip_cons c (d ∷ r) = refl

pub ink-rstrip : (s : Text) → ink (rstrip s) ≡ ink s
unfolding rstrip
ink-rstrip [] = refl
ink-rstrip (c ∷ s) =
    ink-rstrip_cons c (rstrip s)
    ∙ ink-append (c ∷ []) (rstrip s)
    ∙ ap (λ l. ink (c ∷ []) ++ l) (ink-rstrip s)
    ∙ sym (ink-append (c ∷ []) s)

pub ink-strip : (s : Text) → ink (strip s) ≡ ink s
unfolding strip
ink-strip s = ink-rstrip (lstrip s) ∙ ink-lstrip s

is_nil→nil : (s : Text) → is_nil s ≡ true → s ≡ []
is_nil→nil [] h = refl
is_nil→nil (c ∷ s) h = absurd (cc)

-- A blank piece holds nothing but white space.
pub ink_of_blank : (p : Text) → is_blank p ≡ true → ink p ≡ []
unfolding is_blank
ink_of_blank p h = sym (ink-strip p) ∙ ap ink (is_nil→nil (strip p) h)

ink-concat-add_piece :
    (p : Text) (out : List Text) → ink (concat (add_piece p out)) ≡ ink (concat out) ++ ink p
unfolding add_piece
ink-concat-add_piece p out = elim (Bool-cases (is_blank p)) [
  | inl e ↦ rw (e, ink_of_blank p e) (sym (append-nil _))
  | inr e ↦ rw (e, concat-append out (p ∷ []), ink-append (concat out) (p ++ []), append-nil p)
]

slice-append-drop :
    (text : Text) (i end : ℕ) → i ≤ end → slice text i end ++ drop end text ≡ drop i text
slice-append-drop text i end h =
    let e : i + (end - i) ≡ end = omega arith in
    let d : drop (end - i) (drop i text) ≡ drop end text =
      drop-drop (end - i) i text ∙ ap (λ k. drop k text) e in
    ap (λ l. slice text i end ++ l) (sym d) ∙ take-append-drop (end - i) (drop i text)

next_start-zero : (end : ℕ) → next_start 0 end ≡ end
unfolding next_start
next_start-zero end = ground arith

module _ (text : Text) (char_budget : ℕ) (pos : 0 < char_budget) where
  abbrev Kept : ℕ → List Text → List Text → Type 0
  Kept i out pieces = ink (concat pieces) ≡ ink (concat out) ++ ink (drop i text)

  Kept-next :
      (i : ℕ) (out : List Text)
      → i < length text
      → (ps : List Text)
      → Kept
          (cut_end text char_budget i)
          (add_piece (slice text i (cut_end text char_budget i)) out)
          ps
      → Kept i out ps
  Kept-next i out h ps k =
      let end = cut_end text char_budget i in
      let piece = slice text i end in
      let whole =
        slice-append-drop text i end (omega (arith, cut_end-gt text char_budget i pos h)) in
      k
      ∙ ap (λ l. l ++ ink (drop end text)) (ink-concat-add_piece piece out)
      ∙ append_assoc (ink (concat out)) (ink piece) (ink (drop end text))
      ∙ ap (λ l. ink (concat out) ++ l) (sym (ink-append piece (drop end text)) ∙ ap ink whole)

  Kept-done : (i : ℕ) (out : List Text) → length text ≤ i → Kept i out out
  Kept-done i out h = rw (drop-length i text h) (sym (append-nil _))

  split_loop-Kept :
      (fuel i : ℕ) (out : List Text)
      → OnSome (Kept i out) (split_loop text char_budget 0 fuel i out)
  unfolding split_loop
  split_loop-Kept zero i out = tt
  split_loop-Kept (suc fuel) i out =
      let end = cut_end text char_budget i in
      let out' = add_piece (slice text i end) out in
      elim (Bool-cases (ltb i (length text))) [
        | inl p ↦ elim (Bool-cases (leb (length text) end)) [
          | inl q ↦
              rw (p, q) (Kept-next i out (ltb→lt _ _ p) out' (Kept-done end out' (leb→le _ _ q)))
          | inr q ↦
              rw (p, q)
                (OnSome-map (Kept end out') (Kept i out) _ (Kept-next i out (ltb→lt _ _ p))
                  (rw (next_start-zero end) (split_loop-Kept fuel end out')))
        ]
        | inr p ↦ rw p (Kept-done i out (ground arith))
      ]

split_by_tokens-OnSome :
    (fuel : ℕ) (text : Text) (max_tokens : ℕ)
    → 0 < max_tokens
    → OnSome (λ ps. ink (concat ps) ≡ ink text) (split_by_tokens fuel text max_tokens 0)
unfolding split_by_tokens
split_by_tokens-OnSome fuel text max_tokens h = elim (Bool-cases (is_blank text)) [
  | inl p ↦ rw p (sym (ink_of_blank text p))
  | inr p ↦ elim (Bool-cases (leb (length text) (max_tokens * 4))) [
    | inl q ↦ rw (p, q) (rw (append-nil text) refl)
    | inr q ↦ rw (p, q) (split_loop-Kept text (max_tokens * 4) (omega arith) fuel 0 [])
  ]
]

-- With no overlap the pieces of a text hold its characters in their order, but for white space:
-- nothing else is lost, repeated or moved.
pub split_by_tokens-ink :
    (fuel : ℕ) (text : Text) (max_tokens : ℕ) {pieces : List Text}
    → 0 < max_tokens
    → split_by_tokens fuel text max_tokens 0 ≡ some pieces
    → ink (concat pieces) ≡ ink text
split_by_tokens-ink fuel text max_tokens h e =
    OnSome-elim (λ ps. ink (concat ps) ≡ ink text) e (split_by_tokens-OnSome fuel text max_tokens h)
