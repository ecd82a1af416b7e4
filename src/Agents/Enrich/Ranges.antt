-- ===== src/Agents/Enrich/Ranges.antt =====
-- What a completed finding holds.
use agentic_dev_ops.Prelude.{ℕ, ◌≡◌, ◌≤◌, sym, ap, false, Bool-cases, inl, inr, Option, some, arith}
use agentic_dev_ops.Prelude.Int.{ℤ, pos, negsuc}
use agentic_dev_ops.Float.{Float, fmax, fmin}
use agentic_dev_ops.Agents.Enrich.{
  Value, int, float, RawFinding, Builtins, Context, Converted, converted, refused, overflow,
  at_least, end_from, lines_from, lines_of, confidence_from, confidence_of, completed,
  enrich_finding,
}

some_inj : {A : Type 0} {x y : A} → some x ≡ some y → x ≡ y
some_inj e = cc

at_least-le : (low : ℕ) (z : ℤ) → low ≤ at_least low z
at_least-le low (pos n) = omega arith
at_least-le low (negsuc n) = omega arith

module _ (fl : Float) where
  open fl use {F, lit, lt, lt_asym, lit_nonneg}

  irreflexive : (a : F) → lt a a ≡ false
  irreflexive a = elim (Bool-cases (lt a a)) [ inl h ↦ lt_asym a a h | inr h ↦ h ]

  -- Neither below 0.0 nor above 1.0.
  abbrev pub InUnit : F → Type 0
  InUnit x = (lt x (lit 0 1) ≡ false) × (lt (lit 10 1) x ≡ false)

  fmin-le : (x : F) → lt (lit 10 1) (fmin fl (lit 10 1) x) ≡ false
  unfolding fmin
  fmin-le x = elim (Bool-cases (lt x (lit 10 1))) [
    | inl h ↦ rw h (lt_asym x (lit 10 1) h)
    | inr h ↦ rw h (irreflexive (lit 10 1))
  ]

  clamp-InUnit : (y : F) → lt (lit 10 1) y ≡ false → InUnit (fmax fl (lit 0 1) y)
  unfolding fmax
  clamp-InUnit y top = elim (Bool-cases (lt (lit 0 1) y)) [
    | inl h ↦ rw h (lt_asym (lit 0 1) y h, top)
    | inr h ↦ rw h (irreflexive (lit 0 1), lit_nonneg 10 1)
  ]

  abbrev OnConverted : {A : Type 0} → (A → Type 0) → Converted A → Type 0
  OnConverted P (converted a) = P a
  OnConverted P refused = Unit
  OnConverted P overflow = Unit

  module _ (py : Builtins fl) (seven : lt (lit 10 1) (lit 7 1) ≡ false) where
    confidence_from-InUnit : (c : Converted F) → OnConverted InUnit (confidence_from fl py c)
    unfolding confidence_from
    confidence_from-InUnit (converted x) = clamp-InUnit (fmin fl (lit 10 1) x) (fmin-le x)
    confidence_from-InUnit refused = (lit_nonneg 7 1, seven)
    confidence_from-InUnit overflow = tt

    -- Lines that are numbered from 1 and in order.
    abbrev pub Ordered : ℕ × ℕ → Type 0
    Ordered (start, end) = (1 ≤ start) × (start ≤ end)

    end_from-Ordered :
        (start : ℕ) (c : Converted ℤ) → 1 ≤ start → OnConverted Ordered (end_from fl py start c)
    unfolding end_from
    end_from-Ordered start (converted e) h = (h, at_least-le start e)
    end_from-Ordered start refused h = (omega arith, omega arith)
    end_from-Ordered start overflow h = tt

    lines_from-Ordered :
        (last : Option (Value F)) (c : Converted ℤ) → OnConverted Ordered (lines_from fl py last c)
    unfolding lines_from
    lines_from-Ordered last (converted s) = end_from-Ordered (at_least 1 s) _ (at_least-le 1 s)
    lines_from-Ordered last refused = (omega arith, omega arith)
    lines_from-Ordered last overflow = tt

    -- The lines and the confidence of a finding are numbers, in their ranges.
    abbrev pub InRange : RawFinding F → Type 0
    InRange g =
        (start : ℕ) × (end : ℕ) × (conf : F) × (g.start_line ≡ some (int (pos start)))
        × (g.end_line ≡ some (int (pos end)))
        × (g.confidence ≡ some (float conf))
        × (1 ≤ start)
        × (start ≤ end)
        × InUnit conf

    completed-InRange :
        (cx : Context) (f g : RawFinding F) (lines : Converted (ℕ × ℕ)) (conf : Converted F)
        → OnConverted Ordered lines
        → OnConverted InUnit conf
        → completed fl py cx f lines conf ≡ some g
        → InRange g
    unfolding completed
    completed-InRange cx f g (converted (start, end)) (converted conf) ordered unit e =
        let same = some_inj e in
        (
          start,
          end,
          conf,
          sym (ap (λ h. h.start_line) same),
          sym (ap (λ h. h.end_line) same),
          sym (ap (λ h. h.confidence) same),
          ordered.0,
          ordered.1,
          unit,
        )
    completed-InRange cx f g (converted lines) refused ordered unit e = absurd (cc)
    completed-InRange cx f g (converted lines) overflow ordered unit e = absurd (cc)
    completed-InRange cx f g refused conf ordered unit e = absurd (cc)
    completed-InRange cx f g overflow conf ordered unit e = absurd (cc)

    -- Whatever the model wrote for the lines and the confidence of a finding, a finding that is
    -- completed has lines of at least 1, the last not before the first, and a confidence that is
    -- neither below 0 nor above 1. Of the floats, only that 1.0 is not below 0.7 is asked for.
    pub enrich_finding-InRange :
        (cx : Context) (f g : RawFinding F) → enrich_finding fl py cx f ≡ some g → InRange g
    unfolding enrich_finding lines_of confidence_of
    enrich_finding-InRange cx f g e =
        completed-InRange cx f g (lines_of fl py f) (confidence_of fl py f)
          (lines_from-Ordered f.end_line _) (confidence_from-InUnit _) e
