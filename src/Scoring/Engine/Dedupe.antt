-- ===== src/Scoring/Engine/Dedupe.antt =====
-- Step 1 of the engine: which findings count.
use agentic_dev_ops.Prelude.{
  ℕ, ◌+◌, ◌≡◌, refl, sym, ap, subst, ◌∙◌, Bool, true, ◌||◌, inl, inr, Bool-cases, List, [], ◌∷◌,
  ◌++◌, map, any, keep, not, length, arith, All, All-map, ◌==◌,
}
use agentic_dev_ops.Prelude.Text.{Text}
use agentic_dev_ops.Float.{Float}
use agentic_dev_ops.Scoring.Engine.{
  Finding, Key, key_of, key_eq, key_beq_iff, dedupe, compute_score, score_unique, ScoreResult,
}

-- `k in seen`
abbrev pub known : Key → List Key → Bool
known k seen = any (λ j. j == k) seen

dedupe-length :
    {F : Type 0} (seen : List Key) (fs : List (Finding F))
    → length (dedupe seen fs).0 + (dedupe seen fs).1 ≡ length fs
unfolding dedupe
dedupe-length seen [] = refl
dedupe-length seen (f ∷ fs) = elim (Bool-cases (known (key_of f) seen)) [
  | inl e ↦ rw e (omega (arith, dedupe-length seen fs))
  | inr e ↦ rw e (omega (arith, dedupe-length (key_of f ∷ seen) fs))
]

module _ {F : Type 0} where
  -- A key that was seen, or that a finding of the list has.
  abbrev pub reached : List Key → List (Finding F) → Key → Bool
  reached seen fs k = known k seen || known k (map key_of fs)

  reached-known :
      (seen : List Key) (f : Finding F) (fs : List (Finding F)) (k : Key)
      → known (key_of f) seen ≡ true
      → reached seen (f ∷ fs) k ≡ true
      → reached seen fs k ≡ true
  reached-known seen f fs k e h = elim (Bool-cases (key_of f == k)) [
    | inl same ↦
        let s : key_of f ≡ k = (key_beq_iff (key_of f) k).0 same in
        let e' : known k seen ≡ true = rw s at e in rw e' refl
    | inr other ↦ ground (arith)
  ]

  reached-fresh :
      (seen : List Key) (f : Finding F) (fs : List (Finding F)) (k : Key)
      → reached seen (f ∷ fs) k ≡ true
      → reached (key_of f ∷ seen) fs k ≡ true
  reached-fresh seen f fs k h = ground arith

  dedupe-known :
      (seen : List Key) (ds : List (Finding F))
      → All (λ d. known (key_of d) seen ≡ true) ds
      → (dedupe seen ds).0 ≡ []
  unfolding dedupe
  dedupe-known seen [] h = refl
  dedupe-known seen (d ∷ ds) h = let e = h.0 in rw e (dedupe-known seen ds h.1)

  dedupe-append :
      (seen : List Key) (fs ds : List (Finding F))
      → All (λ d. reached seen fs (key_of d) ≡ true) ds
      → (dedupe seen (fs ++ ds)).0 ≡ (dedupe seen fs).0
  unfolding dedupe
  dedupe-append seen [] ds h = dedupe-known seen ds (
      All-map (λ d. reached seen [] (key_of d) ≡ true) (λ d. known (key_of d) seen ≡ true) ds
        (λ d k. ground arith) h)
  dedupe-append seen (f ∷ fs) ds h = elim (Bool-cases (known (key_of f) seen)) [
    | inl e ↦ rw e (
        dedupe-append seen fs ds (
          All-map (λ d. reached seen (f ∷ fs) (key_of d) ≡ true)
            (λ d. reached seen fs (key_of d) ≡ true) ds (λ d. reached-known seen f fs (key_of d) e)
            h))
    | inr e ↦ rw e (
        ap (λ l. f ∷ l)
          (dedupe-append (key_of f ∷ seen) fs ds (
            All-map (λ d. reached seen (f ∷ fs) (key_of d) ≡ true)
              (λ d. reached (key_of f ∷ seen) fs (key_of d) ≡ true) ds
              (λ d. reached-fresh seen f fs (key_of d)) h)))
  ]

-- The first finding of each key, by removing what repeats it from those behind it.
abbrev pub firsts : {F : Type 0} → List (Finding F) → List (Finding F)
firsts [] = []
firsts (f ∷ fs) = f ∷ keep (λ g. not (key_of f == key_of g)) (firsts fs)

unseen : {F : Type 0} → List Key → List (Finding F) → List (Finding F)
unseen seen = keep (λ g. not (known (key_of g) seen))

abbrev others : {F : Type 0} → Finding F → List (Finding F) → List (Finding F)
others f = keep (λ g. not (key_of f == key_of g))

-- What repeats a known key is unseen either way.
unseen-others :
    {F : Type 0} (seen : List Key) (f : Finding F) (gs : List (Finding F))
    → known (key_of f) seen ≡ true
    → unseen seen (others f gs) ≡ unseen seen gs
unfolding unseen
unseen-others seen f [] h = refl
unseen-others seen f (g ∷ gs) h =
    let ih = unseen-others seen f gs h in
    elim (Bool-cases (key_of f == key_of g)) [
      | inr e ↦ rw (e, ih) refl
      | inl e ↦
          let same : key_of f ≡ key_of g = (key_beq_iff (key_of f) (key_of g)).0 e in
          let g_known : known (key_of g) seen ≡ true = subst (λ k. known k seen ≡ true) same h in
          rw (e, g_known, ih) refl
    ]

unseen-cons :
    {F : Type 0} (seen : List Key) (f : Finding F) (gs : List (Finding F))
    → unseen seen (others f gs) ≡ unseen (key_of f ∷ seen) gs
unfolding unseen
unseen-cons seen f [] = refl
unseen-cons seen f (g ∷ gs) =
    let ih = unseen-cons seen f gs in
    elim (Bool-cases (key_of f == key_of g)) [ inl e ↦ rw (e, ih) refl | inr e ↦ rw (e, ih) refl ]

dedupe-firsts :
    {F : Type 0} (seen : List Key) (fs : List (Finding F))
    → (dedupe seen fs).0 ≡ unseen seen (firsts fs)
unfolding dedupe unseen
dedupe-firsts seen [] = refl
dedupe-firsts seen (f ∷ fs) = elim (Bool-cases (known (key_of f) seen)) [
  | inl e ↦ rw (e, dedupe-firsts seen fs) (sym (unseen-others seen f (firsts fs) e))
  | inr e ↦
      rw (e, dedupe-firsts (key_of f ∷ seen) fs)
        (ap (λ l. f ∷ l) (sym (unseen-cons seen f (firsts fs))))
]

unseen-all : {F : Type 0} (gs : List (Finding F)) → unseen [] gs ≡ gs
unfolding unseen
unseen-all [] = refl
unseen-all (g ∷ gs) = ap (λ l. g ∷ l) (unseen-all gs)

-- Deduplication keeps the first finding of each key, in their order, and with the number of
-- duplicates they are as many as were given.
pub dedupe_lem :
    {F : Type 0} (fs : List (Finding F))
    → ((dedupe [] fs).0 ≡ firsts fs) × (length (dedupe [] fs).0 + (dedupe [] fs).1 ≡ length fs)
dedupe_lem fs = (dedupe-firsts [] fs ∙ unseen-all (firsts fs), dedupe-length [] fs)

module _ (fl : Float) (lower : Text → Text) where
  -- All of a result but its limitations.
  abbrev pub SameScore : ScoreResult fl lower → ScoreResult fl lower → Type 0
  SameScore a b =
      (a.final_score ≡ b.final_score)
      × (a.grade ≡ b.grade)
      × (a.confidence ≡ b.confidence)
      × (a.deductions ≡ b.deductions)
      × (a.caps ≡ b.caps)

  score_unique-SameScore :
      (unique : List (Finding fl.F)) (m n : ℕ)
      → SameScore (score_unique fl lower unique m) (score_unique fl lower unique n)
  unfolding score_unique
  score_unique-SameScore unique m n = (refl, refl, refl, refl, refl)

  pub compute_score-cons :
      (f : Finding fl.F) (fs : List (Finding fl.F))
      → compute_score fl lower (f ∷ fs)
        ≡ score_unique fl lower (dedupe [] (f ∷ fs)).0 (dedupe [] (f ∷ fs)).1
  unfolding compute_score
  compute_score-cons f fs = refl

  -- Findings behind the others that repeat a key change nothing of the score but the limitations.
  pub compute_score-append_duplicates :
      (f : Finding fl.F) (fs ds : List (Finding fl.F))
      → All (λ d. known (key_of d) (map key_of (f ∷ fs)) ≡ true) ds
      → SameScore (compute_score fl lower (f ∷ (fs ++ ds))) (compute_score fl lower (f ∷ fs))
  compute_score-append_duplicates f fs ds h =
      let (unique, m) = dedupe [] (f ∷ fs) in
      let (same, n) = dedupe [] (f ∷ (fs ++ ds)) in
      let e : same ≡ unique = dedupe-append [] (f ∷ fs) ds h in
      rw (compute_score-cons f (fs ++ ds), compute_score-cons f fs)
        (subst (λ u. SameScore (score_unique fl lower u n) (score_unique fl lower unique m)) (sym e)
          (score_unique-SameScore unique n m))
