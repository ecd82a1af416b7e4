-- ===== src/Float.antt =====
-- Python's `float`: its operations and what IEEE 754 and the language's documentation say of them.
-- The laws hold of every double, also of NaN and the infinities: an order is stated by what is not
-- below what, and NaN is below nothing.
pub mod Fixed
use agentic_dev_ops.Prelude.{ℕ, suc, ◌≡◌, Bool, true, false, if◌then◌else◌}

pub record Float : Type 1 where
  pub F : Type 0
  -- The literal `digits` with that many digits behind the point.
  pub lit : (digits places : ℕ) → F
  pub add : F → F → F
  pub sub : F → F → F
  pub mul : F → F → F
  pub div : F → F → F
  pub round : F → ℕ → F
  -- `a < b` and `a <= b`
  pub lt : F → F → Bool
  pub le : F → F → Bool
  pub lt_asym : (a b : F) → lt a b ≡ true → lt b a ≡ false
  pub lt_le : (a b : F) → lt a b ≡ true → le a b ≡ true
  pub le_trans : (a b c : F) → le a b ≡ true → le b c ≡ true → le a c ≡ true
  pub lit_nonneg : (digits places : ℕ) → lt (lit digits places) (lit 0 1) ≡ false
  pub add_nonneg :
      (a b : F) → lt a (lit 0 1) ≡ false → lt b (lit 0 1) ≡ false → lt (add a b) (lit 0 1) ≡ false
  pub mul_nonneg :
      (a b : F) → lt a (lit 0 1) ≡ false → lt b (lit 0 1) ≡ false → lt (mul a b) (lit 0 1) ≡ false
  pub sub_le : (a b : F) → lt b (lit 0 1) ≡ false → lt a (sub a b) ≡ false
  pub round_mono : (a b : F) (n : ℕ) → lt b a ≡ false → lt (round b n) (round a n) ≡ false
  -- A literal with few enough places is its own rounding.
  pub round_lit : (digits n : ℕ) → round (lit digits 1) (suc n) ≡ lit digits 1

module _ (fl : Float) where
  open fl use {F, lt}

  -- `max(a, b)` and `min(a, b)`: the first argument, unless the second is beyond it.
  unfoldable pub fmax : F → F → F
  fmax a b = if lt a b then b else a

  unfoldable pub fmin : F → F → F
  fmin a b = if lt b a then b else a
