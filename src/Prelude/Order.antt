-- ===== src/Prelude/Order.antt =====
-- Python's order on texts, and `sorted` for keys that differ.
use mathlib.Core.Bool.{Bool, true, false, ◌&&◌, ◌||◌}
use mathlib.Core.List.{List, [], ◌∷◌}
use agentic_dev_ops.Prelude.Tests.{ltb, nat_beq, if◌then◌else◌}
use agentic_dev_ops.Prelude.Text.{Text}

-- Texts in the order of Python's `<`.
unfoldable pub text_lt : Text → Text → Bool
text_lt s [] = false
text_lt [] (y ∷ ys) = true
text_lt (x ∷ xs) (y ∷ ys) = ltb x y || nat_beq x y && text_lt xs ys

module _ {A : Type 0} (lt : A → A → Bool) where
  unfoldable pub insert_by : A → List A → List A
  insert_by a [] = a ∷ []
  insert_by a (b ∷ bs) = if lt b a then b ∷ insert_by a bs else a ∷ b ∷ bs

  unfoldable pub sort_by : List A → List A
  unfolding insert_by
  sort_by [] = []
  sort_by (a ∷ xs) = insert_by a (sort_by xs)
