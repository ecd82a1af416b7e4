-- ===== src/Prelude/Text/Split.antt =====
-- Cutting texts: `str.splitlines`, `str.split` and `int`.
use Prim.Native.Nat.{ℕ, zero, suc, ◌+◌, ◌-◌, ◌*◌}
use mathlib.Core.Path.{◌≡◌, ◌∙◌, refl, ap}
use mathlib.Core.Bool.{Bool, true, false, ◌&&◌, ◌||◌, not}
use mathlib.Core.Option.{Option, none, some}
use mathlib.Core.List.{List, [], ◌∷◌, ◌++◌}
use mathlib.Core.Logic.{◌≢◌}
use native.Mathlib.Omega.{arith}
use agentic_dev_ops.Prelude.Tests.{nat_beq, leb, if◌then◌else◌}
use agentic_dev_ops.Prelude.Lists.{All}
use agentic_dev_ops.Prelude.Int.{ℤ, pos, sub_ℕ}
use agentic_dev_ops.Prelude.Text.{Text, strip}

-- Puts a character in front of the first text of a list.
abbrev pub cons_head : ℕ → List Text → List Text
cons_head c [] = (c ∷ []) ∷ []
cons_head c (p ∷ ps) = (c ∷ p) ∷ ps

abbrev pub prepend : Text → List Text → List Text
prepend [] ps = ps
prepend (c ∷ s) ps = cons_head c (prepend s ps)

-- The characters at which `splitlines` ends a line.
unfoldable pub is_break : ℕ → Bool
is_break c =
    leb 10 c && leb c 13
    || leb 28 c && leb c 30
    || nat_beq c 133
    || nat_beq c 8232
    || nat_beq c 8233

-- `after_cr` says that the last character was a carriage return, which takes a line feed with it.
unfoldable pub lines_from : Bool → Text → List Text
unfolding is_break
lines_from after_cr [] = []
lines_from after_cr (c ∷ s) =
    let rest = lines_from (nat_beq c 13) s in
    if after_cr && nat_beq c 10 then rest else if is_break c then [] ∷ rest else cons_head c rest

-- `s.splitlines()`
unfoldable pub splitlines : Text → List Text
unfolding lines_from
splitlines = lines_from false

-- `s.split(sep)`
unfoldable pub split_on : ℕ → Text → List Text
split_on sep [] = [] ∷ []
split_on sep (c ∷ s) =
    let rest = split_on sep s in if nat_beq c sep then [] ∷ rest else cons_head c rest

-- `s.split(sep, k)`
unfoldable pub split_max : ℕ → ℕ → Text → List Text
split_max sep k [] = [] ∷ []
split_max sep zero (c ∷ s) = (c ∷ s) ∷ []
split_max sep (suc k) (c ∷ s) =
    let here = [] ∷ split_max sep k s in
    let on = cons_head c (split_max sep (suc k) s) in if nat_beq c sep then here else on

-- The decimal digits of `int`; `fresh` says that a digit must come next. Digits beyond ASCII are
-- not read.
unfoldable pub digits_from : Bool → ℕ → Text → Option ℕ
digits_from fresh n [] = if fresh then none else some n
digits_from fresh n (c ∷ s) =
    let more = digits_from false (n * 10 + (c - 48)) s in
    let skip = digits_from true n s in
    if leb 48 c && leb c 57 then more else if nat_beq c 95 && not fresh then skip else none

unfoldable pub negate : ℕ → ℤ
negate n = sub_ℕ 0 n

unfoldable pub signed : Text → Option ℤ
unfolding digits_from negate
signed [] = none
signed (c ∷ s) =
    if nat_beq c 45
    then (elim (digits_from true 0 s) [ some n ↦ some (negate n) | none ↦ none ])
    else if nat_beq c 43
    then (elim (digits_from true 0 s) [ some n ↦ some (pos n) | none ↦ none ])
    else (elim (digits_from true 0 (c ∷ s)) [ some n ↦ some (pos n) | none ↦ none ])

-- `int(s)`; `none` is its `ValueError`.
unfoldable pub parse_int : Text → Option ℤ
unfolding signed strip
parse_int s = signed (strip s)

-- No character of the text ends a line.
abbrev pub OneLine : Text → Type 0
OneLine = All (λ c. is_break c ≡ false)

-- No character of the text is `sep`.
abbrev pub Lacks : ℕ → Text → Type 0
Lacks sep = All (λ c. c ≢ sep)

not_return : (c : ℕ) → is_break c ≡ false → nat_beq c 13 ≡ false
unfolding is_break
not_return c h = ground arith

lines_from-line : (l s : Text) → OneLine l → lines_from false (l ++ 10 ∷ s) ≡ l ∷ lines_from false s
unfolding lines_from
lines_from-line [] s h = refl
lines_from-line (c ∷ l) s h =
    let plain = h.0 in
    let flag : nat_beq c 13 ≡ false = not_return c h.0 in
    rw (flag, plain, lines_from-line l s h.1) refl

-- Lines that each end in a line feed, as git prints them.
abbrev pub unlines : List Text → Text
unlines [] = []
unlines (l ∷ ls) = l ++ 10 ∷ unlines ls

pub splitlines-unlines : (ls : List Text) → All OneLine ls → splitlines (unlines ls) ≡ ls
unfolding splitlines
splitlines-unlines [] h = unfold lines_from in refl
splitlines-unlines (l ∷ ls) h =
    lines_from-line l (unlines ls) h.0 ∙ ap (λ r. l ∷ r) (splitlines-unlines ls h.1)

pub split_max-part :
    (sep k : ℕ) (p s : Text)
    → Lacks sep p
    → split_max sep (suc k) (p ++ sep ∷ s) ≡ p ∷ split_max sep k s
unfolding split_max
split_max-part sep k [] s h = ground arith
split_max-part sep k (c ∷ p) s h =
    let ih = split_max-part sep k p s h.1 in let n = h.0 in rw ih (ground arith)

pub split_on-part :
    (sep : ℕ) (p s : Text) → Lacks sep p → split_on sep (p ++ sep ∷ s) ≡ p ∷ split_on sep s
unfolding split_on
split_on-part sep [] s h = ground arith
split_on-part sep (c ∷ p) s h =
    let ih = split_on-part sep p s h.1 in let n = h.0 in rw ih (ground arith)

pub split_on-last : (sep : ℕ) (p : Text) → Lacks sep p → split_on sep p ≡ p ∷ []
unfolding split_on
split_on-last sep [] h = refl
split_on-last sep (c ∷ p) h =
    let ih = split_on-last sep p h.1 in let n = h.0 in rw ih (ground arith)
