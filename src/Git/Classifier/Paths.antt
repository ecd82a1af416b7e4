-- ===== src/Git/Classifier/Paths.antt =====
-- What the classifiers say of paths that are built from parts.
use agentic_dev_ops.Prelude.{
  ℕ, ◌≡◌, refl, ◌∙◌, ◌≢◌, ap, Bool, true, false, inl, inr, Bool-cases, ◌||◌, none, some, List, [],
  ◌∷◌, ◌++◌, arith, nat_beq, length, is_nil, All-append, ◌+◌, ◌<◌, length-append,
}
use agentic_dev_ops.Prelude.Text.{Text, codes, starts_with, contains, starts_with-append, text_eq}
use agentic_dev_ops.Prelude.Text.Split.{Lacks, split_on, split_on-part, split_on-last}
use agentic_dev_ops.Git.Classifier.{
  is_vendor, is_generated, path_name, path_suffix, last_part, from_last_dot, suffix_of_name,
}

contains_of_starts : (p s : Text) → starts_with p s ≡ true → contains p s ≡ true
unfolding contains
contains_of_starts p [] h = h
contains_of_starts p (c ∷ s) h = rw h refl

contains-append : (p s t : Text) → contains p (s ++ (p ++ t)) ≡ true
unfolding contains
contains-append p [] t = contains_of_starts p (p ++ t) (starts_with-append p t)
contains-append p (c ∷ s) t = let ih = contains-append p s t in rw ih (ground arith)

or_true : (a : Bool) → (a || true) ≡ true
or_true a = ground arith

-- A path through a vendor directory is vendored, at any depth; one through a `generated` directory
-- below another is generated.
pub directories_classified :
    (dir rest : Text)
    → (is_vendor (codes "vendor/" ++ rest) ≡ true)
      × (is_vendor (dir ++ (codes "/vendor/" ++ rest)) ≡ true)
      × (is_vendor (codes "node_modules/" ++ rest) ≡ true)
      × (is_vendor (dir ++ (codes "/node_modules/" ++ rest)) ≡ true)
      × (is_generated (dir ++ (codes "/generated/" ++ rest)) ≡ true)
unfolding is_vendor is_generated
directories_classified dir rest = (
  refl,
  simp (contains-append (codes "/vendor/") dir rest, or_true),
  refl,
  simp (contains-append (codes "/node_modules/") dir rest, or_true),
  simp (contains-append (codes "/generated/") dir rest, or_true),
)

split_on-cons : (sep : ℕ) (s : Text) → (p : Text) × (ps : List Text) × (split_on sep s ≡ p ∷ ps)
unfolding split_on
split_on-cons sep [] = ([], [], refl)
split_on-cons sep (c ∷ s) =
    let (p, ps, e) = split_on-cons sep s in
    elim (Bool-cases (nat_beq c sep)) [
      | inl t ↦ ([], split_on sep s, rw t refl)
      | inr t ↦ (c ∷ p, ps, rw (t, e) refl)
    ]

split_on-snoc :
    (sep : ℕ) (dir name : Text)
    → Lacks sep name
    → split_on sep (dir ++ sep ∷ name) ≡ split_on sep dir ++ name ∷ []
unfolding split_on
split_on-snoc sep [] name h =
    split_on-part sep [] name tt ∙ ap (λ l. [] ∷ l) (split_on-last sep name h)
split_on-snoc sep (c ∷ dir) name h =
    let ih = split_on-snoc sep dir name h in
    let (p, ps, e) = split_on-cons sep dir in
    elim (Bool-cases (nat_beq c sep)) [ inl t ↦ rw (t, ih) refl | inr t ↦ rw (t, ih, e) refl ]

last_part-snoc :
    (ps : List Text) (name : Text)
    → is_nil name ≡ false
    → text_eq (codes ".") name ≡ false
    → last_part (ps ++ name ∷ []) ≡ name
unfolding last_part
last_part-snoc [] name h k = rw (h, k) refl
last_part-snoc (p ∷ ps) name h k = rw (last_part-snoc ps name h k, h) refl

from_last_dot-none : (s : Text) → Lacks b'.' s → from_last_dot s ≡ none
unfolding from_last_dot
from_last_dot-none [] h = refl
from_last_dot-none (c ∷ s) h =
    let e = from_last_dot-none s h.1 in let n = h.0 in rw e (ground arith)

from_last_dot-join :
    (base ext : Text) → Lacks b'.' ext → from_last_dot (base ++ b'.' ∷ ext) ≡ some (b'.' ∷ ext)
unfolding from_last_dot
from_last_dot-join [] ext h = rw (from_last_dot-none ext h) refl
from_last_dot-join (c ∷ base) ext h = rw (from_last_dot-join base ext h) refl

join-ne_nil : (base ext : Text) → is_nil (base ++ b'.' ∷ ext) ≡ false
join-ne_nil [] ext = refl
join-ne_nil (c ∷ base) ext = refl

join-ne_dot : (base ext : Text) → base ≢ [] → text_eq (codes ".") (base ++ b'.' ∷ ext) ≡ false
unfolding text_eq
join-ne_dot [] ext h = absurd (h refl)
join-ne_dot (c ∷ []) ext h = ground arith
join-ne_dot (c ∷ d ∷ base) ext h = ground arith

module _ (dir base ext : Text) (hb : base ≢ []) (he : ext ≢ []) where
  abbrev name : Text
  name = base ++ b'.' ∷ ext

  base-pos : 0 < length base
  base-pos = grind arith

  ext-pos : 0 < length ext
  ext-pos = grind arith

  name-length : length name ≡ length base + 1 + length ext
  name-length = omega (arith, length-append {0} base (b'.' ∷ ext))

  name-ne_nil : is_nil name ≡ false
  name-ne_nil = join-ne_nil base ext

  name-ne_dot : text_eq (codes ".") name ≡ false
  name-ne_dot = join-ne_dot base ext hb

  path_name-eq : Lacks b'/' name → path_name (dir ++ b'/' ∷ name) ≡ name
  unfolding path_name
  path_name-eq h =
      rw (split_on-snoc b'/' dir name h)
        (last_part-snoc (split_on b'/' dir) name name-ne_nil name-ne_dot)

  suffix-eq : suffix_of_name name (some (b'.' ∷ ext)) ≡ b'.' ∷ ext
  unfolding suffix_of_name
  suffix-eq = ground (arith, name-length, base-pos, ext-pos)

dot_ne_slash : ◌≢◌ {A = ℕ} b'.' b'/'
dot_ne_slash = omega arith

-- The name of `dir/base.ext` is `base.ext`, and its suffix is `.ext`, if neither the base nor the
-- extension is empty, the base holds no slash and the extension neither slash nor dot.
pub path_suffix-join :
    (dir base ext : Text)
    → base ≢ []
    → ext ≢ []
    → Lacks b'/' base
    → Lacks b'/' ext
    → Lacks b'.' ext
    → (path_name (dir ++ b'/' ∷ (base ++ b'.' ∷ ext)) ≡ base ++ b'.' ∷ ext)
      × (path_suffix (dir ++ b'/' ∷ (base ++ b'.' ∷ ext)) ≡ b'.' ∷ ext)
path_suffix-join dir base ext hb he nb ne nd =
    let whole = All-append (λ c. c ≢ b'/') base (b'.' ∷ ext) nb (dot_ne_slash, ne) in
    let e = path_name-eq dir base ext hb he whole in
    (e, unfold path_suffix in rw (e, from_last_dot-join base ext nd) (suffix-eq dir base ext hb he))
