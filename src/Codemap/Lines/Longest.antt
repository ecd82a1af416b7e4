-- ===== src/Codemap/Lines/Longest.antt =====
-- The module that `find_module_for_file` finds.
use agentic_dev_ops.Prelude.{
  ℕ, ◌≤◌, ◌<◌, ◌≡◌, refl, sym, ap, subst, ◌∙◌, ◌⊎◌, true, false, inl, inr, Bool-cases, Option, none,
  some, List, [], ◌∷◌, ◌++◌, length, arith, All, All-append, All-map,
}
use mathlib.Core.List.{append_assoc, append-nil}
use agentic_dev_ops.Prelude.Text.{
  Text, codes, starts_with, starts_with-split, starts_with-append, text_eq_iff,
}
use agentic_dev_ops.Codemap.Schema.{Module, ScopeGraph}
use agentic_dev_ops.Codemap.Lines.{
  Owner, owns, owner_of, Best, is_better, better, best_in_graph, best_in_graphs,
  find_module_for_file,
}

-- The modules with their scopes, in the order of the search.
abbrev pub scoped : Text → List Module → List (Text × Module)
scoped scope [] = []
scoped scope (m ∷ ms) = (scope, m) ∷ scoped scope ms

abbrev pub all_modules : List ScopeGraph → List (Text × Module)
all_modules [] = []
all_modules (g ∷ gs) = scoped g.scope g.modules ++ all_modules gs

abbrev Entry : Type 0
Entry = Text × Module

-- The module does not own the file, or its path is shorter than `n`; or at most as long.
abbrev pub Below : Text → ℕ → Entry → Type 0
Below file_path n e = owns file_path e.1 ≡ true → length e.1.path < n

abbrev pub AtMost : Text → ℕ → Entry → Type 0
AtMost file_path n e = owns file_path e.1 ≡ true → length e.1.path ≤ n

-- The entry owns the file, those before it that own it have a shorter path, and those behind it
-- that own it have no longer one.
abbrev pub IsFirstLongest : Text → List Entry → Entry → Type 0
IsFirstLongest file_path l e =
    (before : List Entry) × (later : List Entry) × (l ≡ before ++ e ∷ later)
    × (owns file_path e.1 ≡ true)
    × All (Below file_path (length e.1.path)) before
    × All (AtMost file_path (length e.1.path)) later

abbrev IsBest : Text → List Entry → Best → Type 0
IsBest file_path l none = All (λ e. owns file_path e.1 ≡ false) l
IsBest file_path l (some (n, o)) =
    (e : Entry) × (owner_of e.0 e.1 ≡ o) × (length e.1.path ≡ n) × IsFirstLongest file_path l e

module _ (file_path : Text) where
  Below-IsBest :
      (l : List Entry) (best : Best) (m : Module)
      → IsBest file_path l best
      → is_better m best ≡ true
      → All (Below file_path (length m.path)) l
  unfolding is_better
  Below-IsBest l none m h b =
      All-map (λ e. owns file_path e.1 ≡ false) (Below file_path (length m.path)) l
        (λ e k j. ground (arith)) h
  Below-IsBest l (some (n, o)) m (e, _, len, (before, later, eq, own, lo, hi)) b =
      subst (All (Below file_path (length m.path))) (sym eq) (
        All-append (Below file_path (length m.path)) before (e ∷ later)
          (All-map (Below file_path (length e.1.path)) (Below file_path (length m.path)) before
            (λ x k j. let lt = k j in ground arith) lo)
          (
            (λ j. ground arith),
            All-map (AtMost file_path (length e.1.path)) (Below file_path (length m.path)) later
                (λ x k j. let le = k j in ground arith) hi,
          ))

  IsBest-skip :
      (l : List Entry) (best : Best) (x : Entry)
      → IsBest file_path l best
      → owns file_path x.1 ≡ false
      → IsBest file_path (l ++ x ∷ []) best
  IsBest-skip l none x h n = All-append (λ e. owns file_path e.1 ≡ false) l (x ∷ []) h (n, tt)
  IsBest-skip l (some (k, o)) x (e, eo, len, (before, later, eq, own, lo, hi)) n = (
    e,
    eo,
    len,
    (
      before,
      later ++ x ∷ [],
      ap (λ z. z ++ x ∷ []) eq ∙ append_assoc before (e ∷ later) (x ∷ []),
      own,
      lo,
      All-append (AtMost file_path (length e.1.path)) later (x ∷ []) hi ((λ j. ground arith), tt),
    ),
  )

  IsBest-keep :
      (l : List Entry) (best : Best) (x : Entry)
      → IsBest file_path l best
      → is_better x.1 best ≡ false
      → IsBest file_path (l ++ x ∷ []) best
  unfolding is_better
  IsBest-keep l none x h n = absurd (cc)
  IsBest-keep l (some (k, o)) x (e, eo, len, (before, later, eq, own, lo, hi)) n = (
    e,
    eo,
    len,
    (
      before,
      later ++ x ∷ [],
      ap (λ z. z ++ x ∷ []) eq ∙ append_assoc before (e ∷ later) (x ∷ []),
      own,
      lo,
      All-append (AtMost file_path (length e.1.path)) later (x ∷ []) hi ((λ j. ground arith), tt),
    ),
  )

  IsBest-better :
      (l : List Entry) (best : Best) (s : Text) (m : Module)
      → IsBest file_path l best
      → IsBest file_path (l ++ (s, m) ∷ []) (better file_path s best m)
  unfolding better
  IsBest-better l best s m h = elim (Bool-cases (owns file_path m)) [
    | inr n ↦ rw n (IsBest-skip l best (s, m) h n)
    | inl own ↦ elim (Bool-cases (is_better m best)) [
      | inr w ↦ rw (own, w) (IsBest-keep l best (s, m) h w)
      | inl b ↦ rw (own, b) ((s, m), refl, refl, (l, [], refl, own, Below-IsBest l best m h b, tt))
    ]
  ]

  IsBest-graph :
      (l : List Entry) (best : Best) (scope : Text) (ms : List Module)
      → IsBest file_path l best
      → IsBest file_path (l ++ scoped scope ms) (best_in_graph file_path scope best ms)
  unfolding best_in_graph
  IsBest-graph l best scope [] h = subst (λ z. IsBest file_path z best) (sym (append-nil l)) h
  IsBest-graph l best scope (m ∷ ms) h =
      let next = better file_path scope best m in
      subst (λ z. IsBest file_path z (best_in_graph file_path scope next ms))
        (append_assoc l ((scope, m) ∷ []) (scoped scope ms))
        (IsBest-graph (l ++ (scope, m) ∷ []) next scope ms (IsBest-better l best scope m h))

  IsBest-graphs :
      (l : List Entry) (best : Best) (gs : List ScopeGraph)
      → IsBest file_path l best
      → IsBest file_path (l ++ all_modules gs) (best_in_graphs file_path best gs)
  unfolding best_in_graphs
  IsBest-graphs l best [] h = subst (λ z. IsBest file_path z best) (sym (append-nil l)) h
  IsBest-graphs l best (g ∷ gs) h =
      let next = best_in_graph file_path g.scope best g.modules in
      subst (λ z. IsBest file_path z (best_in_graphs file_path next gs))
        (append_assoc l (scoped g.scope g.modules) (all_modules gs))
        (IsBest-graphs (l ++ scoped g.scope g.modules) next gs
          (IsBest-graph l best g.scope g.modules h))

-- The file is that of the module's path, or lies below it: the path, a slash, and a rest.
abbrev pub LiesIn : Text → Module → Type 0
LiesIn file_path m =
    file_path ≡ m.path ⊎ ((rest : Text) × (file_path ≡ (m.path ++ codes "/") ++ rest))

owns-LiesIn : (file_path : Text) (m : Module) → owns file_path m ≡ true → LiesIn file_path m
unfolding owns
owns-LiesIn file_path m h = elim (Bool-cases (starts_with (m.path ++ codes "/") file_path)) [
  | inl e ↦ inr (starts_with-split (m.path ++ codes "/") file_path e)
  | inr e ↦ inl ((text_eq_iff file_path m.path).0 (rw e at h))
]

LiesIn-owns : (file_path : Text) (m : Module) → LiesIn file_path m → owns file_path m ≡ true
unfolding owns
LiesIn-owns file_path m (inl e) = let same = (text_eq_iff file_path m.path).1 e in ground arith
LiesIn-owns file_path m (inr (rest, e)) =
    let below =
      subst (λ f. starts_with (m.path ++ codes "/") f ≡ true) (sym e)
        (starts_with-append (m.path ++ codes "/") rest) in
    rw below refl

not-LiesIn : (file_path : Text) (m : Module) → owns file_path m ≡ false → LiesIn file_path m → ⊥
not-LiesIn file_path m no_owner lies = let yes = LiesIn-owns file_path m lies in absurd (cc)

-- What a search may answer: the file lies in no module; or it lies in the module of the answer, those
-- before it in which it lies have a shorter path, and those behind it have no longer one.
abbrev pub Answers : Text → List (Text × Module) → Option Owner → Type 0
Answers file_path l none = All (λ e. LiesIn file_path e.1 → ⊥) l
Answers file_path l (some o) =
    (e : Text × Module) × (before : List Entry) × (later : List Entry) × (owner_of e.0 e.1 ≡ o)
    × (l ≡ before ++ e ∷ later)
    × LiesIn file_path e.1
    × All (λ d. LiesIn file_path d.1 → length d.1.path < length e.1.path) before
    × All (λ d. LiesIn file_path d.1 → length d.1.path ≤ length e.1.path) later

-- `find_module_for_file` finds nothing only if the file lies in no module of the graphs; else it
-- finds the module with the longest path in which the file lies, and the first of those in the order
-- of the graphs. A file lies in a module if its path is that of the module, or that path, a slash and
-- a rest.
pub find_module_for_file_lem :
    (file_path : Text) (gs : List ScopeGraph)
    → Answers file_path (all_modules gs) (find_module_for_file file_path gs)
unfolding find_module_for_file
find_module_for_file_lem file_path gs =
    answer (best_in_graphs file_path none gs) (IsBest-graphs file_path [] none gs tt)
  where
    answer :
        (b : Best)
        → IsBest file_path (all_modules gs) b
        → Answers file_path (all_modules gs) (elim b [ none ↦ none | some (n, o) ↦ some o ])
    answer none h =
        All-map (λ e. owns file_path e.1 ≡ false) (λ e. LiesIn file_path e.1 → ⊥) (all_modules gs)
          (λ e k. not-LiesIn file_path e.1 k) h
    answer (some (n, o)) (e, eo, _, (before, later, eq, own, lo, hi)) = (
      e,
      before,
      later,
      eo,
      eq,
      owns-LiesIn file_path e.1 own,
      All-map (Below file_path (length e.1.path))
          (λ d. LiesIn file_path d.1 → length d.1.path < length e.1.path) before
          (λ d k lies. k (LiesIn-owns file_path d.1 lies)) lo,
      All-map (AtMost file_path (length e.1.path))
          (λ d. LiesIn file_path d.1 → length d.1.path ≤ length e.1.path) later
          (λ d k lies. k (LiesIn-owns file_path d.1 lies)) hi,
    )
