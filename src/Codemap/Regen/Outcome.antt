-- ===== src/Codemap/Regen/Outcome.antt =====
-- What a regeneration leaves in the store, and how often it sleeps.
use agentic_dev_ops.Prelude.{
  ℕ, zero, suc, ◌+◌, ◌≤◌, ◌≡◌, refl, ap, ◌∙◌, ◌⊎◌, Bool, true, false, inl, inr, Bool-cases, Option,
  none, some, [], ◌∷◌, ◌++◌, length, length-append, arith, ◌==◌, ==_refl, false-ne-true,
}
use agentic_dev_ops.Prelude.Text.{Text, text_eq_instance}
use agentic_dev_ops.Codemap.Schema.{ScopeGraph}
use agentic_dev_ops.Codemap.Store.{put, get}
use agentic_dev_ops.Codemap.Store.Streak.{marked, get-put}
use agentic_dev_ops.Codemap.Changes.{Exc, Result, ok, raised, classify_error}
use agentic_dev_ops.Codemap.Regen.{
  is_transient, Files, RegenState, written, write_new, attempt, next_version, fallback, retry_delay,
  settle, regen_from, regen_one_scope,
}

-- The old graph in every field but the two marks, or an empty graph of version 0.
abbrev pub IsOld : Option ScopeGraph → ScopeGraph → Type 0
IsOld none g = (g.version ≡ 0) × (g.modules ≡ []) × (g.edges ≡ [])
IsOld (some o) g = g ≡ (record o { stale = true; stale_reason = g.stale_reason })

-- A new graph with the next version, or the old one (without one, an empty graph of version 0),
-- marked stale.
abbrev pub IsOutcome : Option ScopeGraph → ScopeGraph → Type 0
IsOutcome old g =
    (g.stale ≡ false) × (g.version ≡ next_version old) ⊎ (g.stale ≡ true) × IsOld old g

module _ (lower : Text → Text) (validate_json : Text → Result ScopeGraph) (fs : Files)
    (now : Text) where
  abbrev State : Type 0
  State = RegenState lower validate_json fs now

  -- Only the scope's entry changes, it becomes an outcome, and there are at most `n` more sleeps.
  abbrev pub Regenerated : Text → Option ScopeGraph → ℕ → State → State → Type 0
  Regenerated scope old n before later =
      ((other : Text) → (scope == other) ≡ false → get other later.store ≡ get other before.store)
      × ((g : ScopeGraph) × (get scope later.store ≡ some g) × IsOutcome old g)
      × (length later.sleeps ≤ length before.sleeps + n)

  put-Regenerated :
      (scope : Text) (old : Option ScopeGraph) (n : ℕ) (g : ScopeGraph) (stale : Bool)
      (reason : Option Text) (before later : State)
      → later.store ≡ put now scope g stale reason before.store
      → IsOutcome old (marked g stale reason)
      → length later.sleeps ≤ length before.sleeps + n
      → Regenerated scope old n before later
  put-Regenerated scope old n g stale reason before later e h k = (
    (λ other d. ap (get other) e ∙ get-put now scope other g stale reason before.store ∙ rw d refl),
    (
      marked g stale reason,
      ap (get scope) e
          ∙ get-put now scope scope g stale reason before.store
          ∙ rw (==_refl scope) refl,
      h,
    ),
    k,
  )

  fallback-Regenerated :
      (scope : Text) (old : Option ScopeGraph) (n : ℕ) (head_sha generator : Text) (e : Exc)
      (before st : State)
      → st.store ≡ before.store
      → st.sleeps ≡ before.sleeps
      → Regenerated scope old n before
          (fallback lower validate_json fs now scope old head_sha generator e st)
  unfolding fallback
  fallback-Regenerated scope (some g) n head_sha generator e before st same slept =
      put-Regenerated scope (some g) n g true (some e.message) before
        (fallback lower validate_json fs now scope (some g) head_sha generator e st)
        (ap (put now scope g true (some e.message)) same) (inr (refl, refl))
        (omega (arith, ap length slept))
  fallback-Regenerated scope none n head_sha generator e before st same slept =
      put-Regenerated scope none n _ true (some e.message) before
        (fallback lower validate_json fs now scope none head_sha generator e st)
        (ap (put now scope _ true (some e.message)) same) (inr (refl, (refl, refl, refl)))
        (omega (arith, ap length slept))

  -- The new graph that an attempt gives is fresh and has the next version.
  OnOk : Option ScopeGraph → Result ScopeGraph → Type 0
  OnOk old (ok g) = (g.stale ≡ false) × (g.version ≡ next_version old)
  OnOk old (raised e) = Unit

  written-OnOk :
      (old : Option ScopeGraph) (g : ScopeGraph) (w : fs.Disk × Option Exc)
      → (g.stale ≡ false) × (g.version ≡ next_version old)
      → OnOk old (written lower validate_json fs now g w).1
  unfolding written OnOk
  written-OnOk old g (disk, none) h = h
  written-OnOk old g (disk, some e) h = tt

  write_new-OnOk :
      (scope : Text) (old : Option ScopeGraph) (disk : fs.Disk) (r : Result ScopeGraph)
      → OnOk old (write_new lower validate_json fs now scope old disk r).1
  unfolding write_new OnOk
  write_new-OnOk scope old disk (raised e) = tt
  write_new-OnOk scope old disk (ok g) = written-OnOk old _ _ (refl, refl)

  attempt-OnOk :
      (scope : Text) (old : Option ScopeGraph) (answer : Result Text) (disk : fs.Disk)
      → OnOk old (attempt lower validate_json fs now scope old answer disk).1
  unfolding attempt OnOk
  attempt-OnOk scope old (raised e) disk = tt
  attempt-OnOk scope old (ok content) disk = write_new-OnOk scope old disk _

  module _ (complete : ℕ → Result Text) (scope : Text) (old : Option ScopeGraph)
      (head_sha generator : Text) where
    settle-Regenerated :
        (left : Bool) (n : ℕ) (again : State) (result : Result ScopeGraph) (before st : State)
        → st.store ≡ before.store
        → st.sleeps ≡ before.sleeps
        → OnOk old result
        → (left ≡ true → Regenerated scope old n before again)
        → Regenerated scope old n before (
            settle lower validate_json fs now complete scope old head_sha generator left again
              result st)
    unfolding settle OnOk
    settle-Regenerated left n again (ok g) before st same slept h k =
        put-Regenerated scope old n g false none before
          (settle lower validate_json fs now complete scope old head_sha generator left again (ok g)
            st)
          (ap (put now scope g false none) same) (inl (refl, h.1)) (omega (arith, ap length slept))
    settle-Regenerated true n again (raised e) before st same slept h k =
        elim (Bool-cases (is_transient (classify_error lower e))) [
          | inl t ↦ rw t (k refl)
          | inr t ↦
              rw t (fallback-Regenerated scope old n head_sha generator e before st same slept)
        ]
    settle-Regenerated false n again (raised e) before st same slept h k =
        fallback-Regenerated scope old n head_sha generator e before st same slept

    regen_from-Regenerated :
        (left n : ℕ) (st : State)
        → Regenerated scope old left st
            (regen_from lower validate_json fs now complete scope old head_sha generator left n st)
    unfolding regen_from
    regen_from-Regenerated zero n st =
        let disk' = (attempt lower validate_json fs now scope old (complete n) st.disk).0 in
        settle-Regenerated false 0 (record st { disk = disk' }) _ st (record st { disk = disk' })
          refl refl (attempt-OnOk scope old (complete n) st.disk) (λ h. false-ne-true h)
    regen_from-Regenerated (suc left) n st =
        let disk' = (attempt lower validate_json fs now scope old (complete n) st.disk).0 in
        let slept : State = record st { disk = disk'; sleeps = st.sleeps ++ retry_delay ∷ [] } in
        settle-Regenerated true (suc left)
          (regen_from lower validate_json fs now complete scope old head_sha generator left (suc n)
            slept)
          _ st (record st { disk = disk' }) refl refl (attempt-OnOk scope old (complete n) st.disk)
          (λ _.
            let (others, here, k) = regen_from-Regenerated left (suc n) slept in
            (others, here, omega (arith, k, length-append st.sleeps (retry_delay ∷ []))))

  -- Regenerating one scope, with at least one attempt allowed, never fails: it changes no other scope
  -- in the store and leaves either a fresh graph whose version is one more than the old one's (1
  -- without an old one), or the old one, of which only the two marks of staleness have changed
  -- (without an old one, a graph of version 0 without modules and edges). It sleeps at most once less
  -- than attempts are allowed.
  pub regen_one_scope-Regenerated :
      (complete : ℕ → Result Text) (scope : Text) (old : Option ScopeGraph)
      (head_sha generator : Text) (left : ℕ) (st : State)
      → (later : State) × (regen_one_scope lower validate_json fs now complete scope old head_sha
            generator
            (suc left)
            st
          ≡ some later)
        × Regenerated scope old left st later
  unfolding regen_one_scope
  regen_one_scope-Regenerated complete scope old head_sha generator left st =
      (_, refl, regen_from-Regenerated complete scope old head_sha generator left 0 st)
