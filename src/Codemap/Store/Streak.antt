-- ===== src/Codemap/Store/Streak.antt =====
-- What the store holds after a sequence of `put`s.
use agentic_dev_ops.Prelude.{
  ℕ, ◌+◌, ◌≡◌, refl, ◌∙◌, Bool, true, false, inl, inr, Bool-cases, Option, none, some, List, [],
  ◌∷◌, arith, ◌==◌, ==_eq, if◌then◌else◌,
}
use agentic_dev_ops.Prelude.Dict.{lookup, lookup-insert}
use agentic_dev_ops.Prelude.Text.{Text, text_eq_instance}
use agentic_dev_ops.Codemap.Schema.{ScopeGraph}
use agentic_dev_ops.Codemap.Store.{CodeMapStore, empty_store, streak, put, get, reason_or_unknown}

-- The arguments of one call of `put`.
pub record PutCall : Type 0 where
  pub now : Text
  pub scope : Text
  pub graph : ScopeGraph
  pub stale : Bool
  pub stale_reason : Option Text

-- The store after the calls, the last of which is at the head.
abbrev pub after : List PutCall → CodeMapStore
after [] = empty_store
after (c ∷ cs) = put c.now c.scope c.graph c.stale c.stale_reason (after cs)

-- How many of the last calls for a scope were stale.
abbrev pub last_stale : Text → List PutCall → ℕ
last_stale scope [] = 0
last_stale scope (c ∷ cs) =
    let earlier = last_stale scope cs in
    if c.scope == scope then (if c.stale then earlier + 1 else 0) else earlier

-- A graph with the mark that `put` gives it.
abbrev pub marked : ScopeGraph → Bool → Option Text → ScopeGraph
marked g stale reason =
    if stale
    then record g { stale = true; stale_reason = some (reason_or_unknown reason) }
    else record g { stale = false; stale_reason = none }

-- What the last call for a scope left.
abbrev pub last_graph : Text → List PutCall → Option ScopeGraph
last_graph scope [] = none
last_graph scope (c ∷ cs) =
    if c.scope == scope then some (marked c.graph c.stale c.stale_reason) else last_graph scope cs

pub get-put :
    (now scope other : Text) (g : ScopeGraph) (stale : Bool) (reason : Option Text)
    (st : CodeMapStore)
    → get other (put now scope g stale reason st)
      ≡ (if scope == other then some (marked g stale reason) else get other st)
unfolding get put
get-put now scope other g true reason st = lookup-insert scope other _ st.scopes
get-put now scope other g false reason st = lookup-insert scope other _ st.scopes

streak-put :
    (now scope other : Text) (g : ScopeGraph) (stale : Bool) (reason : Option Text)
    (st : CodeMapStore)
    → streak other (put now scope g stale reason st)
      ≡ (if scope == other then (if stale then streak scope st + 1 else 0) else streak other st)
unfolding put
streak-put now scope other g true reason st =
    rw (streak, lookup-insert scope other (streak scope st + 1) st.stale_streak) (ground arith)
streak-put now scope other g false reason st =
    rw (streak, lookup-insert scope other 0 st.stale_streak) (ground arith)

-- After any sequence of `put`s, the store holds for each scope the graph of the last `put` for it,
-- with the mark of that call, and its streak is the number of stale `put`s since the last fresh one.
pub after_lem :
    (scope : Text) (cs : List PutCall)
    → (get scope (after cs) ≡ last_graph scope cs) × (streak scope (after cs) ≡ last_stale scope cs)
after_lem scope [] = (unfold get lookup in refl, unfold streak lookup in refl)
after_lem scope (c ∷ cs) =
    let (graphs, streaks) = after_lem scope cs in
    let st = after cs in
    (
      get-put c.now c.scope scope c.graph c.stale c.stale_reason st ∙ rw graphs refl,
      streak-put c.now c.scope scope c.graph c.stale c.stale_reason st
          ∙ elim (Bool-cases (c.scope == scope)) [
            | inl e ↦ let s : c.scope ≡ scope = ==_eq e in rw (e, s, streaks) refl
            | inr e ↦ rw (e, streaks) refl
          ],
    )
