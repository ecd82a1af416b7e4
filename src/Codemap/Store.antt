-- ===== src/Codemap/Store.antt =====
-- apps/api-gateway/api_gateway/routers/code_map/store.py: the graphs in memory. Each operation runs
-- under the store's lock, so that it is one step on its state. `now` is what the clock says.
pub mod Streak
use agentic_dev_ops.Prelude.{
  ℕ, zero, suc, ◌+◌, ◌≡◌, refl, Bool, true, false, Option, none, some, List, [], ◌∷◌, length,
  is_nil, if◌then◌else◌,
}
use agentic_dev_ops.Prelude.Dict.{Dict, lookup, insert, values}
use agentic_dev_ops.Prelude.Text.{Text, codes, text_eq_instance}
use agentic_dev_ops.Codemap.Schema.{ScopeGraph}

pub record CodeMapStore : Type 0 where
  pub scopes : Dict Text ScopeGraph
  pub stale_streak : Dict Text ℕ
  pub last_pull_at : Option Text

abbrev pub empty_store : CodeMapStore
empty_store = record { scopes = []; stale_streak = []; last_pull_at = none }

-- `stale_reason or "unknown"`
unfoldable pub reason_or_unknown : Option Text → Text
reason_or_unknown none = codes "unknown"
reason_or_unknown (some r) = if is_nil r then codes "unknown" else r

-- `self._stale_streak.get(scope, 0)`
unfoldable pub streak : Text → CodeMapStore → ℕ
streak scope st = elim (lookup scope st.stale_streak) [ none ↦ 0 | some n ↦ n ]

unfoldable pub put : Text → Text → ScopeGraph → Bool → Option Text → CodeMapStore → CodeMapStore
unfolding reason_or_unknown streak
put now scope graph stale stale_reason st =
    if stale
    then record {
      scopes =
          insert scope
            (record graph { stale = true; stale_reason = some (reason_or_unknown stale_reason) })
            st.scopes;
      stale_streak = insert scope (streak scope st + 1) st.stale_streak;
      last_pull_at = some now;
    }
    else record {
      scopes = insert scope (record graph { stale = false; stale_reason = none }) st.scopes;
      stale_streak = insert scope 0 st.stale_streak;
      last_pull_at = some now;
    }

unfoldable pub get : Text → CodeMapStore → Option ScopeGraph
get scope st = lookup scope st.scopes

unfoldable pub all_graphs : CodeMapStore → List ScopeGraph
all_graphs st = values st.scopes

pub record ScopeStatus : Type 0 where
  pub version : ℕ
  pub head_sha : Text
  pub stale : Bool
  pub stale_reason : Option Text
  pub stale_streak : ℕ
  pub module_count : ℕ

pub record Status : Type 0 where
  pub last_pull_at : Option Text
  pub last_error : Option Text
  pub scopes : Dict Text ScopeStatus

-- The reason of the first stale graph.
unfoldable pub first_stale : List ScopeGraph → Option Text
first_stale [] = none
first_stale (g ∷ gs) = if g.stale then g.stale_reason else first_stale gs

unfoldable pub scope_statuses : CodeMapStore → Dict Text ScopeGraph → Dict Text ScopeStatus
unfolding streak
scope_statuses st [] = []
scope_statuses st ((name, g) ∷ d) =
    (
      name,
      record {
        version = g.version;
        head_sha = g.head_sha;
        stale = g.stale;
        stale_reason = g.stale_reason;
        stale_streak = streak name st;
        module_count = length g.modules;
      },
    )
    ∷ scope_statuses st d

unfoldable pub status : CodeMapStore → Status
unfolding first_stale scope_statuses
status st = record {
  last_pull_at = st.last_pull_at;
  last_error = first_stale (values st.scopes);
  scopes = scope_statuses st st.scopes;
}
