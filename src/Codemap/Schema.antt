-- ===== src/Codemap/Schema.antt =====
-- apps/api-gateway/api_gateway/routers/code_map/schema.py: the graph of a scope, the cards of its
-- modules and the index file.
use agentic_dev_ops.Prelude.{ℕ, Bool, Option, List, String}
use agentic_dev_ops.Prelude.Dict.{Dict}
use agentic_dev_ops.Prelude.Text.{Text}

pub data ModuleKind : Type 0 where
  frontend_spa backend agent lib docs test : ModuleKind

abbrev pub kind_value : ModuleKind → String
kind_value frontend_spa = "frontend-spa"
kind_value backend = "backend"
kind_value agent = "agent"
kind_value lib = "lib"
kind_value docs = "docs"
kind_value test = "test"

pub record Module : Type 0 where
  pub id : Text
  pub path : Text
  pub name : Text
  pub kind : ModuleKind
  pub responsibility : Text
  pub entry_points : List Text
  pub key_files : List Text

pub record Edge : Type 0 where
  pub source : Text
  pub to : Text
  pub via : Option Text

pub record ScopeGraph : Type 0 where
  pub scope : Text
  pub version : ℕ
  pub generated_at : Text
  pub head_sha : Text
  pub generator : Text
  pub stale : Bool
  pub stale_reason : Option Text
  pub modules : List Module
  pub edges : List Edge

pub record InterfaceEntry : Type 0 where
  pub exports : List Text
  pub imports : List Text
  pub consumes_api : List Text

pub record DepEdge : Type 0 where
  pub id : Text
  pub kind : Text

pub record ModuleCard : Type 0 where
  pub scope : Text
  pub module_id : Text
  pub version : ℕ
  pub generated_at : Text
  pub head_sha : Text
  pub responsibility : Text
  pub interfaces : InterfaceEntry
  pub depends_on : List DepEdge
  pub depended_on_by : List DepEdge
  pub key_files : List Text
  pub notes : Text

-- What the index says of one scope.
pub record ScopeEntry : Type 0 where
  pub version : ℕ
  pub head_sha : Text
  pub stale : Bool
  pub stale_reason : Option Text
  pub module_count : ℕ

pub record IndexFile : Type 0 where
  pub generated_at : Text
  pub last_pull_at : Option Text
  pub last_error : Option Text
  pub scopes : Dict Text ScopeEntry
