-- ===== src/Db/Repositories.antt =====
-- packages/db/devmanager_db/daos/repository.py: the rows of the repositories. Queries return at most
-- one row, since ids and full names are unique.
use agentic_dev_ops.Prelude.{
  ℕ, Option, none, some, List, [], ◌∷◌, String, nat_beq, ◌==◌, if◌then◌else◌,
}
use agentic_dev_ops.Prelude.Text.{Text, codes, text_eq_instance}

pub record Repository : Type 0 where
  pub repository_id : ℕ
  pub provider : String
  pub full_name : Text
  pub default_branch : Text
  pub owner_team : Option Text
  pub policy_id : Text
  pub clone_url : Option Text
  pub access_token : Option Text
  pub status : String
  pub created_at : ℕ
  pub updated_at : ℕ

-- The row that `create` adds, with the defaults of its other arguments.
abbrev pub new_repository : ℕ → ℕ → String → Text → Option Text → Repository
new_repository now id provider full_name clone_url = record {
  repository_id = id;
  provider = provider;
  full_name = full_name;
  default_branch = codes "main";
  owner_team = none;
  policy_id = codes "default-readonly";
  clone_url = clone_url;
  access_token = none;
  status = "active";
  created_at = now;
  updated_at = now;
}

-- `get_by_full_name`
unfoldable pub repository_named : Text → List Repository → Option Repository
repository_named name [] = none
repository_named name (r ∷ rs) = if r.full_name == name then some r else repository_named name rs

-- `get_by_id`
unfoldable pub repository_with_id : ℕ → List Repository → Option Repository
repository_with_id id [] = none
repository_with_id id (r ∷ rs) =
    if nat_beq r.repository_id id then some r else repository_with_id id rs

-- `update_clone_url`
unfoldable pub set_clone_url : ℕ → ℕ → Text → List Repository → List Repository
set_clone_url now id url [] = []
set_clone_url now id url (r ∷ rs) =
    (if nat_beq r.repository_id id then record r { clone_url = some url; updated_at = now } else r)
    ∷ set_clone_url now id url rs
