-- ===== src/Pm/Mapper.antt =====
-- services/pm-integration/devmanager_pm_integration/mapper.py and models/dto.py: what the platform
-- sends, and the fields that are stored of it.
use agentic_dev_ops.Prelude.{ℕ, Bool, Option, none, some, String, is_nil, if◌then◌else◌}
use agentic_dev_ops.Prelude.Text.{Text, text_eq_instance}
use agentic_dev_ops.Pm.Tables.{IterationFields, IssueFields, AssignmentFields}

module _ (F : Type 0) where
  pub record IterationDto : Type 0 where
    pub id : Text
    pub name : Text
    pub start_date : ℕ
    pub end_date : ℕ
    pub status : Text
    pub created_at : Option ℕ
    pub updated_at : Option ℕ

  pub record IssueDto : Type 0 where
    pub id : Text
    pub key : Text
    pub title : Text
    pub kind : Text
    pub priority : Text
    pub status : Text
    pub estimate_hours : Option F
    pub iteration_id : Option Text
    pub created_at : Option ℕ
    pub updated_at : Option ℕ

  pub record IssueAssignmentDto : Type 0 where
    pub issue_id : Text
    pub user_id : Text
    pub role : Text
    pub weight : F
    pub username : Option Text

  unfoldable pub iteration_to_orm_fields : IterationDto → IterationFields F
  iteration_to_orm_fields dto = record {
    pm_iteration_id = dto.id;
    name = dto.name;
    start_date = dto.start_date;
    end_date = dto.end_date;
    status = dto.status;
    pm_created_at = dto.created_at;
    pm_updated_at = dto.updated_at;
  }

  -- Without an iteration.
  unfoldable pub issue_to_orm_fields : IssueDto → IssueFields F
  issue_to_orm_fields dto = record {
    pm_issue_id = dto.id;
    issue_key = dto.key;
    title = dto.title;
    issue_type = dto.kind;
    priority = dto.priority;
    status = dto.status;
    estimate_hours = dto.estimate_hours;
    iteration_id = none;
    pm_created_at = dto.created_at;
    pm_updated_at = dto.updated_at;
  }

  -- `dto.username or dto.user_id`
  unfoldable pub username_of : IssueAssignmentDto → Text
  username_of dto = elim dto.username [
    | none ↦ dto.user_id
    | some u ↦ if is_nil u then dto.user_id else u
  ]

  -- For the row of an issue, without a person.
  unfoldable pub issue_assignment_to_orm_fields : ℕ → IssueAssignmentDto → AssignmentFields F
  unfolding username_of
  issue_assignment_to_orm_fields issue_id dto = record {
    issue_id = issue_id;
    pm_user_id = dto.user_id;
    pm_username = username_of dto;
    role = dto.role;
    weight = dto.weight;
    person_id = none;
  }

  -- What a sync needs of the payloads: which fields are there and not null, and what pydantic makes of
  -- them (`none`: a ValidationError).
  pub record Payloads : Type 1 where
    pub Payload : Type 0
    pub has_field : String → Payload → Bool
    pub iteration_dto : Payload → Option IterationDto
    pub issue_dto : Payload → Option IssueDto
    pub assignment_dto : Payload → Option IssueAssignmentDto
