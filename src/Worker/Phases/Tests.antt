-- ===== src/Worker/Phases/Tests.antt =====
-- The pipeline of the services at one run.
use agentic_dev_ops.Prelude.{true, none, some, [], ◌∷◌, nat_eq}
use agentic_dev_ops.Prelude.Text.{codes, text_eq}
use agentic_dev_ops.Float.Fixed.{fixed}
use agentic_dev_ops.Db.Tables.{Tables}
use agentic_dev_ops.Db.Tests.{same_text, env, database}
use agentic_dev_ops.Git.Fetcher.{ended}
use agentic_dev_ops.Agents.Filters.{file}
use agentic_dev_ops.Agents.Enrich.{refused}
use agentic_dev_ops.Agents.Numbering.{Reviewers}
use agentic_dev_ops.Agents.Reviewer.{output}
use agentic_dev_ops.Worker.Pipeline.{provider_ready, full_pipeline}
use agentic_dev_ops.Worker.Phases.{Surroundings, services}
use agentic_dev_ops.Worker.Phases.Refines.{IsCompleted, full_pipeline-Running}
use agentic_dev_ops.Worker.Phases.States.{After}
use agentic_dev_ops.Worker.Workflow.{status_of}

abbrev reviewers : Reviewers fixed
reviewers = record {
  py = record {
    to_int = λ v. refused;
    to_float = λ v. refused;
    show = λ v. [];
    is_truthy = λ x. true;
    decimal = λ n. n ∷ [];
    sha256 = λ t. t;
  };
  complete = λ u messages. some (record { content = []; end_turn = true; tool_uses = [] });
  execute = λ u tu. output [];
  parse_findings = λ t. some [];
  prompt = λ u. [];
  today = codes "20260102";
}

-- Git and the files are there, the review is in time and finds nothing.
abbrev around : Surroundings
around = record {
  Provider = Unit;
  disk = record {
    git = λ args cwd. ended true [] [];
    has_head = λ dir. true;
    mkdir = λ dir. none;
    parent = λ dir. dir;
    write_text = λ path text. none;
    fnmatch = text_eq;
    posix_path = same_text;
    decimal = λ n. n ∷ [];
    unit_id = λ n. n ∷ [];
    default_workspace = codes "/repos";
    default_hunks = codes "/hunks";
  };
  load_provider = λ db. provider_ready tt;
  repo_problem = λ id. none;
  reviewers = λ provider. reviewers;
  at = λ u path. file 100;
  validate = λ n. [];
  cancelled = λ id db. none;
  scoring_version = codes "v1";
  render_markdown = λ content. content.repository_full_name;
  reports_root = codes "/reports";
  write_text = λ path text. none;
  is_truthy = λ x. true;
}

full_pipeline-Running_example :
    After around 3
      (status_of 3 (database "trigger_received").runs)
      []
      (IsCompleted around 3 (status_of 3 (database "trigger_received").runs) [])
      (full_pipeline (Tables fixed same_text) (services around) 3 [] (database "trigger_received"))
full_pipeline-Running_example =
    full_pipeline-Running around 3 [] (database "trigger_received") (λ db later is e. absurd (cc))
