-- ===== src/Agents/Reviewer.antt =====
-- packages/agents/devmanager_agents/agent_reviewer.py: the loop in which the language model calls
-- skills until it answers. The model's answers, the reading of its final text and the skills'
-- outputs are parameters; the audit log is the list of the calls that were written to it. `calls`
-- counts how often the loop asks the model; a skill may ask it on its own, as skills/classify.py does.
pub mod Loop
use agentic_dev_ops.Prelude.{
  ℕ, zero, suc, ◌+◌, Bool, true, false, ◌||◌, ◌&&◌, Option, none, some, List, [], ◌∷◌, ◌++◌, take,
  is_nil, if◌then◌else◌,
}
use agentic_dev_ops.Prelude.Text.{Text, codes}

pub record ToolUse : Type 0 where
  pub id : Text
  pub name : Text
  pub input : Text

pub record LlmResponse : Type 0 where
  pub content : Text
  -- `stop_reason == "end_turn"`
  pub end_turn : Bool
  pub tool_uses : List ToolUse

pub record ToolResult : Type 0 where
  pub tool_use_id : Text
  pub content : Text
  pub is_error : Bool

pub data Message : Type 0 where
  user_prompt : Text → Message
  assistant : Text → Message
  tool_results : List ToolResult → Message

-- How a call of a skill ends: its output, or the text of an exception.
pub data CallEnd : Type 0 where
  output : Text → CallEnd
  call_raised : Text → CallEnd

unfoldable pub result_of : ToolUse → CallEnd → ToolResult
result_of tu (output t) = record { tool_use_id = tu.id; content = take 8000 t; is_error = false }
result_of tu (call_raised e) = record {
  tool_use_id = tu.id;
  content = codes "(tool error: " ++ (e ++ codes ")");
  is_error = true;
}

-- How the loop ends: with the findings, without an answer in time, or by an exception.
pub data LoopEnd (Finding : Type 0) : Type 0 where
  findings : List Finding → LoopEnd Finding
  max_iter_reached : LoopEnd Finding
  crashed : LoopEnd Finding

-- The end, the audit log, and how often the model was called.
pub record LoopRun (Finding : Type 0) : Type 0 where
  pub end : LoopEnd Finding
  pub audit : List ToolUse
  pub calls : ℕ

module _ {Finding : Type 0} (complete : List Message → Option LlmResponse)
    (execute : ToolUse → CallEnd) (writes_audit : ToolUse → Bool)
    (parse_findings : Text → Option (List Finding)) where
  unfoldable pub results_of : List ToolUse → List ToolResult
  unfolding result_of
  results_of [] = []
  results_of (tu ∷ tus) = result_of tu (execute tu) ∷ results_of tus

  -- A call that raised is not written.
  unfoldable pub is_audited : ToolUse → CallEnd → Bool
  is_audited tu (output t) = writes_audit tu
  is_audited tu (call_raised e) = false

  unfoldable pub audited : List ToolUse → List ToolUse
  unfolding is_audited
  audited [] = []
  audited (tu ∷ tus) = if is_audited tu (execute tu) then tu ∷ audited tus else audited tus

  abbrev pub parsed : Option (List Finding) → LoopEnd Finding
  parsed none = crashed
  parsed (some fs) = findings fs

  -- What follows a response: the end, or `next` after the tools' results.
  unfoldable pub on_response :
      (List Message → List ToolUse → ℕ → LoopRun Finding)
      → List Message
      → List ToolUse
      → ℕ
      → Option LlmResponse
      → LoopRun Finding
  unfolding results_of audited
  on_response next messages audit calls none = record {
    end = crashed;
    audit = audit;
    calls = suc calls;
  }
  on_response next messages audit calls (some resp) =
      if resp.end_turn || is_nil resp.tool_uses
      then record { end = parsed (parse_findings resp.content); audit = audit; calls = suc calls }
      else next (messages ++ assistant resp.content ∷ tool_results (results_of resp.tool_uses) ∷ [])
          (audit ++ audited resp.tool_uses) (suc calls)

  -- `for _ in range(max_iter)`, and AgentLoopMaxIter behind it.
  unfoldable pub loop : ℕ → List Message → List ToolUse → ℕ → LoopRun Finding
  unfolding on_response
  loop zero messages audit calls = record { end = max_iter_reached; audit = audit; calls = calls }
  loop (suc left) messages audit calls =
      on_response (loop left) messages audit calls (complete messages)

  unfoldable pub findings_of : LoopEnd Finding → List Finding
  findings_of (findings fs) = fs
  findings_of max_iter_reached = []
  findings_of crashed = []

  unfoldable pub review_all : ℕ → Text → List Finding × LoopRun Finding
  unfolding loop findings_of
  review_all max_iter prompt =
      let run = loop max_iter (user_prompt prompt ∷ []) [] 0 in (findings_of run.end, run)
