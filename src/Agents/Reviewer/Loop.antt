-- ===== src/Agents/Reviewer/Loop.antt =====
-- How long the loop runs, and that every call of a skill is answered.
use agentic_dev_ops.Prelude.{
  ℕ, zero, suc, ◌+◌, ◌<◌, ◌≡◌, ◌⊎◌, refl, ap, Bool, true, false, not, ◌||◌, ◌++◌, inl, inr,
  Bool-cases, Option, none, some, List, [], ◌∷◌, map, is_nil, arith,
}
use agentic_dev_ops.Prelude.Text.{Text}
use agentic_dev_ops.Agents.Reviewer.{
  ToolUse, LlmResponse, Message, user_prompt, assistant, tool_results, CallEnd, output, call_raised,
  result_of, LoopEnd, crashed, max_iter_reached, parsed, LoopRun, results_of, on_response, loop,
  review_all,
}

result_of-id : (tu : ToolUse) (e : CallEnd) → (result_of tu e).tool_use_id ≡ tu.id
unfolding result_of
result_of-id tu (output t) = refl
result_of-id tu (call_raised e) = refl

module _ {Finding : Type 0} (complete : List Message → Option LlmResponse)
    (execute : ToolUse → CallEnd) (writes_audit : ToolUse → Bool)
    (parse_findings : Text → Option (List Finding)) where
  -- Each call of a skill has one result, with its id and in its place, also if the call failed.
  pub results_of-ids :
      (tus : List ToolUse)
      → map (λ r. r.tool_use_id) (results_of complete execute writes_audit parse_findings tus)
        ≡ map (λ tu. tu.id) tus
  unfolding results_of
  results_of-ids [] = refl
  results_of-ids (tu ∷ tus) =
      rw (result_of-id tu (execute tu)) (ap (λ l. tu.id ∷ l) (results_of-ids tus))

  abbrev pub asks : LlmResponse → Bool
  asks resp = not (resp.end_turn || is_nil resp.tool_uses)

  -- A conversation in which the model has asked for skills `n` times, and got their results.
  pub data Talks (start : List Message) : ℕ → List Message → Type 0 where
    opened : Talks start 0 start
    answered :
        {n : ℕ} {ms : List Message} (resp : LlmResponse)
        → Talks start n ms
        → complete ms ≡ some resp
        → asks resp ≡ true
        → Talks start (suc n) (
            ms
            ++ assistant resp.content
              ∷ tool_results
                  (results_of complete execute writes_audit parse_findings resp.tool_uses)
              ∷ [])

  -- What the last answer ends a review with.
  abbrev pub Final : Option LlmResponse → LoopEnd Finding → Type 0
  Final none end = end ≡ crashed
  Final (some resp) end =
      (asks resp ≡ false)
      × (end ≡ parsed complete execute writes_audit parse_findings (parse_findings resp.content))

  -- The conversation has as many turns as are allowed, or fewer and a last answer.
  abbrev pub EndsWithin : ℕ → List Message → LoopRun Finding → Type 0
  EndsWithin max_iter start run =
      (n : ℕ) × (ms : List Message) × Talks start n ms
      × ((n ≡ max_iter) × (run.end ≡ max_iter_reached) × (run.calls ≡ n)
          ⊎ (n < max_iter) × Final (complete ms) run.end × (run.calls ≡ suc n))

  module _ (max_iter : ℕ) (start : List Message) where
    on_response-EndsWithin :
        (left n : ℕ) (ms : List Message) (audit : List ToolUse) (o : Option LlmResponse)
        → complete ms ≡ o
        → max_iter ≡ n + suc left
        → Talks start n ms
        → ((ms' : List Message) (a : List ToolUse)
            → Talks start (suc n) ms'
            → EndsWithin max_iter start
                (loop complete execute writes_audit parse_findings left ms' a (suc n)))
        → EndsWithin max_iter start (
            on_response complete execute writes_audit parse_findings
              (loop complete execute writes_audit parse_findings left)
              ms
              audit
              n
              o)
    unfolding on_response
    on_response-EndsWithin left n ms audit none e total talk next =
        (n, ms, talk, inr (omega arith, rw e refl, refl))
    on_response-EndsWithin left n ms audit (some resp) e total talk next =
        elim (Bool-cases (resp.end_turn || is_nil resp.tool_uses)) [
          | inl h ↦ rw h (n, ms, talk, inr (omega arith, rw e (rw h refl, refl), refl))
          | inr h ↦ rw h (next _ _ (answered resp talk e (rw h refl)))
        ]

    loop-EndsWithin :
        (left n : ℕ) (ms : List Message) (audit : List ToolUse)
        → max_iter ≡ n + left
        → Talks start n ms
        → EndsWithin max_iter start
            (loop complete execute writes_audit parse_findings left ms audit n)
    unfolding loop
    loop-EndsWithin zero n ms audit total talk = (n, ms, talk, inl (omega arith, refl, refl))
    loop-EndsWithin (suc left) n ms audit total talk =
        on_response-EndsWithin left n ms audit (complete ms) refl total talk
          λ ms' a t. loop-EndsWithin left (suc n) ms' a (omega arith) t

  -- A review is a conversation that starts with its prompt. Either the model has asked for skills in
  -- each of the `max_iter` turns that are allowed, and the review ends without an answer; or it did so
  -- in fewer turns, and its next answer, the only other one, ends the review: by what is read of it if
  -- it asks for no skill, by a crash if there is none. So the loop asks the model at most `max_iter`
  -- times, and `calls` says how often. What a skill asks of the model on its own, as
  -- `classify_change` does, is no turn.
  pub review_all-EndsWithin :
      (max_iter : ℕ) (prompt : Text)
      → EndsWithin max_iter
          (user_prompt prompt ∷ [])
          (review_all complete execute writes_audit parse_findings max_iter prompt).1
  unfolding review_all
  review_all-EndsWithin max_iter prompt =
      loop-EndsWithin max_iter (user_prompt prompt ∷ []) max_iter 0 (user_prompt prompt ∷ []) []
        (omega arith) opened
