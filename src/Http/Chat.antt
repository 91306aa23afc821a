-- ===== src/Http/Chat.antt =====
-- internal/gateway/server.go: `handleChatCompletions` and `handleStreamingResponse`, stage by stage. What
-- others do to the tables while a request waits for its slot stands between the functions.
use valyrium.Base.{
  Bool, List, Option, String, [], if◌then◌else◌, inl, inr, none, some, ℕ, ◌++◌, ◌+t◌, ◌+◌, ◌=t◌,
  ◌∷◌, ◌⊎◌,
}
use valyrium.Cli.{CliError}
use valyrium.Prompt.{OpenAiMessage, PromptError, build_prompt, system_prompt}
use valyrium.Prompt.Plan.{resume_fingerprint}
use valyrium.Prompt.Reply.{
  Completion, Usage, completion_response_with_cost, map_finish_reason, new_stream_chunk,
  to_open_ai_usage,
}
use valyrium.Prompt.Format.{requires_json, response_format_instruction, validate_json_response}
use valyrium.Resume.{ResumeStore}
use valyrium.Server.Request.{
  ResumeTurn, plan_resume_turn, record_resumable_session, referenced_tool_call_ids,
}
use valyrium.Session.{SessionManager, reap_superseded, session_id_of}
use valyrium.Turn.Answer.{Failure, Reply, ToolResult, bad_prompt, cli, error, response}
use valyrium.Turn.Stream.{
  Written, callback_chunks, chunk, done_line, empty_delta, error_chunk, role_delta,
}
use valyrium.Http.Run.{
  Outside, json_error_text, json_retry_prompt, plan_options, retried, retry_options, run_cli,
}
use valyrium.Http.{ChatCompletionRequest, find_continuation_session, wants_tools}

-- How a request is served, once its history is known.
pub data ChatPath : Type 0 where
  tool_turn : Option ℕ → List ToolResult → ChatPath
  stateless : ChatPath

-- The session whose id `ReapSuperseded` keeps.
unfoldable pub kept_id : SessionManager → Option ℕ → Option String
kept_id sm none = none
kept_id sm (some sess) = some (session_id_of sm sess)

-- The handler up to `slots.Acquire`: the superseded sessions go, and the path is chosen.
unfoldable pub begin_chat {ℓ} :
    {Schema : Type ℓ} → SessionManager → ChatCompletionRequest Schema → SessionManager × ChatPath
begin_chat sm req =
    let (cont, results) = find_continuation_session sm req.messages in
    let (sm', reaped) =
      reap_superseded sm (referenced_tool_call_ids req.messages) (kept_id sm cont) in
    (
      sm',
      (elim cont [
        | some sess ↦ tool_turn (some sess) results
        | none ↦ if wants_tools req then tool_turn none results else stateless
      ]),
    )

-- The prompts of a plan that missed.
unfoldable pub built_prompts :
    ResumeTurn → PromptError ⊎ (String × String) → Failure ⊎ (String × String)
built_prompts plan (inl e) = inl (bad_prompt e)
built_prompts plan (inr prompts) = inr prompts

unfoldable pub planned_prompts : ResumeTurn → List OpenAiMessage → Failure ⊎ (String × String)
planned_prompts plan msgs =
    if plan.hit
    then inr (plan.system_prompt, plan.prompt)
    else built_prompts plan (build_prompt msgs)

unfoldable pub with_instruction : String → String → String
with_instruction instruction system_prompt =
    if instruction =t "" then system_prompt else system_prompt +t ("\n\n" +t instruction)

-- What a request adds to the ledger.
pub record Accounting {ℓ} (Cost : Type ℓ) : Type ℓ where
  pub prompt_tokens : ℕ
  pub completion_tokens : ℕ
  pub cost_usd : Option Cost

module _ {ℓ} {Cost : Type ℓ} where
  unfoldable pub no_accounting : Accounting Cost
  no_accounting = record { prompt_tokens = 0; completion_tokens = 0; cost_usd = none }

  unfoldable pub accounted : Usage → Option Cost → Accounting Cost
  accounted u cost = record {
    prompt_tokens = u.input_tokens + u.cache_read_input_tokens + u.cache_creation_input_tokens;
    completion_tokens = u.output_tokens;
    cost_usd = cost;
  }

module _ {ℓ κ} {Schema : Type ℓ} {Cost : Type κ} (outside : Outside Schema Cost) where
  unfoldable pub fingerprint : String → String → List OpenAiMessage → String
  fingerprint model effort msgs = resume_fingerprint outside.hash msgs model effort

  -- The plan of a stateless request, and its prompts or the answer that turns it down.
  unfoldable pub plan_chat :
      Option ResumeStore
      → ChatCompletionRequest Schema
      → String
      → String
      → Option ResumeStore × (ResumeTurn × (Failure ⊎ (String × String)))
  plan_chat resume req model effort =
      let (resume', plan) = plan_resume_turn (fingerprint model effort) resume req.messages in
      (resume', (plan, planned_prompts plan req.messages))

  -- The system prompt with what the response format asks for.
  unfoldable pub instructed : ChatCompletionRequest Schema → String → String
  instructed req system_prompt =
      with_instruction (response_format_instruction outside.marshal req.response_format)
        system_prompt

  -- The completion that is answered: the first one, or that of the one retry.
  unfoldable pub completed :
      ChatCompletionRequest Schema
      → String
      → String
      → String
      → String
      → Completion Cost
      → Completion Cost
  completed req model effort system_prompt prompt c =
      if requires_json req.response_format
      then (elim (validate_json_response outside.unmarshal c.text req.response_format) [
        | none ↦ c
        | some e ↦
            let again =
              json_retry_prompt prompt c.text (json_error_text e (outside.parse_error c.text)) in
            retried c (run_cli outside.spawn (retry_options model effort system_prompt again)).1
      ])
      else c

  unfoldable pub record_turn :
      Option ResumeStore
      → ChatCompletionRequest Schema
      → String
      → String
      → Completion Cost
      → Option ResumeStore
  record_turn resume req model effort c =
      record_resumable_session (fingerprint model effort) resume req.messages c.text
        c.cli_session_id

  unfoldable pub answer_completion :
      String
      → ℕ
      → Option ResumeStore
      → ChatCompletionRequest Schema
      → String
      → String
      → Completion Cost
      → Option ResumeStore × (Reply Cost × Accounting Cost)
  answer_completion id created resume req model effort c = (
    record_turn resume req model effort c,
    (response (completion_response_with_cost id created c), accounted c.usage c.cost_usd),
  )

  -- The end of `handleChatCompletions` for a request that is not streamed.
  unfoldable pub answer_stateless :
      String
      → ℕ
      → Bool
      → Option ResumeStore
      → ChatCompletionRequest Schema
      → String
      → String
      → ResumeTurn
      → String
      → String
      → Option ResumeStore × (Reply Cost × Accounting Cost)
  answer_stateless id created expose resume req model effort plan system_prompt prompt =
      let sp = instructed req system_prompt in
      elim (run_cli outside.spawn (plan_options model effort expose plan sp prompt)).1 [
        | inl e ↦ (resume, (error (cli e), no_accounting))
        | inr c ↦
            answer_completion id created resume req model effort
              (completed req model effort sp prompt c)
      ]

  unfoldable pub stream_completion :
      String
      → ℕ
      → Option ResumeStore
      → ChatCompletionRequest Schema
      → String
      → String
      → CliError ⊎ Completion Cost
      → Option ResumeStore × (List (Written Cost) × Accounting Cost)
  stream_completion id created resume req model effort (inl e) =
      (resume, (error_chunk e ∷ [], no_accounting))
  stream_completion id created resume req model effort (inr c) = (
    record_turn resume req model effort c,
    (
      chunk (
            new_stream_chunk id created c.model empty_delta (some (map_finish_reason c.stop_reason))
              (some (to_open_ai_usage c.usage c.cost_usd)))
          ∷ done_line
          ∷ [],
      accounted c.usage c.cost_usd,
    ),
  )

  -- `handleStreamingResponse`.
  unfoldable pub handle_streaming_response :
      String
      → ℕ
      → Bool
      → Option ResumeStore
      → ChatCompletionRequest Schema
      → String
      → String
      → ResumeTurn
      → String
      → String
      → Option ResumeStore × (List (Written Cost) × Accounting Cost)
  handle_streaming_response id created expose resume req model effort plan system_prompt prompt =
      let (callbacks, result) =
        run_cli outside.spawn
          (plan_options model effort expose plan (instructed req system_prompt) prompt) in
      let (resume', (last, accounting)) =
        stream_completion id created resume req model effort result in
      (
        resume',
        (
          chunk (new_stream_chunk id created model role_delta none none)
                ∷ callback_chunks id created model callbacks
              ++ last,
          accounting,
        ),
      )
