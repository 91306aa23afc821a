-- ===== src/Http/Serving.antt =====
-- internal/gateway/server.go: a stateless request, streamed or not.
use valyrium.Base.{Bool, Option, String, false, inl, inr, refl, ℕ, ◌≡◌, ◌⊎◌}
use valyrium.Cli.{CliError}
use valyrium.Prompt.Reply.{Completion}
use valyrium.Prompt.Format.{requires_json}
use valyrium.Resume.{ResumeStore}
use valyrium.Server.Request.{ResumeTurn}
use valyrium.Turn.Answer.{Reply, cli, error}
use valyrium.Http.{ChatCompletionRequest}
use valyrium.Http.Run.{Outside, plan_options, run_cli}
use valyrium.Http.Chat.{
  Accounting, answer_completion, answer_stateless, completed, handle_streaming_response, instructed,
  no_accounting, stream_completion,
}

module _ {ℓ κ} {Schema : Type ℓ} {Cost : Type κ} (outside : Outside Schema Cost) where
  completed-plain :
      (req : ChatCompletionRequest Schema) (model effort sp prompt : String) (c : Completion Cost)
      → requires_json req.response_format ≡ false
      → completed outside req model effort sp prompt c ≡ c
  unfolding completed
  completed-plain req model effort sp prompt c h = rw h refl

  -- The two ends of a request, for the result of one run.
  same_end :
      (id model effort sp prompt : String) (created : ℕ) (resume : Option ResumeStore)
      (req : ChatCompletionRequest Schema) (result : CliError ⊎ Completion Cost)
      → requires_json req.response_format ≡ false
      → let plain = elim result as (λ _. Option ResumeStore × (Reply Cost × Accounting Cost)) [
        | inl e ↦ (resume, (error (cli e), no_accounting))
        | inr c ↦
            answer_completion outside id created resume req model effort
              (completed outside req model effort sp prompt c)
      ] in
        let streamed = stream_completion outside id created resume req model effort result in
        (plain.0 ≡ streamed.0) × (plain.1.1 ≡ streamed.1.1)
  unfolding stream_completion answer_completion
  same_end id model effort sp prompt created resume req (inl e) h = (refl, refl)
  same_end id model effort sp prompt created resume req (inr c) h =
      rw (completed-plain req model effort sp prompt c h) (refl, refl)

  -- Whether a request asks for a stream makes no difference to what is remembered of it, the session
  -- to resume and the tokens for the ledger, unless its answer must be JSON, where only the answer
  -- that is not streamed is checked.
  pub handle_streaming_response-answer_stateless :
      (id : String) (created : ℕ) (expose : Bool) (resume : Option ResumeStore)
      (req : ChatCompletionRequest Schema) (model effort : String) (plan : ResumeTurn)
      (system_prompt prompt : String)
      → requires_json req.response_format ≡ false
      → let plain =
          answer_stateless outside id created expose resume req model effort plan system_prompt
            prompt in
        let streamed =
          handle_streaming_response outside id created expose resume req model effort plan
            system_prompt prompt in
        (plain.0 ≡ streamed.0) × (plain.1.1 ≡ streamed.1.1)
  unfolding answer_stateless handle_streaming_response
  handle_streaming_response-answer_stateless id created expose resume req model effort plan
        system_prompt prompt h =
      same_end id model effort (instructed outside req system_prompt) prompt created resume req
        (run_cli outside.spawn
          (plan_options model effort expose plan (instructed outside req system_prompt) prompt)).1
        h
