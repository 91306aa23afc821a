-- ===== src/Http/Charging.antt =====
-- internal/gateway/server.go: what `handleChatCompletions` records, against what it answers.
use valyrium.Base.{
  All, All-append, Bool, Option, String, inl, inr, none, refl, some, subst, ℕ, ◌≡◌, ◌⊎◌,
}
use valyrium.Usage.{UsageStore, record_usage_on}
use valyrium.Metrics.{Metrics, record_request}
use valyrium.Http.Keeping.{AllAt, At, Keeps, serve_body-AllAt}
use valyrium.Http.Billing.{
  AllBilled, Billed, WrittenTells, callback_chunks-All, either-Billed, run_turn-AllBilled,
  turned_down-AllBilled, with_slot-AllBilled,
}
use valyrium.Http.{ChatCompletionRequest, HttpRequest}
use valyrium.Http.Run.{Outside, plan_options, run_cli}
use valyrium.Http.Chat.{
  ChatPath, accounted, answer_completion, answer_stateless, begin_chat, handle_streaming_response,
  instructed, plan_chat, stateless, stream_completion, tool_turn,
}
use valyrium.Http.Gateway.{Gateway, note_chat, note_request}
use valyrium.Http.Handler.{
  ChatBody, Handled, Surroundings, handle_chat_completions, not_json, noted, replied, request,
  run_stateless, serve_body, serve_path, serve_planned, serve_request, served_status, too_large,
}
use valyrium.Cli.{CliError}
use valyrium.Prompt.Reply.{
  Completion, completion_response_with_cost, new_stream_chunk, to_open_ai_usage,
}
use valyrium.Resume.{ResumeStore}
use valyrium.Turn.Answer.{Failure}
use valyrium.Server.Request.{ResumeTurn}

module _ {ℓ κ} {Schema : Type ℓ} {Cost : Type κ} (outside : Outside Schema Cost) where
  answered :
      (r : CliError ⊎ Completion Cost)
      → ((e : CliError) × (r ≡ inl e)) ⊎ ((c : Completion Cost) × (r ≡ inr c))
  answered (inl e) = inl (e, refl)
  answered (inr c) = inr (c, refl)

  stream_completion-Billed :
      (id : String) (created : ℕ) (resume : Option ResumeStore)
      → (req : ChatCompletionRequest Schema) (model effort : String)
      → (result : CliError ⊎ Completion Cost)
      → let out = stream_completion outside id created resume req model effort result in
        All (WrittenTells out.1.1) out.1.0
  unfolding stream_completion new_stream_chunk to_open_ai_usage accounted
  stream_completion-Billed id created resume req model effort (inl e) = (tt, tt)
  stream_completion-Billed id created resume req model effort (inr c) =
      ((refl, refl, refl), (tt, tt))

  handle_streaming_response-Billed :
      (id : String) (created : ℕ) (expose : Bool) (resume : Option ResumeStore)
      → (req : ChatCompletionRequest Schema) (model effort : String) (plan : ResumeTurn)
      → (system_prompt prompt : String)
      → let out =
          handle_streaming_response outside id created expose resume req model effort plan
            system_prompt prompt in
        All (WrittenTells out.1.1) out.1.0
  unfolding handle_streaming_response
  handle_streaming_response-Billed id created expose resume req model effort plan sp prompt = (
    unfold new_stream_chunk in tt,
    All-append _ _ _ (callback_chunks-All _ id created model _)
        (stream_completion-Billed id created resume req model effort _),
  )

  answer_stateless-Billed :
      (id : String) (created : ℕ) (expose : Bool) (resume : Option ResumeStore)
      → (req : ChatCompletionRequest Schema) (model effort : String) (plan : ResumeTurn)
      → (system_prompt prompt : String)
      → let out =
          answer_stateless outside id created expose resume req model effort plan system_prompt
            prompt in
        Billed (replied out.1.0) out.1.1
  unfolding answer_stateless answer_completion completion_response_with_cost to_open_ai_usage
      accounted
  answer_stateless-Billed id created expose resume req model effort plan system_prompt prompt =
      let sp = instructed outside req system_prompt in
      elim (answered (run_cli outside.spawn (plan_options model effort expose plan sp prompt)).1) [
        | inl (e, at) ↦ rw (at, answer_stateless) tt
        | inr (c, at) ↦ rw (at, answer_stateless) (refl, refl, refl)
      ]

  module _ (o : Surroundings Cost) where
    serve_planned-AllBilled :
        (req : ChatCompletionRequest Schema) (model effort : String) (g : Gateway Cost)
        → (plan : ResumeTurn) (prompts : Failure ⊎ (String × String))
        → AllBilled (serve_planned outside o req model effort g plan prompts)
    unfolding serve_planned run_stateless
    serve_planned-AllBilled req model effort g plan (inl f) = turned_down-AllBilled g f
    serve_planned-AllBilled req model effort g plan (inr (system_prompt, prompt)) =
        with_slot-AllBilled o g _ (λ k.
          either-Billed req.stream _ _
            (handle_streaming_response-Billed o.completion_id o.created _ _ req model effort plan
              system_prompt prompt)
            (answer_stateless-Billed o.completion_id o.created _ _ req model effort plan
              system_prompt prompt))

    serve_path-AllBilled :
        (req : ChatCompletionRequest Schema) (model effort : String) (g : Gateway Cost)
        → (path : ChatPath) → AllBilled (serve_path outside o req model effort g path)
    unfolding serve_path
    serve_path-AllBilled req model effort g (tool_turn cont results) =
        with_slot-AllBilled o g _ (λ k. run_turn-AllBilled o req.stream model k _)
    serve_path-AllBilled req model effort g stateless =
        let planned = plan_chat outside g.resume req model effort in
        serve_planned-AllBilled req model effort (record g { resume = planned.0 }) planned.1.0
          planned.1.1

    serve_body-AllBilled :
        (g : Gateway Cost) (body : ChatBody Schema) → AllBilled (serve_body outside o g body)
    unfolding serve_body serve_request
    serve_body-AllBilled g too_large = refl
    serve_body-AllBilled g not_json = refl
    serve_body-AllBilled g (request req) =
        let (sm, path) = begin_chat g.sessions req in
        serve_path-AllBilled req _ _ (record g { sessions = sm }) path

    -- What is recorded: the count of the request under the answer's status, and the tokens.
    abbrev pub Recorded :
        (Cost → Cost → Cost) → Cost → HttpRequest → Gateway Cost → Handled Cost → Type κ
    Recorded plus nought r before h =
        (h.gateway.metrics
          ≡ record_request before.metrics r.method r.path (served_status h.served) o.duration)
        × (h.gateway.usage
            ≡ record_usage_on plus nought before.usage o.today h.accounting.prompt_tokens
                h.accounting.completion_tokens h.accounting.cost_usd o.saved)

    abbrev AllRecorded :
        (Metrics → UsageStore Cost → Type κ)
        → (Cost → Cost → Cost)
        → Cost
        → HttpRequest
        → Option (Handled Cost)
        → Type κ
    AllRecorded R plus nought r none = Unit {κ}
    AllRecorded R plus nought r (some h) =
        (before : Gateway Cost) × At R before
        × Recorded plus nought r before h
        × Billed h.served h.accounting

    noted-AllRecorded :
        (R : Metrics → UsageStore Cost → Type κ) (plus : Cost → Cost → Cost) (nought : Cost)
        → (r : HttpRequest) (mh : Option (Handled Cost)) → AllAt R mh
        → AllBilled mh
        → AllRecorded R plus nought r (noted outside o plus nought r mh)
    unfolding noted note_chat note_request
    noted-AllRecorded R plus nought r none a b = tt
    noted-AllRecorded R plus nought r (some h) a b = (h.gateway, a, (refl, refl), b)

    -- Whichever way `handleChatCompletions` returns, it records exactly once: whatever held of the
    -- counters and of the ledger when it began, and is kept by what others do to them meanwhile, still
    -- holds of those that it adds the request to, which are the ones it leaves but for this request. So
    -- where others leave them alone, they are those that it began with. The request is counted under
    -- the status that the client got; and the tokens and the cost that go into today's ledger are
    -- those that the answer tells the client, or each chunk of a stream that has a usage, and none where
    -- the handler turns the request down itself.
    pub handle_chat_completions-Billed :
        (R : Metrics → UsageStore Cost → Type κ) (plus : Cost → Cost → Cost) (nought : Cost)
        → (g : Gateway Cost) (r : HttpRequest) (body : ChatBody Schema) (h : Handled Cost)
        → R g.metrics g.usage
        → Keeps R o.while_waiting
        → Keeps R o.while_running
        → handle_chat_completions outside o plus nought g r body ≡ some h
        → (before : Gateway Cost) × R before.metrics before.usage
          × Recorded plus nought r before h
          × Billed h.served h.accounting
    unfolding handle_chat_completions
    handle_chat_completions-Billed R plus nought g r body h a waiting running e =
        subst (AllRecorded R plus nought r) e (
          noted-AllRecorded R plus nought r (serve_body outside o g body)
            (serve_body-AllAt R o waiting running outside g body a) (serve_body-AllBilled g body))
