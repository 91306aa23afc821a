-- ===== src/Http/Handler.antt =====
-- internal/gateway/server.go: `handleChatCompletions` from the body of a request to what is noted of it. What
-- others do to the server while it waits for its slot, and while the CLI runs, are two functions of
-- its surroundings.
use valyrium.Usage.{SaveSteps}
use valyrium.Http.{ChatCompletionRequest, HttpRequest, resolve_model}
use valyrium.Http.Run.{Outside}
use valyrium.Http.Chat.{
  Accounting, ChatPath, answer_stateless, begin_chat, handle_streaming_response, no_accounting,
  plan_chat, stateless, tool_turn,
}
use valyrium.Http.Gateway.{Gateway, note_chat, stream_turn_accounting, turn_accounting}
use valyrium.Base.{
  Bool, List, Option, String, get_elem?, if◌then◌else◌, inl, inr, length, none, some, ℕ, ◌⊎◌,
}
use valyrium.Cli.{CliError}
use valyrium.Server.{Status, acquire, cancelled, give_back, holds, queued, receives, released}
use valyrium.Server.Request.{ResumeTurn, resolve_effort}
use valyrium.Session.{SessionManager}
use valyrium.Turn.{Arrival, Turn, collect_turn}
use valyrium.Turn.Answer.{
  Failure, Reply, begin_turn, body_too_large, error, invalid_json, status, unavailable,
}
use valyrium.Turn.Finish.{finish_turn}
use valyrium.Turn.Stream.{Written, stream_tool_turn}
use valyrium.Usage.Calendar.{Date}

-- The body as `readBody` and the JSON decoder leave it.
pub data ChatBody {ℓ} (Schema : Type ℓ) : Type ℓ where
  too_large not_json : ChatBody Schema
  request : ChatCompletionRequest Schema → ChatBody Schema

pub data Served {ℓ} (Cost : Type ℓ) : Type ℓ where
  replied : Reply Cost → Served Cost
  streamed : List (Written Cost) → Served Cost

unfoldable pub served_status {ℓ} : {Cost : Type ℓ} → Served Cost → ℕ
served_status (replied reply) = status reply
served_status (streamed written) = 200

-- Where the handler is when it returns: the server, the answer, and what goes to the ledger.
pub record Handled {ℓ} (Cost : Type ℓ) : Type ℓ where
  pub gateway : Gateway Cost
  pub served : Served Cost
  pub accounting : Accounting Cost

-- The ids, the times and the outcomes that the handler meets, and what others do meanwhile.
pub record Surroundings {ℓ} (Cost : Type ℓ) : Type ℓ where
  pub to_lower : String → String
  pub trim_space : String → String
  pub completion_id : String
  pub created : ℕ
  pub session_id : String
  pub now : ℕ
  pub while_waiting : Gateway Cost → Gateway Cost
  pub while_running : Gateway Cost → Gateway Cost
  pub start_error : Option CliError
  pub arrivals : List (Arrival Cost)
  pub duration : ℕ
  pub today : Date
  pub saved : SaveSteps Cost

module _ {ℓ} {Cost : Type ℓ} where
  abbrev pub turned_down : Gateway Cost → Failure → Handled Cost
  turned_down g f = record { gateway = g; served = replied (error f); accounting = no_accounting }

  unfoldable pub released_slot : ℕ → Handled Cost → Handled Cost
  released_slot p h = record h {
    gateway = record h.gateway { slots = give_back h.gateway.slots p };
  }

  unfoldable pub released_slot? : ℕ → Option (Handled Cost) → Option (Handled Cost)
  released_slot? p none = none
  released_slot? p (some h) = some (released_slot p h)

  -- After `Acquire`: its caller holds a slot or was cancelled, or it still waits.
  unfoldable pub by_status :
      ℕ
      → (Gateway Cost → Option (Handled Cost))
      → Gateway Cost
      → Option Status
      → Option (Handled Cost)
  by_status p serve g none = none
  by_status p serve g (some holds) = released_slot? p (serve g)
  by_status p serve g (some queued) = none
  by_status p serve g (some receives) = none
  by_status p serve g (some cancelled) = some (turned_down g unavailable)
  by_status p serve g (some released) = none

  unfoldable pub with_slot :
      Surroundings Cost
      → Gateway Cost
      → (Gateway Cost → Option (Handled Cost))
      → Option (Handled Cost)
  with_slot o g serve =
      let p = length g.slots.callers in
      let g' = o.while_waiting (record g { slots = acquire g.slots }) in
      by_status p serve g' (get_elem? g'.slots.callers p)

  -- The end of `handleToolTurn` or `streamToolTurn`.
  unfoldable pub end_turn :
      Surroundings Cost → Bool → String → Gateway Cost → ℕ → Turn Cost → Handled Cost
  end_turn o stream model g sess t =
      if stream
      then (let (sm, written) =
            stream_tool_turn o.completion_id o.created model g.sessions sess t in
          record {
            gateway = record g { sessions = sm };
            served = streamed written;
            accounting = stream_turn_accounting t.outcome;
          })
      else (let (sm, reply) =
            finish_turn o.completion_id o.created model g.sessions sess t.outcome in
          record {
            gateway = record g { sessions = sm };
            served = replied reply;
            accounting = turn_accounting t.outcome;
          })

  unfoldable pub collected :
      Surroundings Cost
      → Bool
      → String
      → Gateway Cost
      → ℕ
      → Option (Turn Cost × List (Arrival Cost))
      → Option (Handled Cost)
  collected o stream model g sess none = none
  collected o stream model g sess (some (t, rest)) = some (end_turn o stream model g sess t)

  -- `handleToolTurn`, after its session was found or made.
  unfoldable pub run_turn :
      Surroundings Cost
      → Bool
      → String
      → Gateway Cost
      → SessionManager × (Failure ⊎ ℕ)
      → Option (Handled Cost)
  run_turn o stream model g (sm, inl failure) =
      some (turned_down (record g { sessions = sm }) failure)
  run_turn o stream model g (sm, inr sess) =
      collected o stream model (o.while_running (record g { sessions = sm })) sess
        (collect_turn o.arrivals)

module _ {ℓ κ} {Schema : Type ℓ} {Cost : Type κ} (outside : Outside Schema Cost)
    (o : Surroundings Cost) where
  -- The runs of a stateless request.
  unfoldable pub run_stateless :
      ChatCompletionRequest Schema
      → String
      → String
      → ResumeTurn
      → String
      → String
      → Gateway Cost
      → Handled Cost
  run_stateless req model effort plan system_prompt prompt before =
      let g = o.while_running before in
      if req.stream
      then (let (resume, (written, accounting)) =
            handle_streaming_response outside o.completion_id o.created g.config.expose_reasoning
              g.resume req model effort plan system_prompt prompt in
          record {
            gateway = record g { resume = resume };
            served = streamed written;
            accounting = accounting;
          })
      else (let (resume, (reply, accounting)) =
            answer_stateless outside o.completion_id o.created g.config.expose_reasoning g.resume
              req model effort plan system_prompt prompt in
          record {
            gateway = record g { resume = resume };
            served = replied reply;
            accounting = accounting;
          })

  unfoldable pub serve_planned :
      ChatCompletionRequest Schema
      → String
      → String
      → Gateway Cost
      → ResumeTurn
      → Failure ⊎ (String × String)
      → Option (Handled Cost)
  serve_planned req model effort g plan (inl failure) = some (turned_down g failure)
  serve_planned req model effort g plan (inr (system_prompt, prompt)) =
      with_slot o g (λ k. some (run_stateless req model effort plan system_prompt prompt k))

  unfoldable pub serve_path :
      ChatCompletionRequest Schema
      → String
      → String
      → Gateway Cost
      → ChatPath
      → Option (Handled Cost)
  serve_path req model effort g (tool_turn cont results) = with_slot o g (λ k.
      run_turn o req.stream model k (
        begin_turn k.sessions req.messages req.tools cont results o.session_id o.now o.start_error))
  serve_path req model effort g stateless =
      let (resume, (plan, prompts)) = plan_chat outside g.resume req model effort in
      serve_planned req model effort (record g { resume = resume }) plan prompts

  unfoldable pub serve_request : Gateway Cost → ChatCompletionRequest Schema → Option (Handled Cost)
  serve_request g req =
      let model =
        resolve_model o.to_lower o.trim_space g.config.default_model g.config.models req.model in
      let (sm, path) = begin_chat g.sessions req in
      serve_path req model (resolve_effort req.reasoning_effort req.reasoning)
        (record g { sessions = sm }) path

  unfoldable pub serve_body : Gateway Cost → ChatBody Schema → Option (Handled Cost)
  serve_body g too_large = some (turned_down g body_too_large)
  serve_body g not_json = some (turned_down g invalid_json)
  serve_body g (request req) = serve_request g req

  module _ (plus : Cost → Cost → Cost) (nought : Cost) where
    -- The deferred function, for a handler that returns.
    unfoldable pub noted : HttpRequest → Option (Handled Cost) → Option (Handled Cost)
    noted r none = none
    noted r (some h) = some (record h {
      gateway =
          note_chat plus nought h.gateway r (served_status h.served) o.duration h.accounting o.today
            o.saved;
    })

    -- `handleChatCompletions`; `none` while it waits.
    unfoldable pub handle_chat_completions :
        Gateway Cost → HttpRequest → ChatBody Schema → Option (Handled Cost)
    handle_chat_completions g r body = noted r (serve_body g body)
