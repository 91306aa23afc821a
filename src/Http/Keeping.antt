-- ===== src/Http/Keeping.antt =====
-- internal/gateway/server.go: `handleChatCompletions` touches the counters of requests and of tokens in its
-- deferred function alone.
use valyrium.Base.{
  Bool, List, Option, String, false, if◌then◌else◌, inl, inr, none, some, true, ℕ, ◌⊎◌,
}
use valyrium.Usage.{UsageStore}
use valyrium.Metrics.{Metrics}
use valyrium.Server.{Status, acquire, cancelled, holds, queued, receives, released}
use valyrium.Session.{SessionManager}
use valyrium.Turn.{Arrival, Turn, collect_turn}
use valyrium.Turn.Answer.{Failure}
use valyrium.Server.Request.{ResumeTurn}
use valyrium.Http.{ChatCompletionRequest}
use valyrium.Http.Run.{Outside}
use valyrium.Http.Chat.{ChatPath, begin_chat, plan_chat, stateless, tool_turn}
use valyrium.Http.Gateway.{Gateway}
use valyrium.Http.Handler.{
  ChatBody, Handled, Surroundings, by_status, collected, end_turn, not_json, released_slot,
  released_slot?, request, run_stateless, run_turn, serve_body, serve_path, serve_planned,
  serve_request, too_large, with_slot,
}

module _ {ℓ} {Cost : Type ℓ} (R : Metrics → UsageStore Cost → Type ℓ) where
  -- What is said of the counters, at a server, and where a handler returns.
  abbrev pub At : Gateway Cost → Type ℓ
  At g = R g.metrics g.usage

  abbrev pub AllAt : Option (Handled Cost) → Type ℓ
  AllAt none = Unit {ℓ}
  AllAt (some h) = At h.gateway

  abbrev pub Keeps : (Gateway Cost → Gateway Cost) → Type ℓ
  Keeps f = (k : Gateway Cost) → R k.metrics k.usage → R (f k).metrics (f k).usage

  released_slot-AllAt : (p : ℕ) (h : Option (Handled Cost)) → AllAt h → AllAt (released_slot? p h)
  unfolding released_slot? released_slot
  released_slot-AllAt p none b = tt
  released_slot-AllAt p (some h) b = b

  by_status-AllAt :
      (p : ℕ) (serve : Gateway Cost → Option (Handled Cost)) (g : Gateway Cost) (st : Option Status)
      → At g
      → AllAt (serve g)
      → AllAt (by_status p serve g st)
  unfolding by_status
  by_status-AllAt p serve g none a b = tt
  by_status-AllAt p serve g (some holds) a b = released_slot-AllAt p (serve g) b
  by_status-AllAt p serve g (some queued) a b = tt
  by_status-AllAt p serve g (some receives) a b = tt
  by_status-AllAt p serve g (some cancelled) a b = a
  by_status-AllAt p serve g (some released) a b = tt

  module _ (o : Surroundings Cost) (waiting : Keeps o.while_waiting)
      (running : Keeps o.while_running) where
    with_slot-AllAt :
        (g : Gateway Cost) (serve : Gateway Cost → Option (Handled Cost))
        → At g
        → ((k : Gateway Cost) → At k → AllAt (serve k))
        → AllAt (with_slot o g serve)
    unfolding with_slot
    with_slot-AllAt g serve a served =
        let there = waiting (record g { slots = acquire g.slots }) a in
        by_status-AllAt _ serve _ _ there (served _ there)

    either-At :
        (b : Bool) (x y : Handled Cost)
        → At x.gateway
        → At y.gateway
        → At (if b then x else y).gateway
    either-At true x y h k = h
    either-At false x y h k = k

    collected-AllAt :
        (stream : Bool) (model : String) (g : Gateway Cost) (sess : ℕ)
        → (ct : Option (Turn Cost × List (Arrival Cost))) → At g
        → AllAt (collected o stream model g sess ct)
    unfolding collected end_turn
    collected-AllAt stream model g sess none a = tt
    collected-AllAt stream model g sess (some (t, rest)) a = either-At stream _ _ a a

    run_turn-AllAt :
        (stream : Bool) (model : String) (g : Gateway Cost)
        → (begun : SessionManager × (Failure ⊎ ℕ)) → At g
        → AllAt (run_turn o stream model g begun)
    unfolding run_turn
    run_turn-AllAt stream model g (sm, inl f) a = a
    run_turn-AllAt stream model g (sm, inr sess) a =
        collected-AllAt stream model _ sess (collect_turn o.arrivals)
          (running (record g { sessions = sm }) a)

    module _ {κ} {Schema : Type κ} (outside : Outside Schema Cost) where
      serve_planned-AllAt :
          (req : ChatCompletionRequest Schema) (model effort : String) (g : Gateway Cost)
          → (plan : ResumeTurn) (prompts : Failure ⊎ (String × String)) → At g
          → AllAt (serve_planned outside o req model effort g plan prompts)
      unfolding serve_planned run_stateless
      serve_planned-AllAt req model effort g plan (inl f) a = a
      serve_planned-AllAt req model effort g plan (inr (system_prompt, prompt)) a =
          with_slot-AllAt g _ a (λ k b. either-At req.stream _ _ (running k b) (running k b))

      serve_path-AllAt :
          (req : ChatCompletionRequest Schema) (model effort : String) (g : Gateway Cost)
          → (path : ChatPath) → At g
          → AllAt (serve_path outside o req model effort g path)
      unfolding serve_path
      serve_path-AllAt req model effort g (tool_turn cont results) a =
          with_slot-AllAt g _ a (λ k b. run_turn-AllAt req.stream model k _ b)
      serve_path-AllAt req model effort g stateless a =
          let planned = plan_chat outside g.resume req model effort in
          serve_planned-AllAt req model effort (record g { resume = planned.0 }) planned.1.0
            planned.1.1 a

      pub serve_body-AllAt :
          (g : Gateway Cost) (body : ChatBody Schema) → At g → AllAt (serve_body outside o g body)
      unfolding serve_body serve_request
      serve_body-AllAt g too_large a = a
      serve_body-AllAt g not_json a = a
      serve_body-AllAt g (request req) a =
          let (sm, path) = begin_chat g.sessions req in
          serve_path-AllAt req _ _ (record g { sessions = sm }) path a
