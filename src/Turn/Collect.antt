-- ===== src/Turn/Collect.antt =====
-- internal/gateway/server.go, `collectTurn`, on the events of `relaySessionStream` in
-- internal/gateway/claudecli.go.
use valyrium.Base.{
  Bool, Bool-cases, List, String, [], arith, false, inl, inr, map, none, refl, some, ℕ, ◌++◌, ◌∙◌,
  ◌∷◌, ◌≡◌, ◌⊎◌,
}
use valyrium.Cli.{Output}
use valyrium.Cli.Relay.{
  SessionEvent, reasoning_event, relay_session_stream, run_end, stop_event, text_event,
  tool_calls_event,
}
use valyrium.Cli.Ending.{ends_run, is_end, relay_session_stream-ends_run}
use valyrium.Turn.{
  Arrival, Turn, collect_event, collect_from, collect_turn, ended, event, events_closed, new_turn,
  turn_done,
}
use valyrium.Session.{SessionManager}
use mathlib.Core.Bool.{true}

module _ {ℓ} {Cost : Type ℓ} where
  -- The channel of a session once its CLI is done: the events, and its end.
  abbrev pub channel_of : List (SessionEvent Cost) → List (Arrival Cost)
  channel_of evs = map event evs ++ events_closed ∷ []

  is_end-final :
      (t : Turn Cost) (ev : SessionEvent Cost)
      → is_end ev ≡ true
      → (collect_event t ev).outcome.final ≡ true
  unfolding is_end collect_event ended
  is_end-final t (text_event s) h = absurd (cc h)
  is_end-final t (reasoning_event s) h = absurd (cc h)
  is_end-final t (stop_event r u) h = absurd (cc h)
  is_end-final t (tool_calls_event m us) h = absurd (cc h)
  is_end-final t (run_end r s u c none) h = refl
  is_end-final t (run_end r s u c (some e)) h = refl

  -- What a turn that ends by an event leaves: all that is to come, or the end of the run.
  abbrev pub IsTurn : Turn Cost → List (SessionEvent Cost) → Type 0
  IsTurn t rest = (t.outcome.final ≡ true) ⊎ (ends_run rest ≡ true)

  collect_event-IsTurn :
      (t : Turn Cost) (ev : SessionEvent Cost) (evs : List (SessionEvent Cost))
      → ends_run (ev ∷ evs) ≡ true
      → IsTurn (collect_event t ev) evs
  unfolding ends_run
  collect_event-IsTurn t ev evs h = elim (Bool-cases (is_end ev)) [
    | inl e ↦ inl (is_end-final t ev e)
    | inr e ↦ inr (ground (arith, h, e))
  ]

  not_done-ends_run :
      (t : Turn Cost) (rest : List (SessionEvent Cost))
      → IsTurn t rest
      → turn_done t ≡ false
      → ends_run rest ≡ true
  unfolding turn_done
  not_done-ends_run t rest (inl final) more = absurd (ground (arith, final, more))
  not_done-ends_run t rest (inr e) more = e

  pub collect_from-done :
      (t : Turn Cost) (ev : SessionEvent Cost) (queue : List (Arrival Cost))
      → turn_done (collect_event t ev) ≡ true
      → collect_from t (event ev ∷ queue) ≡ some (collect_event t ev, queue)
  unfolding collect_from
  collect_from-done t ev queue h = rw (h, collect_from) refl

  pub collect_from-more :
      (t : Turn Cost) (ev : SessionEvent Cost) (queue : List (Arrival Cost))
      → turn_done (collect_event t ev) ≡ false
      → collect_from t (event ev ∷ queue) ≡ collect_from (collect_event t ev) queue
  unfolding collect_from
  collect_from-more t ev queue h = rw (h, collect_from) refl

  collect_from-ends_run :
      (t : Turn Cost) (evs : List (SessionEvent Cost))
      → ends_run evs ≡ true
      → (t' : Turn Cost) × ((rest : List (SessionEvent Cost)) × ((collect_from t (channel_of evs)
              ≡ some (t', channel_of rest))
            × IsTurn t' rest))
  unfolding collect_from
  collect_from-ends_run t [] h = absurd (unfold ends_run in cc h)
  collect_from-ends_run t (ev ∷ evs) h = elim (Bool-cases (turn_done (collect_event t ev))) [
    | inl finished ↦ (
      collect_event t ev,
      (evs, (collect_from-done t ev _ finished, collect_event-IsTurn t ev evs h)),
    )
    | inr more ↦
        let (t', (rest, (e, done))) =
          collect_from-ends_run (collect_event t ev) evs
            (not_done-ends_run _ evs (collect_event-IsTurn t ev evs h) more) in
        (t', (rest, (collect_from-more t ev _ more ∙ e, done)))
  ]

  -- Whatever the CLI of a session prints, a turn that reads all its events returns on one of them,
  -- never at the end of the channel; and either that one ended the run, or another that ends it
  -- stands in the channel for the next turn.
  pub collect_turn-relay_session_stream :
      (mint : ℕ → String) (canonical : String → String) (expose : Bool) (sess : ℕ)
      (sm : SessionManager) (os : List ((SessionManager → SessionManager) × Output Cost))
      → (t : Turn Cost) × ((rest : List (SessionEvent Cost)) × ((collect_turn
                (channel_of (relay_session_stream mint canonical expose sess sm os).sent)
              ≡ some (t, channel_of rest))
            × IsTurn t rest))
  unfolding collect_turn
  collect_turn-relay_session_stream mint canonical expose sess sm os =
      collect_from-ends_run new_turn _
        (relay_session_stream-ends_run mint canonical expose sess sm os)
