-- ===== src/Turn/Tests.antt =====
-- A turn that calls a tool, and one that ends its run.
use valyrium.Base.{List, Option, String, [], false, map, none, refl, some, true, ℕ, ◌∷◌, ◌≡◌}
use valyrium.Cli.Relay.{
  SessionEvent, relay_session_stream, run_end, stop_event, text_event, tool_calls_event,
}
use valyrium.Turn.{
  Arrival, Turn, collect_event, collect_from, collect_turn, event, is_tool_use, new_turn, turn_done,
}
use valyrium.Turn.Streaming.{brought, collect_turn_streams}
use valyrium.Cli.{Output}
use valyrium.Cli.Example.{output}
use valyrium.Cli.Pieces.{reasoning_pieces, text_pieces}
use valyrium.Session.{SessionManager, get_session, session_id_of}
use valyrium.Session.Example.{busy, index, ls, manager}
use valyrium.Turn.Finish.{finish_turn, parks}
use valyrium.Turn.Stream.{stream_tool_turn}
use valyrium.Turn.Collect.{IsTurn, channel_of, collect_turn-relay_session_stream}
use valyrium.Turn.Lifecycle.{finish_turn-release_session}

abbrev tool_events : List (Arrival ℕ)
tool_events =
    event (text_event "let me ")
    ∷ event (text_event "look")
    ∷ event (tool_calls_event "sonnet" (ls ∷ []))
    ∷ event (stop_event (some "tool_use") none)
    ∷ event (text_event "later")
    ∷ []

abbrev tool_turn : Turn ℕ
tool_turn = (elim (collect_turn tool_events) [ none ↦ new_turn | some r ↦ r.0 ])

tool_turn-collected : collect_turn tool_events ≡ some (tool_turn, event (text_event "later") ∷ [])
unfolding collect_turn collect_from collect_event new_turn turn_done is_tool_use
tool_turn-collected = refl

collect_turn_streams_example :
    (reasoning_pieces tool_turn.callbacks ≡ tool_turn.outcome.reasoning_text)
    × (tool_turn.outcome.text ≡ text_pieces tool_turn.callbacks)
unfolding text_pieces collect_turn collect_from turn_done collect_event new_turn is_tool_use
collect_turn_streams_example =
    collect_turn_streams tool_events (event (text_event "later") ∷ []) tool_turn tool_turn-collected

-- A run that ends with a text of its own, or without one.
abbrev ended_with : Option String → List (Arrival ℕ)
ended_with result = event (text_event "a") ∷ event (run_end result none none none none) ∷ []

kept_text : (text : String) → brought (ended_with (some text)) ≡ some text
unfolding brought
kept_text text = refl

finish_turn-release_session_example :
    let out = tool_turn.outcome in
    let after = (finish_turn "c1" 7 "sonnet" (manager busy index) 0 out).0 in
    ((stream_tool_turn "c1" 7 "sonnet" (manager busy index) 0 tool_turn).0 ≡ after)
    × ((parks out ≡ true → after ≡ manager busy index)
        × (parks out ≡ false → get_session after (session_id_of (manager busy index) 0) ≡ none))
finish_turn-release_session_example =
    finish_turn-release_session (manager busy index) 0 tool_turn "c1" "sonnet" 7

abbrev lines : List ((SessionManager → SessionManager) × Output ℕ)
lines = map (λ o. ((λ sm. sm), o)) (output 82)

collect_turn-relay_session_stream_example :
    (t : Turn ℕ) × ((rest : List (SessionEvent ℕ)) × ((collect_turn (
            channel_of
              (relay_session_stream
                (λ n. "call_1")
                (λ s. s)
                false
                0
                (manager busy index)
                lines).sent)
          ≡ some (t, channel_of rest))
        × IsTurn t rest))
collect_turn-relay_session_stream_example =
    collect_turn-relay_session_stream (λ n. "call_1") (λ s. s) false 0 (manager busy index) lines
