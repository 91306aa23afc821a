-- ===== src/Turn.antt =====
-- internal/gateway/server.go: `collectTurn`, the loop that collects one turn of a tool-calling
-- session from its events.
mod Tests
pub mod Answer
pub mod Finish
pub mod Stream
pub mod Collect
pub mod Lifecycle
pub mod Streaming
use valyrium.Base.{
  Bool, List, Option, String, [], false, if◌then◌else◌, length, none, not, some, true, ◌&&◌, ◌++◌,
  ◌+t◌, ◌==◌, ◌=t◌, ◌||◌, ◌∷◌,
}
use valyrium.Cli.{
  Callback, CliError, disconnected, reasoning_delta, stream_ended, text_delta, timed_out,
}
use valyrium.Cli.Run.{no_usage, or_else}
use valyrium.Cli.Relay.{
  SessionEvent, reasoning_event, run_end, stop_event, text_event, tool_calls_event,
}
use valyrium.Prompt.Reply.{Usage}
use valyrium.Session.Calls.{Announced}

pub record TurnOutcome {ℓ} (Cost : Type ℓ) : Type ℓ where
  pub text : String
  pub reasoning_text : String
  pub calls : List Announced
  pub model : String
  pub stop_reason : Option String
  pub usage : Usage
  pub cost_usd : Option Cost
  pub final : Bool
  pub err : Option CliError

-- The variables of `collectTurn`, with the callbacks that it has made.
pub record Turn {ℓ} (Cost : Type ℓ) : Type ℓ where
  pub outcome : TurnOutcome Cost
  pub saw_tool_stop : Bool
  pub callbacks : List Callback

-- What the select of the loop may take.
pub data Arrival {ℓ} (Cost : Type ℓ) : Type ℓ where
  event : SessionEvent Cost → Arrival Cost
  events_closed timeout context_done : Arrival Cost

unfoldable pub is_tool_use : Option String → Bool
is_tool_use none = false
is_tool_use (some reason) = reason =t "tool_use"

module _ {ℓ} {Cost : Type ℓ} where
  unfoldable pub new_turn : Turn Cost
  new_turn = record {
    outcome = record {
      text = "";
      reasoning_text = "";
      calls = [];
      model = "";
      stop_reason = none;
      usage = no_usage;
      cost_usd = none;
      final = false;
      err = none;
    };
    saw_tool_stop = false;
    callbacks = [];
  }

  -- The case "run_end" after its error.
  unfoldable pub ended :
      TurnOutcome Cost
      → Option String
      → Option String
      → Option Usage
      → Option Cost
      → TurnOutcome Cost
  ended out result_text stop_reason usage cost_usd = record out {
    text = (elim result_text [ none ↦ out.text | some text ↦ text ]);
    stop_reason = or_else stop_reason out.stop_reason;
    usage = (elim usage [ none ↦ out.usage | some u ↦ u ]);
    cost_usd = cost_usd;
    final = true;
  }

  -- The switch on the type of an event.
  unfoldable pub collect_event : Turn Cost → SessionEvent Cost → Turn Cost
  collect_event t (text_event s) = record t {
    outcome = record t.outcome { text = t.outcome.text +t s };
    callbacks = t.callbacks ++ text_delta s ∷ [];
  }
  collect_event t (reasoning_event s) = record t {
    outcome = record t.outcome { reasoning_text = t.outcome.reasoning_text +t s };
    callbacks = t.callbacks ++ reasoning_delta s ∷ [];
  }
  collect_event t (tool_calls_event model calls) = record t {
    outcome = record t.outcome {
      model = if model =t "" then t.outcome.model else model;
      calls = t.outcome.calls ++ calls;
    };
  }
  collect_event t (stop_event stop_reason usage) = record t {
    outcome = record t.outcome {
      stop_reason = or_else stop_reason t.outcome.stop_reason;
      usage = (elim usage [ none ↦ t.outcome.usage | some u ↦ u ]);
    };
    saw_tool_stop = t.saw_tool_stop || is_tool_use stop_reason;
  }
  collect_event t (run_end result_text stop_reason usage cost_usd (some e)) = record t {
    outcome = record t.outcome { final = true; err = some e };
  }
  collect_event t (run_end result_text stop_reason usage cost_usd none) = record t {
    outcome = ended t.outcome result_text stop_reason usage cost_usd;
  }

  -- The two returns after an event.
  unfoldable pub turn_done : Turn Cost → Bool
  turn_done t = t.outcome.final || (t.saw_tool_stop && not (length t.outcome.calls == 0))

  unfoldable pub failed : Turn Cost → CliError → Turn Cost
  failed t e = record t { outcome = record t.outcome { err = some e } }

  -- The loop, and what it leaves in the channel; `none` while it waits.
  unfoldable pub collect_from :
      Turn Cost → List (Arrival Cost) → Option (Turn Cost × List (Arrival Cost))
  collect_from t [] = none
  collect_from t (event ev ∷ queue) = elim (turn_done (collect_event t ev)) [
    | true ↦ some (collect_event t ev, queue)
    | false ↦ collect_from (collect_event t ev) queue
  ]
  collect_from t (events_closed ∷ queue) = some (failed t stream_ended, queue)
  collect_from t (timeout ∷ queue) = some (failed t timed_out, queue)
  collect_from t (context_done ∷ queue) = some (failed t disconnected, queue)

  unfoldable pub collect_turn : List (Arrival Cost) → Option (Turn Cost × List (Arrival Cost))
  collect_turn queue = collect_from new_turn queue
