-- ===== src/Turn/Stream.antt =====
-- internal/gateway/server.go: `streamToolTurn`, what a client reads that asked for a stream.
use valyrium.Base.{List, String, [], if◌then◌else◌, map, none, some, ℕ, ◌++◌, ◌∷◌}
use valyrium.Cli.{Callback, CliError, reasoning_delta, text_delta}
use valyrium.Prompt.{ToolCall}
use valyrium.Prompt.Reply.{
  StreamChunk, map_finish_reason, new_stream_chunk, to_open_ai_usage, tool_calls_from_pending,
}
use valyrium.Session.{SessionManager}
use valyrium.Session.Calls.{new_call}
use valyrium.Turn.{Turn, TurnOutcome}
use valyrium.Turn.Finish.{model_of, release_session}

-- The "delta" of a chunk.
pub data ChunkDelta : Type 0 where
  role_delta empty_delta : ChunkDelta
  content_delta reasoning_content_delta : String → ChunkDelta
  tool_calls_delta : List ToolCall → ChunkDelta

unfoldable pub delta_of : Callback → ChunkDelta
delta_of (text_delta s) = content_delta s
delta_of (reasoning_delta s) = reasoning_content_delta s

-- What is written to a client that asked for a stream.
pub data Written {ℓ} (Cost : Type ℓ) : Type ℓ where
  chunk : StreamChunk Cost ChunkDelta → Written Cost
  error_chunk : CliError → Written Cost
  done_line : Written Cost

module _ {ℓ} {Cost : Type ℓ} where
  unfoldable pub callback_chunks : String → ℕ → String → List Callback → List (Written Cost)
  callback_chunks id created model [] = []
  callback_chunks id created model (c ∷ cs) =
      chunk (new_stream_chunk id created model (delta_of c) none none)
      ∷ callback_chunks id created model cs

  -- The chunks after the last delta.
  unfoldable pub final_chunks : String → ℕ → String → TurnOutcome Cost → List (Written Cost)
  final_chunks id created model out =
      let usage = to_open_ai_usage out.usage out.cost_usd in
      elim out.err [
        | some e ↦ error_chunk e ∷ []
        | none ↦
            if out.final
            then chunk (
                new_stream_chunk id created (model_of model out) empty_delta
                  (some (map_finish_reason out.stop_reason)) (some usage))
              ∷ done_line
              ∷ []
            else chunk (
                new_stream_chunk id created (model_of model out)
                  (tool_calls_delta (tool_calls_from_pending (map new_call out.calls))) none none)
              ∷ chunk (
                  new_stream_chunk id created (model_of model out) empty_delta (some "tool_calls")
                    (some usage))
              ∷ done_line
              ∷ []
      ]

  -- `streamToolTurn`, once the turn is collected.
  unfoldable pub stream_tool_turn :
      String → ℕ → String → SessionManager → ℕ → Turn Cost → SessionManager × List (Written Cost)
  stream_tool_turn id created model sm sess t = (
    release_session sm sess t.outcome,
    chunk (new_stream_chunk id created model role_delta none none)
          ∷ callback_chunks id created model t.callbacks
        ++ final_chunks id created model t.outcome,
  )
