-- ===== src/Turn/Finish.antt =====
-- internal/gateway/server.go: the end of `handleToolTurn`, once the turn is collected.
use valyrium.Base.{Bool, String, false, if◌then◌else◌, map, none, not, some, true, ℕ, ◌&&◌, ◌=t◌}
use valyrium.Prompt.Reply.{
  Completion, completion_response_with_cost, new_tool_call_response, to_open_ai_usage,
}
use valyrium.Session.{SessionManager, reap_session_locked, session_id_of}
use valyrium.Session.Calls.{new_call}
use valyrium.Turn.{TurnOutcome}
use valyrium.Turn.Answer.{Reply, cli, error, response}

module _ {ℓ} {Cost : Type ℓ} where
  -- The model that is reported where the run named none.
  unfoldable pub model_of : String → TurnOutcome Cost → String
  model_of model out = if out.model =t "" then model else out.model

  unfoldable pub completion_of_turn : String → TurnOutcome Cost → Completion Cost
  completion_of_turn model out = record {
    text = out.text;
    reasoning_text = out.reasoning_text;
    model = model_of model out;
    stop_reason = out.stop_reason;
    usage = out.usage;
    cost_usd = out.cost_usd;
    cli_session_id = "";
  }

  -- Whether the session outlives the turn.
  unfoldable pub parks : TurnOutcome Cost → Bool
  parks out = (elim out.err [ none ↦ true | some e ↦ false ]) && not out.final

  unfoldable pub release_session : SessionManager → ℕ → TurnOutcome Cost → SessionManager
  release_session sm sess out = elim out.err [
    | some e ↦ reap_session_locked sm (session_id_of sm sess)
    | none ↦ if out.final then reap_session_locked sm (session_id_of sm sess) else sm
  ]

  unfoldable pub reply_of : String → ℕ → String → TurnOutcome Cost → Reply Cost
  reply_of id created model out = elim out.err [
    | some e ↦ error (cli e)
    | none ↦
        if out.final
        then response (completion_response_with_cost id created (completion_of_turn model out))
        else response (
            new_tool_call_response id created (model_of model out) out.text out.reasoning_text
              (map new_call out.calls) (to_open_ai_usage out.usage out.cost_usd))
  ]

  -- The end of `handleToolTurn`.
  unfoldable pub finish_turn :
      String → ℕ → String → SessionManager → ℕ → TurnOutcome Cost → SessionManager × Reply Cost
  finish_turn id created model sm sess out =
      (release_session sm sess out, reply_of id created model out)
