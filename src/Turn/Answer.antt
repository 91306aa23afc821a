-- ===== src/Turn/Answer.antt =====
-- internal/gateway/server.go: the answers of the handlers, and the start of `handleToolTurn`. What
-- others do to the session table while the turn is collected stands between `begin_turn` and
-- `finish_turn`.
use valyrium.Base.{List, Option, String, [], inl, inr, none, some, ℕ, ◌∷◌, ◌⊎◌}
use valyrium.Cli.{CliError, status_code}
use valyrium.Prompt.{OpenAiMessage, PromptError, build_prompt}
use valyrium.Prompt.Reply.{CompletionResponse}
use valyrium.Session.{
  SessionManager, create_session, reap_session_locked, resolve_tool_call, set_cmd,
}
use valyrium.Session.Calls.{ToolSchema}

-- Why a request is turned down.
pub data Failure : Type 0 where
  body_too_large invalid_json unavailable : Failure
  bad_prompt : PromptError → Failure
  too_many_sessions : ℕ → Failure
  cli : CliError → Failure

unfoldable pub failure_status : Failure → ℕ
failure_status body_too_large = 400
failure_status invalid_json = 400
failure_status unavailable = 503
failure_status (bad_prompt e) = 400
failure_status (too_many_sessions max) = 429
failure_status (cli e) = status_code e

unfoldable pub failure_type : Failure → String
failure_type body_too_large = "invalid_request_error"
failure_type invalid_json = "invalid_request_error"
failure_type unavailable = "api_error"
failure_type (bad_prompt e) = "invalid_request_error"
failure_type (too_many_sessions max) = "rate_limit_error"
failure_type (cli e) = "api_error"

-- What the client gets: an error, or a body with status 200.
pub data Reply {ℓ} (Cost : Type ℓ) : Type ℓ where
  error : Failure → Reply Cost
  response : CompletionResponse Cost → Reply Cost

unfoldable pub status {ℓ} : {Cost : Type ℓ} → Reply Cost → ℕ
status (error f) = failure_status f
status (response body) = 200

pub record ToolResult : Type 0 where
  pub tool_call_id : String
  pub content : String

unfoldable pub resolve_all : SessionManager → ℕ → List ToolResult → ℕ → SessionManager
resolve_all sm sess [] now = sm
resolve_all sm sess (tr ∷ trs) now =
    resolve_all (resolve_tool_call sm sess tr.tool_call_id tr.content now).0 sess trs now

-- A session that was created, or not: `start` is the error of `StartClaudeSession`.
unfoldable pub started :
    SessionManager × Option ℕ → String → Option CliError → SessionManager × (Failure ⊎ ℕ)
started (sm, none) id start = (sm, inl (too_many_sessions sm.max_sessions))
started (sm, some p) id none = (set_cmd sm p, inr p)
started (sm, some p) id (some e) = (reap_session_locked sm id, inl (cli e))

-- The start of `handleToolTurn`: the session of the turn, or the answer.
unfoldable pub begin_turn :
    SessionManager
    → List OpenAiMessage
    → List ToolSchema
    → Option ℕ
    → List ToolResult
    → String
    → ℕ
    → Option CliError
    → SessionManager × (Failure ⊎ ℕ)
begin_turn sm msgs tools (some p) results id now start = (resolve_all sm p results now, inr p)
begin_turn sm msgs tools none results id now start = elim (build_prompt msgs) [
  | inl e ↦ (sm, inl (bad_prompt e))
  | inr prompts ↦ started (create_session sm tools id now) id start
]
