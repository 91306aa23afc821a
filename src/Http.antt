-- ===== src/Http.antt =====
-- internal/gateway/server.go: `ServeHTTP` and what its handlers read from a request.
mod Tests
mod Cases
pub mod Example
pub mod Chat
pub mod Run
pub mod Continuity
pub mod Routes
pub mod Serving
pub mod Superseding
pub mod Gateway
pub mod Handler
pub mod Leaves
pub mod Billing
pub mod Keeping
pub mod Charging
pub mod Replies
pub mod Lifetime
use valyrium.Base.{
  Bool, List, Option, String, [], false, if◌then◌else◌, length, map, none, not, some, true, ℕ, ◌&&◌,
  ◌==◌, ◌=t◌, ◌∷◌,
}
use mathlib.Core.List.{reverse}
use package.text.Mathlib.Text.{starts_with}
use Prim.Native.String.{len, slice}
use valyrium.Prompt.{OpenAiMessage, object, text_of}
use valyrium.Prompt.Format.{ResponseFormat, resolve_context_length}
use valyrium.Server.Request.{ReasoningSpec, is_authorized}
use valyrium.Session.{SessionManager, get_session_by_tool_call_id, member}
use valyrium.Session.Calls.{ToolSchema}
use valyrium.Turn.Answer.{ToolResult}

pub record HttpRequest : Type 0 where
  pub method : String
  pub path : String
  pub authorization : String
  pub x_api_key : String

-- The handler that `ServeHTTP` calls, or the error that it sends.
pub data Route : Type 0 where
  healthz_route dashboard_route logo_mark_route models_route chat_route metrics_route : Route
  unauthorized_route no_route : Route
  mcp_route : String → Route

unfoldable pub is_request : HttpRequest → String → String → Bool
is_request r method path = r.method =t method && r.path =t path

-- The routes behind the key.
unfoldable pub route_authorized : HttpRequest → Route
route_authorized r =
    if is_request r "GET" "/v1/models"
    then models_route
    else if is_request r "POST" "/v1/chat/completions"
    then chat_route
    else if is_request r "GET" "/metrics"
    then metrics_route
    else no_route

unfoldable pub route : String → HttpRequest → Route
route api_key r =
    if is_request r "GET" "/healthz"
    then healthz_route
    else if is_request r "GET" "/dashboard"
    then dashboard_route
    else if is_request r "GET" "/logo-mark.svg"
    then logo_mark_route
    else if starts_with r.path "/mcp/"
    then mcp_route (slice r.path 5 (len r.path))
    else if not (is_authorized api_key r.authorization r.x_api_key)
    then unauthorized_route
    else route_authorized r

-- The status of the answer, for a handler that has only one.
unfoldable pub fixed_status : Route → Option ℕ
fixed_status healthz_route = some 200
fixed_status dashboard_route = some 200
fixed_status logo_mark_route = some 200
fixed_status models_route = some 200
fixed_status metrics_route = some 200
fixed_status unauthorized_route = some 401
fixed_status no_route = some 404
fixed_status chat_route = none
fixed_status (mcp_route session_id) = none

-- Whether a name is among the aliases that `resolveModel` builds.
unfoldable pub is_alias : (String → String) → List String → String → Bool
is_alias to_lower models name =
    member name ("sonnet" ∷ "opus" ∷ "haiku" ∷ "fable" ∷ map to_lower models)

unfoldable pub resolve_model :
    (String → String) → (String → String) → String → List String → String → String
resolve_model to_lower trim_space default_model models requested =
    let normalized = to_lower (trim_space requested) in
    if requested =t ""
    then default_model
    else if starts_with normalized "claude"
    then trim_space requested
    else if is_alias to_lower models normalized
    then trim_space requested
    else default_model

pub record ModelInfo : Type 0 where
  pub id : String
  pub object : String
  pub created : ℕ
  pub owned_by : String
  pub context_length : ℕ
  pub max_model_len : ℕ

-- The list that `handleModels` sends.
unfoldable pub model_infos :
    (String → String) → List String → List (String × ℕ) → ℕ → List ModelInfo
model_infos to_lower [] context_lengths fallback = []
model_infos to_lower (id ∷ ids) context_lengths fallback =
    let length = resolve_context_length to_lower id context_lengths fallback in
    record {
      id = id;
      object = "model";
      created = 0;
      owned_by = "anthropic";
      context_length = length;
      max_model_len = length;
    }
    ∷ model_infos to_lower ids context_lengths fallback

unfoldable pub tool_result : OpenAiMessage → ToolResult
tool_result msg = record {
  tool_call_id = msg.tool_call_id;
  content = (elim (text_of msg) [ none ↦ "" | some text ↦ text ]);
}

-- The loop of `findContinuationSession` over the messages from the last one, with what it has.
unfoldable pub trailing_results : List OpenAiMessage → List ToolResult → List ToolResult
trailing_results [] results = results
trailing_results (msg ∷ earlier) results = elim (msg.role =t "tool") [
  | true ↦ trailing_results earlier (tool_result msg ∷ results)
  | false ↦ results
]

unfoldable pub first_session : SessionManager → List ToolResult → Option ℕ
first_session sm [] = none
first_session sm (tr ∷ trs) = elim (get_session_by_tool_call_id sm tr.tool_call_id) [
  | some sess ↦ some sess
  | none ↦ first_session sm trs
]

unfoldable pub find_continuation_session :
    SessionManager → List OpenAiMessage → Option ℕ × List ToolResult
find_continuation_session sm msgs =
    let results = trailing_results (reverse msgs) [] in (first_session sm results, results)

-- The decoded "tool_choice": a string, or another value or none.
unfoldable pub tool_choice_is_none : Option String → Bool
tool_choice_is_none none = false
tool_choice_is_none (some choice) = choice =t "none"

pub record ChatCompletionRequest {ℓ} (Schema : Type ℓ) : Type ℓ where
  pub model : String
  pub messages : List OpenAiMessage
  pub tools : List ToolSchema
  pub tool_choice : Option String
  pub stream : Bool
  pub reasoning_effort : String
  pub reasoning : Option ReasoningSpec
  pub response_format : Option (ResponseFormat Schema)

unfoldable pub wants_tools {ℓ} : {Schema : Type ℓ} → ChatCompletionRequest Schema → Bool
wants_tools req = not (length req.tools == 0) && not (tool_choice_is_none req.tool_choice)
