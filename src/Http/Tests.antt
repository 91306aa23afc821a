-- ===== src/Http/Tests.antt =====
-- A conversation of two turns, and requests with and without the key.
use valyrium.Base.{String, [], false, lookup, none, refl, some, text_key, true, ℕ, ◌∷◌, ◌≡◌, ◌⊎◌}
use valyrium.Cli.Run.{no_usage}
use valyrium.Usage.{SaveSteps}
use valyrium.Http.Routes.{Presents, is_protected, is_turned_down, route-is_authorized}
use valyrium.Http.Superseding.{begin_chat-get_session, calls_lead, history_leads, id_leads}
use valyrium.Http.Gateway.{Gateway, shutdown}
use valyrium.Session.Stopped.{Stopped, session_at}
use valyrium.Session.Example.{busy, busy-IsValid, index, manager}
use valyrium.Http.Example.{asked, first_turn, outside, serving}
use valyrium.Prompt.{null, string, text_of}
use valyrium.Prompt.Accept.{user_message}
use valyrium.Prompt.Reply.{Completion}
use valyrium.Prompt.Format.{requires_json}
use valyrium.Server.Request.{ResumeTurn, fresh_turn, is_authorized}
use valyrium.Session.{get_session, get_session_by_tool_call_id, session_id_of}
use valyrium.Session.Superseded.{leads_to}
use valyrium.Http.{
  ChatCompletionRequest, HttpRequest, find_continuation_session, first_session, is_request,
  models_route, route, route_authorized, tool_result, trailing_results, unauthorized_route,
}
use valyrium.Http.Chat.{answer_stateless, begin_chat, handle_streaming_response}
use valyrium.Http.Continuity.{next_messages}
use valyrium.Http.Lifetime.{shutdown-get_session}
use valyrium.Http.Serving.{handle_streaming_response-answer_stateless}

abbrev second_turn : ChatCompletionRequest String
second_turn = asked (next_messages (user_message "hi" ∷ []) "hello" "more")

abbrev hello : Completion ℕ
hello = record {
  text = "hello";
  reasoning_text = "";
  model = "sonnet";
  stop_reason = some "end_turn";
  usage = no_usage;
  cost_usd = some 3;
  cli_session_id = "s1";
}

abbrev fresh_plan : ResumeTurn
fresh_plan = fresh_turn true

handle_streaming_response-answer_stateless_example :
    let plain =
      answer_stateless outside "c1" 7 false none first_turn "sonnet" "" fresh_plan "" "hi" in
    let streamed =
      handle_streaming_response outside "c1" 7 false none first_turn "sonnet" "" fresh_plan ""
        "hi" in
    (plain.0 ≡ streamed.0) × (plain.1.1 ≡ streamed.1.1)
unfolding requires_json
handle_streaming_response-answer_stateless_example =
    handle_streaming_response-answer_stateless outside "c1" 7 false none first_turn "sonnet" ""
      fresh_plan "" "hi" refl

abbrev with_key : String → HttpRequest
with_key authorization = record {
  method = "GET";
  path = "/v1/models";
  authorization = authorization;
  x_api_key = "";
}

keyed-route : route "k" (with_key "Bearer k") ≡ models_route
unfolding route is_request route_authorized is_authorized
keyed-route = refl

keyless-route : route "k" (with_key "Bearer no") ≡ unauthorized_route
unfolding route is_request route_authorized is_authorized
keyless-route = refl

route-is_authorized_example :
    ((is_protected (route "k" (with_key "Bearer k")) ≡ false) ⊎ Presents "k" (with_key "Bearer k"))
    × ((is_turned_down (route "k" (with_key "Bearer k")) ≡ false)
        ⊎ (¬ Presents "k" (with_key "Bearer k")))
route-is_authorized_example = route-is_authorized "k" (with_key "Bearer k")

abbrev unsaved : SaveSteps ℕ
unsaved = record { marshal = λ days. none; write_room = 0; succeeds = λ x. true }

abbrev waiting_session : Gateway ℕ
waiting_session = record serving { sessions = manager busy index }

shutdown-get_session_example :
    let sm' = (shutdown waiting_session unsaved).sessions in
    (get_session sm' "s" ≡ none)
    × Stopped (some busy) (session_at sm'.heap (some 0))
    × (shutdown (shutdown waiting_session unsaved) unsaved ≡ shutdown waiting_session unsaved)
unfolding get_session lookup
shutdown-get_session_example = shutdown-get_session waiting_session unsaved unsaved "s" refl

-- The first turn, the call that it led to, and its result.
abbrev with_result : ChatCompletionRequest String
with_result = asked (
    user_message "hi"
    ∷ record { role = "assistant"; content = null; tool_call_id = ""; tool_calls = [] }
    ∷ record { role = "tool"; content = string "file"; tool_call_id = "call_1"; tool_calls = [] }
    ∷ [])

begin_chat-get_session_example :
    let sm' = (begin_chat (manager busy index) with_result).0 in
    (get_session sm' "s" ≡ some 0) × (get_session sm' "t" ≡ none)
unfolding begin_chat find_continuation_session first_session trailing_results tool_result text_of
    get_session_by_tool_call_id get_session session_id_of history_leads calls_lead id_leads leads_to
    lookup
begin_chat-get_session_example =
    begin_chat-get_session (manager busy index) with_result 0
      (record { tool_call_id = "call_1"; content = "file" } ∷ []) "t" busy-IsValid refl
