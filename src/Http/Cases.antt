-- ===== src/Http/Cases.antt =====
-- `handleChatCompletions` on one request.
use valyrium.Http.Replies.{read_body, send_error, unrouted}
use valyrium.Base.{Option, [], get_elem?, length, none, refl, some, true, ℕ, ◌+◌, ◌∷◌, ◌≡◌, ◌≢◌}
use valyrium.Cli.Run.{Run, run_claude, run_line, run_lines, run_result, settle}
use valyrium.Prompt.{
  Turn, add_turn, build_prompt, empty_transcript, ends_open, finish, only_user, read_message,
  read_messages, read_user, text_of, with_text,
}
use valyrium.Server.{acquire, holds, new_semaphore}
use valyrium.Server.Request.{enabled, plan_resume_turn}
use valyrium.Http.{
  HttpRequest, find_continuation_session, first_session, trailing_results, wants_tools,
}
use valyrium.Http.Run.{run_cli}
use valyrium.Http.Chat.{
  answer_completion, answer_stateless, begin_chat, built_prompts, plan_chat, planned_prompts,
}
use valyrium.Http.Gateway.{Gateway}
use valyrium.Turn.Answer.{status, unavailable}
use valyrium.Http.Example.{first_turn, outside, serving}
use valyrium.Http.Handler.{
  Handled, Surroundings, by_status, handle_chat_completions, noted, released_slot, released_slot?,
  request, run_stateless, serve_body, serve_path, serve_planned, serve_request, served_status,
  turned_down, with_slot,
}
use valyrium.Http.Leaves.{handle_chat_completions-holds}
use valyrium.Http.Billing.{Billed}
use valyrium.Http.Charging.{Recorded, handle_chat_completions-Billed}

abbrev around : Surroundings ℕ
around = record {
  to_lower = λ s. s;
  trim_space = λ s. s;
  completion_id = "c1";
  created = 7;
  session_id = "t";
  now = 9;
  while_waiting = λ g. g;
  while_running = λ g. g;
  start_error = none;
  arrivals = [];
  duration = 3;
  today = record { year = 2026; month = 1; day_of_month = 2 };
  saved = record { marshal = λ days. none; write_room = 0; succeeds = λ x. true };
}

abbrev post : HttpRequest
post = record { method = "POST"; path = "/v1/chat/completions"; authorization = ""; x_api_key = "" }

abbrev or_else_unavailable : Option (Handled ℕ) → Handled ℕ
or_else_unavailable none = turned_down serving unavailable
or_else_unavailable (some h) = h

abbrev answered : Handled ℕ
answered =
    or_else_unavailable
      (handle_chat_completions outside around (λ a b. a + b) 0 serving post (request first_turn))

answers :
    handle_chat_completions outside around (λ a b. a + b) 0 serving post (request first_turn)
    ≡ some answered
unfolding handle_chat_completions noted serve_body serve_request serve_path serve_planned with_slot
    by_status valyrium.Http.Chat.begin_chat valyrium.Http.find_continuation_session
    valyrium.Http.first_session valyrium.Http.trailing_results valyrium.Http.wants_tools
    valyrium.Http.Chat.plan_chat valyrium.Http.Chat.planned_prompts
    valyrium.Server.Request.plan_resume_turn valyrium.Server.Request.enabled
    valyrium.Http.Chat.built_prompts valyrium.Prompt.build_prompt valyrium.Prompt.read_messages
    valyrium.Prompt.read_message valyrium.Prompt.with_text valyrium.Prompt.text_of
    valyrium.Prompt.finish valyrium.Prompt.ends_open valyrium.Prompt.read_user
    valyrium.Prompt.add_turn valyrium.Prompt.empty_transcript valyrium.Prompt.only_user
    valyrium.Server.acquire valyrium.Server.new_semaphore valyrium.Http.Handler.released_slot?
answers = refl

handle_chat_completions-holds_example :
    get_elem? answered.gateway.slots.callers (length serving.slots.callers) ≢ some holds
handle_chat_completions-holds_example =
    handle_chat_completions-holds outside around (λ a b. a + b) 0 serving post (request first_turn)
      answered (λ k. refl) answers

-- Nobody else touches the counters here.
handle_chat_completions-Billed_example :
    (before : Gateway ℕ) × ((before.metrics ≡ serving.metrics) × (before.usage ≡ serving.usage))
    × Recorded outside around (λ a b. a + b) 0 post before answered
    × Billed answered.served answered.accounting
handle_chat_completions-Billed_example =
    handle_chat_completions-Billed outside around
      (λ m u. (m ≡ serving.metrics) × (u ≡ serving.usage)) (λ a b. a + b) 0 serving post
      (request first_turn) answered (refl, refl) (λ k h. h) (λ k h. h) answers

answered_status : served_status answered.served ≡ 200
unfolding served_status handle_chat_completions noted serve_body serve_request serve_path
    serve_planned with_slot by_status valyrium.Http.Chat.begin_chat
    valyrium.Http.find_continuation_session valyrium.Http.first_session
    valyrium.Http.trailing_results valyrium.Http.wants_tools valyrium.Http.Chat.plan_chat
    valyrium.Http.Chat.planned_prompts valyrium.Server.Request.plan_resume_turn
    valyrium.Server.Request.enabled valyrium.Http.Chat.built_prompts valyrium.Prompt.build_prompt
    valyrium.Prompt.read_messages valyrium.Prompt.read_message valyrium.Prompt.with_text
    valyrium.Prompt.text_of valyrium.Prompt.finish valyrium.Prompt.ends_open
    valyrium.Prompt.read_user valyrium.Prompt.add_turn valyrium.Prompt.empty_transcript
    valyrium.Prompt.only_user valyrium.Server.acquire valyrium.Server.new_semaphore
    valyrium.Http.Handler.released_slot? valyrium.Http.Handler.released_slot
    valyrium.Http.Handler.run_stateless valyrium.Turn.Answer.status
    valyrium.Http.Chat.answer_stateless valyrium.Http.Run.run_cli valyrium.Cli.Run.run_claude
    valyrium.Cli.Run.settle valyrium.Cli.Run.run_lines valyrium.Cli.scan valyrium.Cli.Run.run_line
    valyrium.Cli.Run.run_result valyrium.Http.Chat.answer_completion
answered_status = refl

body_fits : read_body 2 (7 ∷ 8 ∷ []) ≡ some (7 ∷ 8 ∷ [])
unfolding read_body
body_fits = refl

body_too_large : read_body 1 (7 ∷ 8 ∷ []) ≡ none
unfolding read_body
body_too_large = refl

stray : (unrouted "GET" "/v2").1.message ≡ "no route for GET /v2"
unfolding unrouted send_error
stray = refl
