-- ===== src/Prompt/Tests.antt =====
-- The theorems on prompts and replies at small requests.
use valyrium.Base.{List, Option, String, [], none, refl, some, ◌∷◌, ◌≡◌}
use valyrium.Prompt.{OpenAiMessage, string, text_of}
use valyrium.Prompt.Plan.{
  join_non_empty, join_non_empty_from, last_assistant, split_at, split_resume_turn, split_tail,
  user_parts,
}
use valyrium.Prompt.Split.{IsSplit, split_resume_turn-IsSplit}
use valyrium.Prompt.Reply.{Completion, Usage}
use valyrium.Prompt.Format.{ResponseFormat}

abbrev said : String → String → OpenAiMessage
said role s = record { role = role; content = string s; tool_call_id = ""; tool_calls = [] }

abbrev dialogue : List OpenAiMessage
dialogue = said "user" "hi" ∷ said "assistant" "hello" ∷ said "user" "more" ∷ []

split_dialogue :
    split_resume_turn dialogue ≡ some (said "user" "hi" ∷ said "assistant" "hello" ∷ [], "more")
unfolding split_resume_turn last_assistant split_tail split_at user_parts text_of join_non_empty
    join_non_empty_from
split_dialogue = refl

split_resume_turn-IsSplit_example :
    IsSplit dialogue (said "user" "hi" ∷ said "assistant" "hello" ∷ []) "more"
split_resume_turn-IsSplit_example =
    split_resume_turn-IsSplit dialogue (said "user" "hi" ∷ said "assistant" "hello" ∷ []) "more"
      split_dialogue

abbrev price : Option String
price = some "0.01"

abbrev used : Usage
used = record {
  input_tokens = 10;
  output_tokens = 5;
  cache_read_input_tokens = 3;
  cache_creation_input_tokens = 2;
}

abbrev answered : Completion String
answered = record {
  text = "done";
  reasoning_text = "";
  model = "sonnet";
  stop_reason = some "end_turn";
  usage = used;
  cost_usd = none;
  cli_session_id = "";
}

abbrev json_mode : Option (ResponseFormat String)
json_mode = some (record { type = "json_schema"; json_schema = some (some "{}") })
