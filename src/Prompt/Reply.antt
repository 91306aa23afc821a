-- ===== src/Prompt/Reply.antt =====
-- internal/gateway/openai.go: finish reasons, usage, and the bodies of the responses. Token counts are
-- not negative; `Cost` stands for float64 and `Delta` for the JSON object of a chunk.
use valyrium.Base.{
  Bool, List, Option, String, [], arith, false, if◌then◌else◌, map, none, some, true, ℕ, ◌+◌, ◌=t◌,
  ◌∷◌, ◌≡◌, ◌≢◌, ◌≤◌,
}
use valyrium.Prompt.{ToolCall}
use valyrium.Session.Calls.{PendingToolCall}

pub record Usage : Type 0 where
  pub input_tokens : ℕ
  pub output_tokens : ℕ
  pub cache_read_input_tokens : ℕ
  pub cache_creation_input_tokens : ℕ

pub record Completion {ℓ} (Cost : Type ℓ) : Type ℓ where
  pub text : String
  pub reasoning_text : String
  pub model : String
  pub stop_reason : Option String
  pub usage : Usage
  pub cost_usd : Option Cost
  pub cli_session_id : String

unfoldable pub map_finish_reason : Option String → String
map_finish_reason none = "stop"
map_finish_reason (some stop_reason) =
    if stop_reason =t "max_tokens"
    then "length"
    else if stop_reason =t "refusal"
    then "content_filter"
    else "stop"

-- `PromptTokensDetails` has one member, which stands here itself.
pub record OpenAiUsage {ℓ} (Cost : Type ℓ) : Type ℓ where
  pub prompt_tokens : ℕ
  pub completion_tokens : ℕ
  pub total_tokens : ℕ
  pub cached_tokens : ℕ
  pub cost_usd : Option Cost
  pub cache_write_tokens : ℕ

unfoldable pub to_open_ai_usage {ℓ} : {Cost : Type ℓ} → Usage → Option Cost → OpenAiUsage Cost
to_open_ai_usage usage cost =
    let prompt_tokens =
      usage.input_tokens + usage.cache_read_input_tokens + usage.cache_creation_input_tokens in
    record {
      prompt_tokens = prompt_tokens;
      completion_tokens = usage.output_tokens;
      total_tokens = prompt_tokens + usage.output_tokens;
      cached_tokens = usage.cache_read_input_tokens;
      cost_usd = cost;
      cache_write_tokens = usage.cache_creation_input_tokens;
    }

-- The message of a choice; `content` is `none` for JSON's null, and a plain completion has no
-- tool calls.
pub record Choice : Type 0 where
  pub index : ℕ
  pub role : String
  pub content : Option String
  pub reasoning_content : String
  pub tool_calls : List ToolCall
  pub finish_reason : String

pub record CompletionResponse {ℓ} (Cost : Type ℓ) : Type ℓ where
  pub id : String
  pub object : String
  pub created : ℕ
  pub model : String
  pub choices : List Choice
  pub usage : OpenAiUsage Cost

unfoldable pub completion_response_with_cost {ℓ} :
    {Cost : Type ℓ} → String → ℕ → Completion Cost → CompletionResponse Cost
completion_response_with_cost id created completion = record {
  id = id;
  object = "chat.completion";
  created = created;
  model = completion.model;
  choices =
      record {
        index = 0;
        role = "assistant";
        content = some completion.text;
        reasoning_content = completion.reasoning_text;
        tool_calls = [];
        finish_reason = map_finish_reason completion.stop_reason;
      }
      ∷ [];
  usage = to_open_ai_usage completion.usage completion.cost_usd;
}

unfoldable pub tool_call_of : PendingToolCall → ToolCall
tool_call_of p = record { id = p.id; type = "function"; name = p.name; arguments = p.arguments }

unfoldable pub tool_calls_from_pending : List PendingToolCall → List ToolCall
tool_calls_from_pending = map tool_call_of

unfoldable pub new_tool_call_response {ℓ} :
    {Cost : Type ℓ}
    → String
    → ℕ
    → String
    → String
    → String
    → List PendingToolCall
    → OpenAiUsage Cost
    → CompletionResponse Cost
new_tool_call_response id created model text reasoning_text calls usage = record {
  id = id;
  object = "chat.completion";
  created = created;
  model = model;
  choices =
      record {
        index = 0;
        role = "assistant";
        content = if text =t "" then none else some text;
        reasoning_content = reasoning_text;
        tool_calls = tool_calls_from_pending calls;
        finish_reason = "tool_calls";
      }
      ∷ [];
  usage = usage;
}

pub record StreamChunk {ℓ κ} (Cost : Type ℓ) (Delta : Type κ) : Type (ℓ ⊔ κ) where
  pub id : String
  pub object : String
  pub created : ℕ
  pub model : String
  pub index : ℕ
  pub delta : Delta
  pub finish_reason : Option String
  pub usage : Option (OpenAiUsage Cost)

unfoldable pub new_stream_chunk {ℓ κ} :
    {Cost : Type ℓ} {Delta : Type κ}
    → String
    → ℕ
    → String
    → Delta
    → Option String
    → Option (OpenAiUsage Cost)
    → StreamChunk Cost Delta
new_stream_chunk id created model delta finish_reason usage = record {
  id = id;
  object = "chat.completion.chunk";
  created = created;
  model = model;
  index = 0;
  delta = delta;
  finish_reason = finish_reason;
  usage = usage;
}

-- The counts that a client is billed by add up: the total is the sum of all four counts of the
-- run, and what was read from and written to the cache is part of the prompt.
pub to_open_ai_usage_sum {ℓ} :
    {Cost : Type ℓ} (usage : Usage) (cost : Option Cost)
    → let u = to_open_ai_usage usage cost in
      (u.total_tokens ≡ u.prompt_tokens + u.completion_tokens)
      × (u.total_tokens
          ≡ usage.input_tokens + usage.output_tokens + usage.cache_read_input_tokens
            + usage.cache_creation_input_tokens)
      × (u.cached_tokens + u.cache_write_tokens ≤ u.prompt_tokens)
unfolding to_open_ai_usage
to_open_ai_usage_sum usage cost = omega arith

abbrev reason : Bool → Bool → String
reason a b = if a then "length" else if b then "content_filter" else "stop"

plain : (a b : Bool) → reason a b ≢ "tool_calls"
plain true b h = absurd (cc h)
plain false true h = absurd (cc h)
plain false false h = absurd (cc h)

finish_reason_plain : (r : Option String) → map_finish_reason r ≢ "tool_calls"
unfolding map_finish_reason
finish_reason_plain none h = absurd (cc h)
finish_reason_plain (some r) h = plain (r =t "max_tokens") (r =t "refusal") h

-- A client that reads the finish reason of the first choice always tells a completion from a turn
-- that asks for tool calls, whatever the stop reason of the run.
pub finish_reasons_differ {ℓ} :
    {Cost : Type ℓ} (id id' model text reasoning : String) (created created' : ℕ)
    (completion : Completion Cost) (calls : List PendingToolCall) (usage : OpenAiUsage Cost)
    → map (λ c. c.finish_reason) (completion_response_with_cost id created completion).choices
      ≢ map
          (λ c. c.finish_reason)
          (new_tool_call_response id' created' model text reasoning calls usage).choices
unfolding completion_response_with_cost new_tool_call_response
finish_reasons_differ id id' model text reasoning created created' completion calls usage h =
    finish_reason_plain completion.stop_reason (ground arith)
