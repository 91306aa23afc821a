-- ===== src/Http/Example.antt =====
-- A server with a waiting session, a CLI that answers, and requests to it.
use valyrium.Base.{List, String, [], false, none, some, true, ℕ, ◌+t◌, ◌∷◌}
use valyrium.Cli.Example.{output}
use valyrium.Command.{Config}
use valyrium.Metrics.{new_metrics}
use valyrium.Prompt.{OpenAiMessage}
use valyrium.Prompt.Accept.{user_message}
use valyrium.Server.{new_semaphore}
use valyrium.Session.Example.{busy, index, manager}
use valyrium.Usage.{disabled, missing}
use valyrium.Http.{ChatCompletionRequest}
use valyrium.Http.Run.{Outside}
use valyrium.Http.Gateway.{Gateway}

-- A CLI that prints the example's output, and a hash that only counts.
abbrev pub outside : Outside String ℕ
outside = record {
  spawn = λ opts. some (output 82, false);
  hash = λ model effort turns. "h" +t model;
  marshal = λ s. some s;
  unmarshal = λ s. some true;
  parse_error = λ s. "";
}

abbrev pub asked : List OpenAiMessage → ChatCompletionRequest String
asked msgs = record {
  model = "sonnet";
  messages = msgs;
  tools = [];
  tool_choice = none;
  stream = false;
  reasoning_effort = "";
  reasoning = none;
  response_format = none;
}

abbrev pub first_turn : ChatCompletionRequest String
first_turn = asked (user_message "hi" ∷ [])

abbrev pub config : Config
config = record {
  port = 8787;
  host = "127.0.0.1";
  api_key = "";
  default_model = "sonnet";
  models = "sonnet" ∷ [];
  claude_bin = "claude";
  timeout_ms = 1000;
  concurrency = 4;
  max_sessions = 4;
  tool_timeout_ms = 1000;
  session_idle_ms = 1000;
  context_lengths = [];
  default_context_length = 0;
  resume_sessions = true;
  resume_max_entries = 2;
  expose_reasoning = false;
  usage_db = "off";
}

abbrev pub serving : Gateway ℕ
serving = record {
  config = config;
  slots = new_semaphore 4;
  metrics = new_metrics;
  usage = disabled missing;
  sessions = manager busy index;
  resume = none;
  mcp_base_url = "http://127.0.0.1:8787";
  shut_down = false;
}
