-- ===== src/Http/Run.antt =====
-- internal/gateway/server.go: the runs of the CLI behind `handleChatCompletions`, with `jsonRetryPrompt`
-- of internal/gateway/responseformat.go. The CLI is the function `spawn`: for each run, whether it starts,
-- and then what it prints and whether the deadline passes.
use valyrium.Base.{Bool, List, Option, String, [], false, inl, inr, none, some, ◌+t◌, ◌⊎◌}
use valyrium.Cli.{Callback, CliError, Output, not_started}
use valyrium.Cli.Run.{RunClaudeOptions, run_claude}
use valyrium.Prompt.{system_prompt}
use valyrium.Prompt.Reply.{Completion}
use valyrium.Prompt.Format.{JsonError, not_object, not_valid}
use valyrium.Server.Request.{ResumeTurn}

-- What the handler uses of the CLI, of JSON and of hashing: `spawn`, the hash of a conversation
-- for a model and an effort, the encoder of a schema, the decoder (whether a value is an object),
-- and the decoder's error message.
pub record Outside {ℓ κ} (Schema : Type ℓ) (Cost : Type κ) : Type (ℓ ⊔ κ) where
  pub spawn : RunClaudeOptions → Option (List (Output Cost) × Bool)
  pub hash : String → String → List (String × String) → String
  pub marshal : Schema → Option String
  pub unmarshal : String → Option Bool
  pub parse_error : String → String

-- `jsonRetryPrompt`, with the text of the error.
unfoldable pub json_error_text : JsonError → String → String
json_error_text not_valid detail = "response is not valid JSON: " +t detail
json_error_text not_object detail = "response is valid JSON but not a JSON object"

unfoldable pub json_retry_prompt : String → String → String → String
json_retry_prompt original prior_attempt rejected =
    original +t "\n\nYour previous reply was:\n" +t prior_attempt +t "\n\nThat reply was rejected: "
    +t rejected
    +t ". Reply again, following the original instructions, with ONLY the corrected JSON and no other text."

module _ {ℓ} {Cost : Type ℓ} where
  -- `RunClaude`, for a process that may not start.
  unfoldable pub run_cli :
      (RunClaudeOptions → Option (List (Output Cost) × Bool))
      → RunClaudeOptions
      → List Callback × (CliError ⊎ Completion Cost)
  run_cli spawn opts = elim (spawn opts) [
    | none ↦ ([], inl not_started)
    | some ran ↦ run_claude opts ran.0 ran.1
  ]

  -- A retry that fails leaves the first attempt.
  unfoldable pub retried : Completion Cost → CliError ⊎ Completion Cost → Completion Cost
  retried first (inl e) = first
  retried first (inr second) = second

-- The run of the plan, and the run of the retry, which is not kept and exposes no reasoning.
unfoldable pub plan_options :
    String → String → Bool → ResumeTurn → String → String → RunClaudeOptions
plan_options model effort expose plan system_prompt prompt = record {
  prompt = prompt;
  system_prompt = system_prompt;
  model = model;
  effort = effort;
  persist = plan.persist;
  resume_session_id = plan.cli_session_id;
  expose_reasoning = expose;
}

unfoldable pub retry_options : String → String → String → String → RunClaudeOptions
retry_options model effort system_prompt prompt = record {
  prompt = prompt;
  system_prompt = system_prompt;
  model = model;
  effort = effort;
  persist = false;
  resume_session_id = "";
  expose_reasoning = false;
}
