-- ===== src/Cli/Example.antt =====
-- The output of a run that streams two pieces and ends; the size of the second line is free.
use valyrium.Base.{List, String, [], false, none, some, true, ℕ, ◌∷◌}
use valyrium.Cli.{Output, StreamLine}
use valyrium.Cli.Run.{RunClaudeOptions}

abbrev pub plain_line : StreamLine ℕ
plain_line = record {
  type = "";
  subtype = "";
  is_error = false;
  result = "";
  session_id = "s1";
  stop_reason = none;
  total_cost_usd = none;
  usage = none;
  message = none;
  event = none;
}

abbrev pub piece : String → StreamLine ℕ
piece s = record plain_line {
  type = "stream_event";
  event = some (record {
    type = "content_block_delta";
    delta = some (record { type = "text_delta"; text = s; thinking = ""; stop_reason = none });
    usage = none;
  });
}

abbrev pub result_line : StreamLine ℕ
result_line = record plain_line {
  type = "result";
  stop_reason = some "end_turn";
  total_cost_usd = some 3;
}

abbrev pub sized : ℕ → StreamLine ℕ → Output ℕ
sized n l = record { at = 0; size = n; parsed = some l }

abbrev pub output : ℕ → List (Output ℕ)
output n = sized 80 (piece "he") ∷ sized n (piece "llo") ∷ sized 90 result_line ∷ []

abbrev pub options : RunClaudeOptions
options = record {
  prompt = "hi";
  system_prompt = "";
  model = "sonnet";
  effort = "";
  persist = true;
  resume_session_id = "";
  expose_reasoning = false;
}
