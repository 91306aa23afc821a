-- ===== src/Cli/Run.antt =====
-- internal/gateway/claudecli.go: `RunClaude`, one run of the CLI for one request.
use valyrium.Base.{
  Bool, List, Option, String, [], false, if◌then◌else◌, inl, inr, none, not, some, true, ℕ, ◌&&◌,
  ◌*◌, ◌++◌, ◌+t◌, ◌=t◌, ◌∷◌, ◌⊎◌,
}
use valyrium.Cli.{
  Callback, CliError, Delta, Event, Message, Output, StreamLine, error_detail, no_result,
  reasoning_delta, reported, scan, text_delta, timed_out,
}
use valyrium.Prompt.Reply.{Completion, Usage}

-- The default buffer of `bufio.Scanner`.
abbrev pub scanner_buffer : ℕ
scanner_buffer = 64 * 1024

pub record RunClaudeOptions : Type 0 where
  pub prompt : String
  pub system_prompt : String
  pub model : String
  pub effort : String
  pub persist : Bool
  pub resume_session_id : String
  pub expose_reasoning : Bool

-- `append(args, flag, value)` for a value that is given.
unfoldable pub flag_if : String → String → List String
flag_if flag value = if value =t "" then [] else flag ∷ value ∷ []

-- The arguments of the command.
unfoldable pub run_args : RunClaudeOptions → List String
run_args opts =
    "-p"
      ∷ "--output-format"
      ∷ "stream-json"
      ∷ "--include-partial-messages"
      ∷ "--verbose"
      ∷ "--tools"
      ∷ ""
      ∷ "--disable-slash-commands"
      ∷ "--system-prompt"
      ∷ opts.system_prompt
      ∷ (if opts.persist
          then flag_if "--resume" opts.resume_session_id
          else "--no-session-persistence" ∷ [])
    ++ flag_if "--model" opts.model
    ++ flag_if "--effort" opts.effort

-- The variables of the loop, and the callbacks made so far.
pub record Run {ℓ} (Cost : Type ℓ) : Type ℓ where
  pub streamed_text : String
  pub reasoning_text : String
  pub result_text : Option String
  pub model : String
  pub stop_reason : Option String
  pub cost_usd : Option Cost
  pub usage : Usage
  pub cli_session_id : String
  pub saw_result : Bool
  pub callbacks : List Callback

abbrev pub no_usage : Usage
no_usage = record {
  input_tokens = 0;
  output_tokens = 0;
  cache_read_input_tokens = 0;
  cache_creation_input_tokens = 0;
}

unfoldable pub new_run {ℓ} : {Cost : Type ℓ} → String → Run Cost
new_run model = record {
  streamed_text = "";
  reasoning_text = "";
  result_text = none;
  model = if model =t "" then "unknown" else model;
  stop_reason = none;
  cost_usd = none;
  usage = no_usage;
  cli_session_id = "";
  saw_result = false;
  callbacks = [];
}

-- A value that is kept where the line has none.
abbrev pub or_else {ℓ} : {A : Type ℓ} → Option A → Option A → Option A
or_else none old = old
or_else (some a) old = some a

module _ {ℓ} {Cost : Type ℓ} where
  unfoldable pub run_delta : Bool → Run Cost → Delta → Run Cost
  run_delta expose r d =
      if d.type =t "text_delta" && not (d.text =t "")
      then record r {
        streamed_text = r.streamed_text +t d.text;
        callbacks = r.callbacks ++ text_delta d.text ∷ [];
      }
      else if expose && (d.type =t "thinking_delta" && not (d.thinking =t ""))
      then record r {
        reasoning_text = r.reasoning_text +t d.thinking;
        callbacks = r.callbacks ++ reasoning_delta d.thinking ∷ [];
      }
      else r

  -- A "stream_event" line.
  unfoldable pub run_event : Bool → Run Cost → Option Event → Run Cost
  run_event expose r none = r
  run_event expose r (some ev) = elim ev.delta [
    | none ↦ r
    | some d ↦
        if ev.type =t "content_block_delta"
        then run_delta expose r d
        else if ev.type =t "message_delta"
        then record r { stop_reason = or_else d.stop_reason r.stop_reason }
        else r
  ]

  -- An "assistant" line.
  unfoldable pub run_message : Run Cost → Option Message → Run Cost
  run_message r none = r
  run_message r (some m) = if m.model =t "" then r else record r { model = m.model }

  -- A "result" line that is no error.
  unfoldable pub run_result : Run Cost → StreamLine Cost → Run Cost
  run_result r l = record r {
    saw_result = true;
    result_text = if l.result =t "" then r.result_text else some l.result;
    stop_reason = or_else l.stop_reason r.stop_reason;
    cost_usd = or_else l.total_cost_usd r.cost_usd;
    usage = (elim l.usage [ none ↦ r.usage | some u ↦ u ]);
  }

  unfoldable pub with_session_id : Run Cost → String → Run Cost
  with_session_id r id = if id =t "" then r else record r { cli_session_id = id }

  -- The body of the loop; the error is the one that an error result reports.
  unfoldable pub run_line : Bool → Run Cost → StreamLine Cost → Run Cost × Option CliError
  run_line expose r l =
      let r' = with_session_id r l.session_id in
      if l.type =t "stream_event"
      then (run_event expose r' l.event, none)
      else if l.type =t "assistant"
      then (run_message r' l.message, none)
      else if l.type =t "result"
      then if l.is_error
        then (record r' { saw_result = true }, some (reported (error_detail l)))
        else (run_result r' l, none)
      else (r', none)

  unfoldable pub run_lines : Bool → Run Cost → List (Output Cost) → Run Cost × Option CliError
  run_lines expose r [] = (r, none)
  run_lines expose r (o ∷ os) = elim o.parsed [
    | none ↦ run_lines expose r os
    | some l ↦
        let (r', e) = run_line expose r l in
        elim e [ none ↦ run_lines expose r' os | some failure ↦ (r', some failure) ]
  ]

  unfoldable pub completion_of : Run Cost → Completion Cost
  completion_of r = record {
    text = (elim r.result_text [ none ↦ r.streamed_text | some text ↦ text ]);
    reasoning_text = r.reasoning_text;
    model = r.model;
    stop_reason = r.stop_reason;
    usage = r.usage;
    cost_usd = r.cost_usd;
    cli_session_id = r.cli_session_id;
  }

  -- What follows the loop; the flag says whether the deadline passed.
  unfoldable pub settle : Bool → Run Cost × Option CliError → CliError ⊎ Completion Cost
  settle late (r, some e) = inl e
  settle late (r, none) =
      if late
      then inl timed_out
      else if not r.saw_result
      then inl no_result
      else inr (completion_of r)

  -- `RunClaude` for a process that starts: the callbacks and the result.
  unfoldable pub run_claude :
      RunClaudeOptions → List (Output Cost) → Bool → List Callback × (CliError ⊎ Completion Cost)
  run_claude opts out late =
      let ran =
        run_lines opts.expose_reasoning (new_run opts.model)
          (scan (λ o. o.size) scanner_buffer out) in
      (ran.0.callbacks, settle late ran)
