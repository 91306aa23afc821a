-- ===== src/Cli/Tests.antt =====
-- A run that streams two pieces and ends, and one whose second line is too long for the scanner.
use valyrium.Base.{false, inl, refl, some, ℕ, ◌≡◌}
use valyrium.Cli.{no_result, scan}
use valyrium.Cli.Run.{
  completion_of, new_run, no_usage, run_claude, run_delta, run_event, run_line, run_lines,
  run_result, settle, with_session_id,
}
use valyrium.Cli.Example.{options, output}
use valyrium.Prompt.Reply.{Completion}

abbrev answered : Completion ℕ
answered = record {
  text = "hello";
  reasoning_text = "";
  model = "sonnet";
  stop_reason = some "end_turn";
  usage = no_usage;
  cost_usd = some 3;
  cli_session_id = "s1";
}

-- A line of 64 KiB ends the reading, and the result after it is never seen.
output_long : (run_claude options (output 65536) false).1 ≡ inl no_result
unfolding run_claude run_lines run_line run_event run_delta run_result with_session_id new_run
    settle completion_of scan
output_long = refl
