-- ===== src/Cli.antt =====
-- internal/gateway/claudecli.go: the stream of JSON lines that the assistant's CLI prints, and what its
-- two readers make of it. `json.Unmarshal` is outside: a line comes decoded, and is `none` where it is
-- empty or does not decode, which both readers skip. `Cost` stands for float64.
mod Tests
pub mod Example
pub mod Run
pub mod Relay
pub mod Ending
pub mod Pieces
pub mod Runs
pub mod Start
use valyrium.Base.{Bool, List, Option, String, [], if◌then◌else◌, ltb, not, ℕ, ◌=t◌, ◌∷◌}
use valyrium.Prompt.Reply.{Usage}

pub record Delta : Type 0 where
  pub type : String
  pub text : String
  pub thinking : String
  pub stop_reason : Option String

pub record Event : Type 0 where
  pub type : String
  pub delta : Option Delta
  pub usage : Option Usage

pub record Block : Type 0 where
  pub type : String
  pub text : String
  pub id : String
  pub name : String
  pub input : String

pub record Message : Type 0 where
  pub model : String
  pub content : List Block

-- `streamJsonLine`.
pub record StreamLine {ℓ} (Cost : Type ℓ) : Type ℓ where
  pub type : String
  pub subtype : String
  pub is_error : Bool
  pub result : String
  pub session_id : String
  pub stop_reason : Option String
  pub total_cost_usd : Option Cost
  pub usage : Option Usage
  pub message : Option Message
  pub event : Option Event

-- A line of the output: when it comes, its length in bytes, and what it decodes to.
pub record Output {ℓ} (Cost : Type ℓ) : Type ℓ where
  pub at : ℕ
  pub size : ℕ
  pub parsed : Option (StreamLine Cost)

-- `bufio.Scanner`: it stops before the first line that does not fit its buffer.
unfoldable pub scan {ℓ} : {A : Type ℓ} → (A → ℕ) → ℕ → List A → List A
scan size limit [] = []
scan size limit (o ∷ os) =
    let rest = scan size limit os in if ltb (size o) limit then o ∷ rest else []

-- `ClaudeCliError`, by what its message says.
pub data CliError : Type 0 where
  not_started : CliError
  reported : String → CliError
  no_result stream_ended timed_out disconnected : CliError

unfoldable pub status_code : CliError → ℕ
status_code not_started = 500
status_code (reported detail) = 502
status_code no_result = 502
status_code stream_ended = 502
status_code timed_out = 504
status_code disconnected = 499

-- The detail of an error that the CLI reports.
unfoldable pub error_detail {ℓ} : {Cost : Type ℓ} → StreamLine Cost → String
error_detail l =
    if not (l.result =t "")
    then l.result
    else if not (l.subtype =t "")
    then l.subtype
    else "unknown error"

-- A call of `OnTextDelta` or of `OnReasoningDelta`.
pub data Callback : Type 0 where
  text_delta reasoning_delta : String → Callback
