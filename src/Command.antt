-- ===== src/Command.antt =====
-- cmd/valyrium/main.go and cmd/valyrium/claudebin.go: the subcommands and the configuration. What Go's `strings`
-- and `strconv` do to a text is the record `Words`, and the environment is the function `getenv`,
-- which is "" for a name that is not set.
mod Tests
pub mod Dispatch
pub mod Bin
pub mod Start
use valyrium.Base.{
  Bool, List, Option, String, [], false, if◌then◌else◌, insert, map, none, some, text_key, ℕ, ◌==◌,
  ◌=t◌, ◌||◌, ◌∷◌,
}
use package.text.Mathlib.Text.{starts_with}
use valyrium.Prompt.Format.{contains, default_context_length}
use valyrium.Session.{member}

-- What `run` does: it prints, or calls a subcommand, or fails.
pub data Action : Type 0 where
  prints_version prints_usage : Action
  calls : String → List String → Action
  unknown_subcommand : String → Action

abbrev pub commands : List String
commands = "serve" ∷ "relay" ∷ "tunnel" ∷ []

unfoldable pub is_version_flag : String → Bool
is_version_flag arg = arg =t "--version" || (arg =t "-v" || arg =t "version")

unfoldable pub is_help_flag : String → Bool
is_help_flag arg = arg =t "--help" || (arg =t "-h" || arg =t "help")

unfoldable pub call : List String → String → List String → Action
call cmds name rest = if member name cmds then calls name rest else unknown_subcommand name

unfoldable pub run : List String → List String → Action
run [] cmds = call cmds "serve" []
run (arg ∷ args) cmds =
    if is_version_flag arg
    then prints_version
    else if is_help_flag arg
    then prints_usage
    else if starts_with arg "-"
    then call cmds "serve" (arg ∷ args)
    else call cmds arg args

pub record Words : Type 0 where
  pub split : String → String → List String
  pub cut : String → String → Option (String × String)
  pub trim_space : String → String
  pub to_lower : String → String
  pub atoi : String → Option ℕ
  pub parse_bool : String → Option Bool

unfoldable pub non_empty : List String → List String
non_empty [] = []
non_empty (item ∷ items) = let rest = non_empty items in if item =t "" then rest else item ∷ rest

-- The variables of the environment and what reads them. A negative integer is read as 0.
module _ (words : Words) (getenv : String → String) where
  unfoldable pub env_str : String → String → String
  env_str name fallback = if getenv name =t "" then fallback else getenv name

  unfoldable pub env_int : String → ℕ → ℕ
  env_int name fallback = elim (words.atoi (getenv name)) [ none ↦ fallback | some v ↦ v ]

  unfoldable pub env_list : String → String → List String
  env_list name fallback =
      non_empty (map words.trim_space (words.split (env_str name fallback) ","))

  -- One pair of CLAUDE_GATEWAY_CONTEXT_LENGTH.
  unfoldable pub add_context_length : List (String × ℕ) → String → List (String × ℕ)
  add_context_length lengths pair = elim (words.cut (words.trim_space pair) "=") [
    | none ↦ lengths
    | some (id, length_text) ↦ elim (words.atoi (words.trim_space length_text)) [
      | none ↦ lengths
      | some n ↦ insert (words.trim_space id) n lengths
    ]
  ]

  unfoldable pub add_context_lengths : List (String × ℕ) → List String → List (String × ℕ)
  add_context_lengths lengths [] = lengths
  add_context_lengths lengths (pair ∷ pairs) =
      add_context_lengths (add_context_length lengths pair) pairs

  -- The lengths of the models, and the default that is not positive where none is set.
  unfoldable pub context_lengths_of : String → List (String × ℕ) × ℕ
  context_lengths_of v =
      if v =t ""
      then ([], 0)
      else if contains v "="
      then (add_context_lengths [] (words.split v ","), 0)
      else ([], (elim (words.atoi v) [ none ↦ 0 | some n ↦ n ]))

  unfoldable pub resume_sessions_of : String → Bool
  resume_sessions_of v =
      member (words.to_lower (words.trim_space v)) ("1" ∷ "true" ∷ "yes" ∷ "on" ∷ [])

-- `gateway.Config`.
pub record Config : Type 0 where
  pub port : ℕ
  pub host : String
  pub api_key : String
  pub default_model : String
  pub models : List String
  pub claude_bin : String
  pub timeout_ms : ℕ
  pub concurrency : ℕ
  pub max_sessions : ℕ
  pub tool_timeout_ms : ℕ
  pub session_idle_ms : ℕ
  pub context_lengths : List (String × ℕ)
  pub default_context_length : ℕ
  pub resume_sessions : Bool
  pub resume_max_entries : ℕ
  pub expose_reasoning : Bool
  pub usage_db : String

-- The configuration of `runServe`, with the path of the CLI.
unfoldable pub serve_config : Words → (String → String) → String → Config
serve_config words getenv claude_bin =
    let (lengths, fallback) =
      context_lengths_of words getenv (getenv "CLAUDE_GATEWAY_CONTEXT_LENGTH") in
    record {
      port = env_int words getenv "CLAUDE_GATEWAY_PORT" 8787;
      host = env_str words getenv "CLAUDE_GATEWAY_HOST" "127.0.0.1";
      api_key = getenv "CLAUDE_GATEWAY_API_KEY";
      default_model = env_str words getenv "CLAUDE_GATEWAY_MODEL" "sonnet";
      models = env_list words getenv "CLAUDE_GATEWAY_MODELS" "sonnet,opus,haiku";
      claude_bin = claude_bin;
      timeout_ms = env_int words getenv "CLAUDE_GATEWAY_TIMEOUT_MS" 300000;
      concurrency = env_int words getenv "CLAUDE_GATEWAY_CONCURRENCY" 4;
      max_sessions = env_int words getenv "CLAUDE_GATEWAY_MAX_SESSIONS" 16;
      tool_timeout_ms = env_int words getenv "CLAUDE_GATEWAY_TOOL_TIMEOUT_MS" 120000;
      session_idle_ms = env_int words getenv "CLAUDE_GATEWAY_SESSION_IDLE_MS" 600000;
      context_lengths = lengths;
      default_context_length = fallback;
      resume_sessions = resume_sessions_of words getenv (getenv "CLAUDE_GATEWAY_RESUME");
      resume_max_entries = env_int words getenv "CLAUDE_GATEWAY_RESUME_MAX" 32;
      expose_reasoning = (elim (words.parse_bool (getenv "CLAUDE_GATEWAY_EXPOSE_REASONING")) [
        | none ↦ false
        | some v ↦ v
      ]);
      usage_db = getenv "CLAUDE_GATEWAY_USAGE_DB";
    }

abbrev pub or_default : ℕ → ℕ → ℕ
or_default n fallback = if n == 0 then fallback else n

-- The configuration as `NewServer` completes it.
unfoldable pub completed_config : Config → Config
completed_config config = record config {
  max_sessions = or_default config.max_sessions 16;
  tool_timeout_ms = or_default config.tool_timeout_ms 120000;
  session_idle_ms = or_default config.session_idle_ms 600000;
  resume_max_entries = or_default config.resume_max_entries 32;
}
