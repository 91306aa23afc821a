-- ===== src/Cli/Start.antt =====
-- internal/gateway/claudecli.go: the command of `StartClaudeSession`.
use valyrium.Base.{Bool, List, String, ℕ, ◌++◌, ◌+t◌, ◌+◌, ◌∷◌}
use valyrium.Cli.Run.{flag_if}

pub record SessionRunOptions : Type 0 where
  pub prompt : String
  pub system_prompt : String
  pub model : String
  pub effort : String
  pub mcp_url : String
  pub tool_timeout_ms : ℕ
  pub expose_reasoning : Bool

unfoldable pub mcp_config : String → String
mcp_config url = "{\"mcpServers\":{\"relay\":{\"type\":\"http\",\"url\":\"" +t url +t "\"}}}"

unfoldable pub session_args : SessionRunOptions → List String
session_args opts =
    "-p"
      ∷ "--output-format"
      ∷ "stream-json"
      ∷ "--include-partial-messages"
      ∷ "--verbose"
      ∷ "--tools"
      ∷ ""
      ∷ "--no-session-persistence"
      ∷ "--disable-slash-commands"
      ∷ "--system-prompt"
      ∷ opts.system_prompt
      ∷ "--strict-mcp-config"
      ∷ "--mcp-config"
      ∷ mcp_config opts.mcp_url
      ∷ flag_if "--model" opts.model
    ++ flag_if "--effort" opts.effort

-- The CLI's own timeout for a tool, in milliseconds.
unfoldable pub mcp_timeout : SessionRunOptions → ℕ
mcp_timeout opts = opts.tool_timeout_ms + 60000
