-- ===== src/Http/Gateway.antt =====
-- internal/gateway/server.go: `Server`, its making and its end, and what its handlers note of a request.
use valyrium.Usage.{SaveSteps, UsageStore, close_store, record_usage_on}
use valyrium.Base.{Bool, Option, String, false, if◌then◌else◌, none, some, true, ℕ, ◌+t◌}
use valyrium.Command.{Config, completed_config}
use valyrium.Metrics.{Metrics, new_metrics, record_request}
use valyrium.Resume.{ResumeStore, new_resume_store}
use valyrium.Server.{Semaphore, new_semaphore}
use valyrium.Session.{SessionManager, close, new_session_manager}
use valyrium.Turn.Answer.{status}
use valyrium.Turn.{TurnOutcome}
use valyrium.Usage.Calendar.{Date}
use valyrium.Http.{HttpRequest}
use valyrium.Http.Chat.{Accounting, accounted, no_accounting}
use valyrium.Cli.Start.{SessionRunOptions}

pub record Gateway {ℓ} (Cost : Type ℓ) : Type ℓ where
  pub config : Config
  pub slots : Semaphore
  pub metrics : Metrics
  pub usage : UsageStore Cost
  pub sessions : SessionManager
  pub resume : Option ResumeStore
  pub mcp_base_url : String
  pub shut_down : Bool

-- `strings.TrimSuffix(baseURL, "/")` is outside.
unfoldable pub set_mcp_base_url {ℓ} : {Cost : Type ℓ} → Gateway Cost → String → Gateway Cost
set_mcp_base_url g trimmed = record g { mcp_base_url = trimmed }

module _ {ℓ} {Cost : Type ℓ} where
  -- `NewServer`, with the ledger that `OpenUsageStore` opens and the decimal form of the port.
  unfoldable pub new_server : Config → UsageStore Cost → String → Gateway Cost
  new_server given usage port =
      let config = completed_config given in
      record {
        config = config;
        slots = new_semaphore config.concurrency;
        metrics = new_metrics;
        usage = usage;
        sessions =
            new_session_manager config.max_sessions config.tool_timeout_ms config.session_idle_ms;
        resume =
            if config.resume_sessions
            then some (new_resume_store config.resume_max_entries)
            else none;
        mcp_base_url = "http://127.0.0.1:" +t port;
        shut_down = false;
      }

  -- `Shutdown`, after the listeners are closed.
  unfoldable pub shutdown : Gateway Cost → SaveSteps Cost → Gateway Cost
  shutdown g st = if g.shut_down then g else record g {
    sessions = close g.sessions;
    usage = close_store g.usage st;
    shut_down = true;
  }

  -- What a handler with one status notes when it returns.
  unfoldable pub note_request : Gateway Cost → HttpRequest → ℕ → ℕ → Gateway Cost
  note_request g r status duration = record g {
    metrics = record_request g.metrics r.method r.path status duration;
  }

  -- The options of a session's CLI.
  unfoldable pub session_options :
      Gateway Cost → String → String × String → String → String → SessionRunOptions
  session_options g session_id (system_prompt, prompt) model effort = record {
    prompt = prompt;
    system_prompt = system_prompt;
    model = model;
    effort = effort;
    mcp_url = g.mcp_base_url +t "/mcp/" +t session_id;
    tool_timeout_ms = g.config.tool_timeout_ms;
    expose_reasoning = g.config.expose_reasoning;
  }

  -- What a turn of a session adds to the ledger: a stream that fails adds nothing.
  unfoldable pub turn_accounting : TurnOutcome Cost → Accounting Cost
  turn_accounting out = accounted out.usage out.cost_usd

  unfoldable pub stream_turn_accounting : TurnOutcome Cost → Accounting Cost
  stream_turn_accounting out = elim out.err [
    | none ↦ accounted out.usage out.cost_usd
    | some e ↦ no_accounting
  ]

module _ {ℓ} {Cost : Type ℓ} (plus : Cost → Cost → Cost) (nought : Cost) where
  -- The deferred function of `handleChatCompletions`.
  unfoldable pub note_chat :
      Gateway Cost → HttpRequest → ℕ → ℕ → Accounting Cost → Date → SaveSteps Cost → Gateway Cost
  note_chat g r status duration a today st = record (note_request g r status duration) {
    usage =
        record_usage_on plus nought g.usage today a.prompt_tokens a.completion_tokens a.cost_usd st;
  }
