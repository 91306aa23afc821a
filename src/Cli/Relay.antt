-- ===== src/Cli/Relay.antt =====
-- internal/gateway/claudecli.go: `relaySessionStream`, which turns the lines of a session's CLI into
-- the events of the session. `mint` draws the tool-call ids, and `canonical` is `canonicalJSON`.
use valyrium.Base.{
  Bool, List, Option, String, [], false, if◌then◌else◌, length, none, not, some, true, ℕ, ◌&&◌, ◌*◌,
  ◌++◌, ◌+◌, ◌=t◌, ◌∷◌,
}
use Prim.Native.String.{len, slice}
use package.text.Mathlib.Text.{starts_with}
use valyrium.Cli.{
  Block, CliError, Event, Message, Output, StreamLine, error_detail, no_result, reported, scan,
}
use valyrium.Prompt.Reply.{Usage}
use valyrium.Session.{SessionManager, register_announced_calls}
use valyrium.Session.Calls.{Announced}

-- The buffer that `relaySessionStream` gives its scanner.
abbrev pub relay_buffer : ℕ
relay_buffer = 4 * 1024 * 1024

-- `SessionEvent`, a constructor for each `Type` with the fields that it uses. The calls are the
-- parts of a `PendingToolCall` that never change.
pub data SessionEvent {ℓ} (Cost : Type ℓ) : Type ℓ where
  text_event reasoning_event : String → SessionEvent Cost
  stop_event : Option String → Option Usage → SessionEvent Cost
  tool_calls_event : String → List Announced → SessionEvent Cost
  run_end :
      Option String
      → Option String
      → Option Usage
      → Option Cost
      → Option CliError
      → SessionEvent Cost

-- `strings.TrimPrefix(name, "mcp__relay__")`.
abbrev pub mcp_prefix : String
mcp_prefix = "mcp__relay__"

unfoldable pub strip_mcp_tool_prefix : String → String
strip_mcp_tool_prefix name =
    if starts_with name mcp_prefix then slice name (len mcp_prefix) (len name) else name

unfoldable pub tool_uses : List Block → List Block
tool_uses [] = []
tool_uses (b ∷ bs) = let rest = tool_uses bs in if b.type =t "tool_use" then b ∷ rest else rest

-- The calls that are announced, with the ids that are drawn for them.
unfoldable pub announced_from : (ℕ → String) → (String → String) → ℕ → List Block → List Announced
announced_from mint canonical n [] = []
announced_from mint canonical n (b ∷ bs) =
    record { minted = mint n; name = strip_mcp_tool_prefix b.name; arguments = canonical b.input }
    ∷ announced_from mint canonical (n + 1) bs

-- `RegisterAnnouncedCalls` returns the calls, or nil for a session that was reaped.
unfoldable pub taken : List Announced → List String → List Announced
taken us [] = []
taken us (id ∷ ids) = us

-- The state of the reader: the session table, the number of ids drawn, the events sent.
pub record Relay {ℓ} (Cost : Type ℓ) : Type ℓ where
  pub sm : SessionManager
  pub drawn : ℕ
  pub sent : List (SessionEvent Cost)
  pub saw_result : Bool

module _ {ℓ} {Cost : Type ℓ} where
  unfoldable pub emit : Relay Cost → SessionEvent Cost → Relay Cost
  emit r ev = record r { sent = r.sent ++ ev ∷ [] }

  unfoldable pub relay_stop : Relay Cost → Event → Relay Cost
  relay_stop r ev =
      emit r (stop_event (elim ev.delta [ none ↦ none | some d ↦ d.stop_reason ]) ev.usage)

  unfoldable pub relay_other : Relay Cost → Event → Relay Cost
  relay_other r ev = if ev.type =t "message_delta" then relay_stop r ev else r

  -- A "stream_event" line.
  unfoldable pub relay_event : Bool → Relay Cost → Option Event → Relay Cost
  relay_event expose r none = r
  relay_event expose r (some ev) = elim ev.delta [
    | none ↦ relay_other r ev
    | some d ↦
        if ev.type =t "content_block_delta" && (d.type =t "text_delta" && not (d.text =t ""))
        then emit r (text_event d.text)
        else if expose
            && (ev.type =t "content_block_delta"
                && (d.type =t "thinking_delta" && not (d.thinking =t "")))
        then emit r (reasoning_event d.thinking)
        else relay_other r ev
  ]

  -- The event is sent if it says anything.
  unfoldable pub relay_calls : Relay Cost → String → List Announced → Relay Cost
  relay_calls r model [] = if model =t "" then r else emit r (tool_calls_event model [])
  relay_calls r model (u ∷ us) = emit r (tool_calls_event model (u ∷ us))

  unfoldable pub relay_uses :
      (ℕ → String) → (String → String) → ℕ → ℕ → Relay Cost → String → List Block → Relay Cost
  relay_uses mint canonical sess now r model [] = relay_calls r model []
  relay_uses mint canonical sess now r model (b ∷ bs) =
      let us = announced_from mint canonical r.drawn (b ∷ bs) in
      let (sm', ids) = register_announced_calls r.sm sess us now in
      relay_calls (record r { sm = sm'; drawn = r.drawn + length us }) model (taken us ids)

  -- An "assistant" line.
  unfoldable pub relay_message :
      (ℕ → String) → (String → String) → ℕ → ℕ → Relay Cost → Option Message → Relay Cost
  relay_message mint canonical sess now r none = r
  relay_message mint canonical sess now r (some m) =
      relay_uses mint canonical sess now r m.model (tool_uses m.content)

  -- A "result" line.
  unfoldable pub relay_result : Relay Cost → StreamLine Cost → Relay Cost
  relay_result r l =
      emit (record r { saw_result = true })
        (run_end (if l.result =t "" then none else some l.result) l.stop_reason l.usage
          l.total_cost_usd (if l.is_error then some (reported (error_detail l)) else none))

  -- The switch of the loop.
  unfoldable pub relay_line :
      (ℕ → String) → (String → String) → Bool → ℕ → Relay Cost → ℕ → StreamLine Cost → Relay Cost
  relay_line mint canonical expose sess r now l =
      if l.type =t "stream_event"
      then relay_event expose r l.event
      else if l.type =t "assistant"
      then relay_message mint canonical sess now r l.message
      else if l.type =t "result"
      then relay_result r l
      else r

  -- The loop. What others do to the table before a line is the function that comes with the line.
  unfoldable pub relay_lines :
      (ℕ → String)
      → (String → String)
      → Bool
      → ℕ
      → Relay Cost
      → List ((SessionManager → SessionManager) × Output Cost)
      → Relay Cost
  relay_lines mint canonical expose sess r [] = r
  relay_lines mint canonical expose sess r ((others, o) ∷ os) =
      let r' = record r { sm = others r.sm } in
      elim o.parsed [
        | none ↦ relay_lines mint canonical expose sess r' os
        | some l ↦
            relay_lines mint canonical expose sess (relay_line mint canonical expose sess r' o.at l)
              os
      ]

  -- What follows the loop, before the channel of events is closed.
  unfoldable pub relay_finish : Relay Cost → Relay Cost
  relay_finish r = if r.saw_result then r else emit r (run_end none none none none (some no_result))

  unfoldable pub relay_session_stream :
      (ℕ → String)
      → (String → String)
      → Bool
      → ℕ
      → SessionManager
      → List ((SessionManager → SessionManager) × Output Cost)
      → Relay Cost
  relay_session_stream mint canonical expose sess sm out = relay_finish (
      relay_lines mint canonical expose sess
        (record { sm = sm; drawn = 0; sent = []; saw_result = false })
        (scan (λ o. o.1.size) relay_buffer out))
