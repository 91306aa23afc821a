-- ===== src/Session/Calls.antt =====
-- internal/gateway/session.go: `PendingToolCall`, its `Resolver` channel, `Session`, and what the
-- session's own lock protects. A pointer to a pending call is its index in `pending`, to which
-- calls are only ever appended. Times are in nanoseconds.
use valyrium.Base.{
  Bool, List, Option, String, [], false, get_elem?, if◌then◌else◌, insert, length, lookup, map,
  none, not, some, suc, text_key, true, zero, ℕ, ◌&&◌, ◌++◌, ◌=t◌, ◌||◌, ◌∷◌,
}

-- `chan string` of capacity 1. `faulted`: a send or a close was made on which Go panics, or a send
-- that would block with the session's lock held.
pub record Channel : Type 0 where
  pub buffer : Option String
  pub closed : Bool
  pub faulted : Bool

unfoldable pub fresh : Channel
fresh = record { buffer = none; closed = false; faulted = false }

is_some : Option String → Bool
is_some none = false
is_some (some s) = true

unfoldable pub send : Channel → String → Channel
unfolding is_some
send c v =
    if c.closed || is_some c.buffer
    then record c { faulted = true }
    else record c { buffer = some v }

unfoldable pub close_channel : Channel → Channel
close_channel c = if c.closed then record c { faulted = true } else record c { closed = true }

-- `v, ok := <-c`: `none` while it waits, the value or (after the close) `some none`.
unfoldable pub receive : Channel → Option (Option String × Channel)
receive c = elim c.buffer [
  | some v ↦ some (some v, record c { buffer = none })
  | none ↦ if c.closed then some (none, c) else none
]

pub record PendingToolCall : Type 0 where
  pub id : String
  pub name : String
  pub arguments : String
  pub resolver : Channel
  pub claimed : Bool
  pub resolved : Bool

pub record ToolSchema : Type 0 where
  pub type : String
  pub name : String
  pub description : String
  pub parameters : String

-- `has_cmd` and `killed`: whether `Cmd.Process` is there, and whether it was killed.
pub record Session : Type 0 where
  pub id : String
  pub has_cmd : Bool
  pub killed : Bool
  pub tools : List ToolSchema
  pub pending : List PendingToolCall
  pub pending_by_id : List (String × ℕ)
  pub created_at : ℕ
  pub last_activity : ℕ
  pub reaped : Bool

-- A tool use on the stream, with the id that `NewToolCallID` mints for it and its arguments as
-- `canonicalJSON` writes them.
pub record Announced : Type 0 where
  pub minted : String
  pub name : String
  pub arguments : String

unfoldable pub new_call : Announced → PendingToolCall
new_call u = record {
  id = u.minted;
  name = u.name;
  arguments = u.arguments;
  resolver = fresh;
  claimed = false;
  resolved = false;
}

-- One round of the loop of `RegisterAnnouncedCalls`.
unfoldable pub append_call : Session → Announced → Session
append_call s u = record s {
  pending = s.pending ++ new_call u ∷ [];
  pending_by_id = insert u.minted (length s.pending) s.pending_by_id;
}

unfoldable pub append_calls : Session → List Announced → Session
append_calls s [] = s
append_calls s (u ∷ us) = append_calls (append_call s u) us

-- `RegisterAnnouncedCalls` under `sess.Mu`; `none` for a reaped session.
unfoldable pub announce : Session → List Announced → ℕ → Option Session
announce s us now =
    if s.reaped then none else some (record (append_calls s us) { last_activity = now })

-- Writes to the call at an index of `pending`.
unfoldable pub modify_call :
    ℕ → (PendingToolCall → PendingToolCall) → List PendingToolCall → List PendingToolCall
modify_call i f [] = []
modify_call zero f (p ∷ ps) = f p ∷ ps
modify_call (suc i) f (p ∷ ps) = p ∷ modify_call i f ps

unfoldable pub mark_resolved : String → PendingToolCall → PendingToolCall
mark_resolved result p = record p { resolved = true; resolver = send p.resolver result }

-- `sess.PendingByID[toolCallID]`, with its index.
unfoldable pub call_by_id : Session → String → Option (ℕ × PendingToolCall)
call_by_id s tool_call_id = elim (lookup tool_call_id s.pending_by_id) [
  | none ↦ none
  | some i ↦ elim (get_elem? s.pending i) [ none ↦ none | some p ↦ some (i, p) ]
]

-- `ResolveToolCall` under `sess.Mu`.
unfoldable pub resolve : Session → String → String → ℕ → Session × Bool
resolve s tool_call_id result now = elim (call_by_id s tool_call_id) [
  | none ↦ (s, false)
  | some (i, p) ↦ if p.resolved then (s, false) else (
    record s { pending = modify_call i (mark_resolved result) s.pending; last_activity = now },
    true,
  )
]

unfoldable pub claimable : String → String → PendingToolCall → Bool
claimable name canon_args p = not p.claimed && (p.name =t name && p.arguments =t canon_args)

-- The loop of `ClaimPendingCall`: the index of the first call that fits.
unfoldable pub first_claimable : String → String → List PendingToolCall → Option ℕ
first_claimable name canon_args [] = none
first_claimable name canon_args (p ∷ ps) =
    if claimable name canon_args p
    then some 0
    else (elim (first_claimable name canon_args ps) [ none ↦ none | some i ↦ some (suc i) ])

unfoldable pub mark_claimed : PendingToolCall → PendingToolCall
mark_claimed p = record p { claimed = true }

unfoldable pub claim_pending_call : Session → String → String → ℕ → Session × Option ℕ
claim_pending_call s name canon_args now = elim (first_claimable name canon_args s.pending) [
  | none ↦ (s, none)
  | some i ↦
      (record s { pending = modify_call i mark_claimed s.pending; last_activity = now }, some i)
]

-- The channel operation at the end of `handleMCPToolsCall`.
unfoldable pub take_result : PendingToolCall → PendingToolCall
take_result p = elim (receive p.resolver) [ none ↦ p | some (_, c) ↦ record p { resolver = c } ]

unfoldable pub has_pending : List PendingToolCall → Bool
has_pending [] = false
has_pending (p ∷ ps) = not p.resolved || has_pending ps

unfoldable pub abandon : PendingToolCall → PendingToolCall
abandon p =
    if p.resolved then p else record p { resolved = true; resolver = close_channel p.resolver }

-- `reapSessionLocked` under `sess.Mu`.
unfoldable pub reap : Session → Session
reap s = record s { reaped = true; pending = map abandon s.pending; killed = s.killed || s.has_cmd }
