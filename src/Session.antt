-- ===== src/Session.antt =====
-- internal/gateway/session.go, the `SessionManager`. Sessions are known by pointers, which are
-- indices of `heap`; what a handler still holds after a reap is there. Each function is one
-- critical section of `sm.mu` or `sess.Mu`, or a composition of such in the order of the source.
mod Tests
pub mod Example
pub mod Calls
pub mod Sound
pub mod Valid
pub mod Step
pub mod Reap
pub mod Calling
pub mod Claim
pub mod Races
pub mod Ids
pub mod Superseded
pub mod Stopped
use valyrium.Base.{
  Bool, List, Option, String, [], delete, false, get_elem?, if◌then◌else◌, insert, leb, length,
  lookup, ltb, map, none, not, some, suc, text_key, true, zero, ℕ, ◌&&◌, ◌*◌, ◌++◌, ◌-◌, ◌/◌, ◌=t◌,
  ◌||◌, ◌∷◌,
}
use valyrium.Session.Calls.{
  Announced, Session, ToolSchema, announce, claim_pending_call, has_pending, modify_call, reap,
  resolve, take_result,
}

pub record SessionManager : Type 0 where
  pub sessions : List (String × ℕ)
  pub heap : List Session
  pub tool_call_id_to_session : List (String × String)
  pub max_sessions : ℕ
  pub tool_timeout_ms : ℕ
  pub session_idle_ms : ℕ
  pub done : Bool

unfoldable pub new_session_manager : ℕ → ℕ → ℕ → SessionManager
new_session_manager max_sessions tool_timeout_ms session_idle_ms = record {
  sessions = [];
  heap = [];
  tool_call_id_to_session = [];
  max_sessions = max_sessions;
  tool_timeout_ms = tool_timeout_ms;
  session_idle_ms = session_idle_ms;
  done = false;
}

-- The sweeper's period in milliseconds.
unfoldable pub sweep_interval : SessionManager → ℕ
sweep_interval sm =
    let least =
      if ltb sm.session_idle_ms sm.tool_timeout_ms
      then sm.session_idle_ms
      else sm.tool_timeout_ms in
    let tenth = least / 10 in
    let raised = if ltb tenth 10 then 10 else tenth in if ltb 5000 raised then 5000 else raised

-- Writes to the session behind a pointer.
unfoldable pub modify : ℕ → (Session → Session) → List Session → List Session
modify i f [] = []
modify zero f (s ∷ ss) = f s ∷ ss
modify (suc i) f (s ∷ ss) = s ∷ modify i f ss

unfoldable pub new_session : List ToolSchema → String → ℕ → Session
new_session tools id now = record {
  id = id;
  has_cmd = false;
  killed = false;
  tools = tools;
  pending = [];
  pending_by_id = [];
  created_at = now;
  last_activity = now;
  reaped = false;
}

-- `CreateSession`: the id is the one that `newSessionID` draws. `none` is the nil session.
unfoldable pub create_session :
    SessionManager → List ToolSchema → String → ℕ → SessionManager × Option ℕ
create_session sm tools id now = if leb sm.max_sessions (length sm.sessions) then (sm, none) else (
  record sm {
    sessions = insert id (length sm.heap) sm.sessions;
    heap = sm.heap ++ new_session tools id now ∷ [];
  },
  some (length sm.heap),
)

unfoldable pub get_session : SessionManager → String → Option ℕ
get_session sm session_id = lookup session_id sm.sessions

unfoldable pub get_session_by_tool_call_id : SessionManager → String → Option ℕ
get_session_by_tool_call_id sm tool_call_id =
    elim (lookup tool_call_id sm.tool_call_id_to_session) [
      | none ↦ none
      | some session_id ↦ lookup session_id sm.sessions
    ]

-- `RegisterAnnouncedCalls`, its two critical sections. The first one answers whether the session
-- took the calls.
unfoldable pub register_announce : SessionManager → ℕ → List Announced → ℕ → SessionManager × Bool
register_announce sm sess us now = elim (get_elem? sm.heap sess) [
  | none ↦ (sm, false)
  | some s ↦ elim (announce s us now) [
    | none ↦ (sm, false)
    | some s' ↦ (record sm { heap = modify sess (λ _. s') sm.heap }, true)
  ]
]

unfoldable pub index_all : String → List Announced → List (String × String) → List (String × String)
index_all session_id [] m = m
index_all session_id (u ∷ us) m = index_all session_id us (insert u.minted session_id m)

unfoldable pub register_index : SessionManager → String → List Announced → SessionManager
register_index sm session_id us = record sm {
  tool_call_id_to_session = index_all session_id us sm.tool_call_id_to_session;
}

unfoldable pub session_id_of : SessionManager → ℕ → String
session_id_of sm sess = elim (get_elem? sm.heap sess) [ none ↦ "" | some s ↦ s.id ]

unfoldable pub register_announced_calls :
    SessionManager → ℕ → List Announced → ℕ → SessionManager × List String
register_announced_calls sm sess us now =
    let (sm', taken) = register_announce sm sess us now in
    if taken
    then (register_index sm' (session_id_of sm' sess) us, map (λ u. u.minted) us)
    else (sm, [])

-- `ResolveToolCall`, its two critical sections.
unfoldable pub resolve_mark : SessionManager → ℕ → String → String → ℕ → SessionManager × Bool
resolve_mark sm sess tool_call_id result now = elim (get_elem? sm.heap sess) [
  | none ↦ (sm, false)
  | some s ↦
      let (s', done) = resolve s tool_call_id result now in
      (record sm { heap = modify sess (λ _. s') sm.heap }, done)
]

unfoldable pub resolve_unindex : SessionManager → String → SessionManager
resolve_unindex sm tool_call_id = record sm {
  tool_call_id_to_session = delete tool_call_id sm.tool_call_id_to_session;
}

unfoldable pub resolve_tool_call : SessionManager → ℕ → String → String → ℕ → SessionManager × Bool
resolve_tool_call sm sess tool_call_id result now =
    let (sm', done) = resolve_mark sm sess tool_call_id result now in
    if done then (resolve_unindex sm' tool_call_id, true) else (sm', false)

-- The entries of the tool-call index that name a session, dropped.
unfoldable pub drop_session : String → List (String × String) → List (String × String)
drop_session session_id [] = []
drop_session session_id ((k, s) ∷ m) =
    let rest = drop_session session_id m in if s =t session_id then rest else (k, s) ∷ rest

unfoldable pub reap_session_locked : SessionManager → String → SessionManager
reap_session_locked sm session_id = elim (lookup session_id sm.sessions) [
  | none ↦ sm
  | some sess ↦ record sm {
    heap = modify sess reap sm.heap;
    sessions = delete session_id sm.sessions;
    tool_call_id_to_session = drop_session session_id sm.tool_call_id_to_session;
  }
]

unfoldable pub reap_all : SessionManager → List String → SessionManager
reap_all sm [] = sm
reap_all sm (id ∷ ids) = reap_all (reap_session_locked sm id) ids

unfoldable pub member : String → List String → Bool
member x [] = false
member x (y ∷ ys) = y =t x || member x ys

-- The set `superseded` of `ReapSuperseded`, as a list without repetitions.
unfoldable pub superseded : SessionManager → List String → Option String → List String → List String
superseded sm [] keep acc = acc
superseded sm (id ∷ ids) keep acc = elim (lookup id sm.tool_call_id_to_session) [
  | none ↦ superseded sm ids keep acc
  | some session_id ↦ superseded sm ids keep (
      if (elim keep [ none ↦ false | some k ↦ session_id =t k ]) || member session_id acc
      then acc
      else session_id ∷ acc)
]

-- `keep` is the id of the session that the request continues.
unfoldable pub reap_superseded : SessionManager → List String → Option String → SessionManager × ℕ
reap_superseded sm tool_call_ids keep =
    let ids = superseded sm tool_call_ids keep [] in (reap_all sm ids, length ids)

-- The test of `sweep` on one session.
unfoldable pub expired : SessionManager → ℕ → Session → Bool
expired sm now s =
    let age = now - s.last_activity in
    has_pending s.pending && ltb (sm.tool_timeout_ms * 1000000) age
    || not (has_pending s.pending) && ltb (sm.session_idle_ms * 1000000) age

unfoldable pub sweep_over : SessionManager → ℕ → List (String × ℕ) → SessionManager
sweep_over sm now [] = sm
sweep_over sm now ((id, sess) ∷ rest) = elim (get_elem? sm.heap sess) [
  | none ↦ sweep_over sm now rest
  | some s ↦ sweep_over (if expired sm now s then reap_session_locked sm id else sm) now rest
]

unfoldable pub sweep : SessionManager → ℕ → SessionManager
sweep sm now = sweep_over sm now sm.sessions

unfoldable pub close : SessionManager → SessionManager
close sm = record (reap_all sm (map (λ e. e.0) sm.sessions)) { done = true }

-- `ClaimPendingCall` through a pointer to the session.
unfoldable pub claim_on : SessionManager → ℕ → String → String → ℕ → SessionManager × Option ℕ
claim_on sm sess name canon_args now = elim (get_elem? sm.heap sess) [
  | none ↦ (sm, none)
  | some s ↦
      let (s', claimed) = claim_pending_call s name canon_args now in
      (record sm { heap = modify sess (λ _. s') sm.heap }, claimed)
]

-- The handler of an MCP tools/call takes what its call's channel holds.
unfoldable pub receive_on : SessionManager → ℕ → ℕ → SessionManager
receive_on sm sess i = record sm {
  heap = modify sess (λ s. record s { pending = modify_call i take_result s.pending }) sm.heap;
}

-- `sess.Cmd = cmd` in `StartClaudeSession`.
unfoldable pub set_cmd : SessionManager → ℕ → SessionManager
set_cmd sm sess = record sm { heap = modify sess (λ s. record s { has_cmd = true }) sm.heap }
