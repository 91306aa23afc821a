-- ===== src/Session/Reap.antt =====
-- What a reap takes away, and what it leaves.
use valyrium.Base.{
  ==_refl, All, List, String, [], arith, false, get_elem?, if◌then◌else◌, lookup, lookup-delete,
  map, none, refl, some, text_iff, text_key, true, ℕ, ◌==◌, ◌=t◌, ◌||◌, ◌∷◌, ◌≡◌, ◌≢◌,
}
use valyrium.Session.Calls.{
  Announced, PendingToolCall, Session, abandon, announce, close_channel, fresh, reap, receive,
}
use valyrium.Session.{
  SessionManager, get_session, modify, reap_session_locked, register_announce,
  register_announced_calls,
}
use valyrium.Session.Valid.{IsValid, get_elem?-modify, lookup-drop_session}

-- A call that is no longer pending.
abbrev pub IsReleased : PendingToolCall → Type 0
IsReleased p = p.resolved ≡ true

abandon-IsReleased : (ps : List PendingToolCall) → All IsReleased (map abandon ps)
unfolding abandon
abandon-IsReleased [] = tt
abandon-IsReleased (p ∷ ps) = (ground arith, abandon-IsReleased ps)

-- A handler that waits for a result of an unresolved call is woken with `ok == false`.
pub abandon-receive :
    (p : PendingToolCall)
    → p.resolved ≡ false
    → p.resolver ≡ fresh
    → receive (abandon p).resolver ≡ some (none, (abandon p).resolver)
unfolding abandon close_channel receive fresh
abandon-receive p pend e = ground arith

-- Reaping a live session: it leaves the table, no tool-call id leads to it, each of its calls is
-- resolved, its process is killed if there is one, and it takes no new calls.
pub reap_session_locked_lem :
    (sm : SessionManager) (id t : String) (q now : ℕ) (s : Session) (us : List Announced)
    → IsValid sm
    → lookup id sm.sessions ≡ some q
    → get_elem? sm.heap q ≡ some s
    → let sm' = reap_session_locked sm id in
      (get_session sm' id ≡ none)
      × (lookup t sm'.tool_call_id_to_session ≢ some id)
      × (get_elem? sm'.heap q ≡ some (reap s))
      × All IsReleased (reap s).pending
      × ((reap s).killed ≡ s.killed || s.has_cmd)
      × (register_announced_calls sm' q us now ≡ (sm', []))
unfolding reap_session_locked get_session register_announced_calls register_announce
reap_session_locked_lem sm id t q now s us v found at =
    rw (found, reap_session_locked)
      (
        ground (arith, lookup-delete id id sm.sessions, text_iff id id),
        ground (
          arith,
          lookup-drop_session id t sm.tool_call_id_to_session v.indexed_once,
          text_iff id id,
        ),
        reaped_here,
        unfold reap in abandon-IsReleased s.pending,
        unfold reap in refl,
        rw (reaped_here, register_announce) (unfold announce reap in refl),
      )
  where
    reaped_here : get_elem? (modify q reap sm.heap) q ≡ some (reap s)
    reaped_here = ground (arith, get_elem?-modify q q reap sm.heap, ==_refl q)

-- A reap touches nothing else, on any id: other sessions stay in the table and as they are, and
-- the tool-call ids lead where they led, unless that was the reaped session.
pub reap_session_locked_others :
    (sm : SessionManager) (id j t : String) (p q : ℕ)
    → IsValid sm
    → lookup id sm.sessions ≡ some q
    → let sm' = reap_session_locked sm id in
      (get_session sm' j ≡ (if id =t j then none else get_session sm j))
      × (get_elem? sm'.heap p ≡ (elim (get_elem? sm.heap p) [
        | none ↦ none
        | some s ↦ some (if q == p then reap s else s)
      ]))
      × (lookup t sm'.tool_call_id_to_session ≡ (elim (lookup t sm.tool_call_id_to_session) [
        | none ↦ none
        | some k ↦ if k =t id then none else some k
      ]))
unfolding reap_session_locked get_session
reap_session_locked_others sm id j t p q v found =
    rw (found, reap_session_locked)
      (
        lookup-delete id j sm.sessions,
        get_elem?-modify q p reap sm.heap,
        lookup-drop_session id t sm.tool_call_id_to_session v.indexed_once,
      )
