-- ===== src/Mcp/Parked.antt =====
-- internal/gateway/mcpserver.go: how a parked tools/call request is answered.
use valyrium.Base.{
  List, String, [], arith, false, get_elem?, lookup, map, none, refl, some, suc, text_key, zero, ℕ,
  ◌∙◌, ◌∷◌, ◌≡◌,
}
use valyrium.Session.{SessionManager, reap_session_locked, receive_on, resolve_tool_call}
use valyrium.Session.Calls.{PendingToolCall, Session, abandon, call_by_id, fresh, reap, receive}
use valyrium.Session.Calling.{resolve_tool_call_once}
use valyrium.Session.Reap.{abandon-receive, reap_session_locked_lem}
use valyrium.Session.Valid.{IsValid}
use valyrium.Mcp.{rpc_error, rpc_result, text_content, unpark}

call_by_id-get_elem? :
    (s : Session) (t : String) (i : ℕ) (p : PendingToolCall)
    → call_by_id s t ≡ some (i, p)
    → get_elem? s.pending i ≡ some p
unfolding call_by_id
call_by_id-get_elem? s t i p h = ground (arith, h)

unpark_at :
    (sm : SessionManager) (q i : ℕ) (id : String) (s : Session) (p : PendingToolCall)
    → get_elem? sm.heap q ≡ some s
    → get_elem? s.pending i ≡ some p
    → unpark sm q i id ≡ (elim (receive p.resolver) [
      | none ↦ none
      | some (some result, c) ↦ some (receive_on sm q i, rpc_result (text_content result) id)
      | some (none, c) ↦ some (
        receive_on sm q i,
        rpc_error
            (record { code = 32600; message = "session reaped before a tool result arrived" })
            id,
      )
    ])
unfolding unpark
unpark_at sm q i id s p at here = rw (at, here, unpark) refl

get_elem?-map :
    (f : PendingToolCall → PendingToolCall) (ps : List PendingToolCall) (i : ℕ)
    (p : PendingToolCall)
    → get_elem? ps i ≡ some p
    → get_elem? (map f ps) i ≡ some (f p)
get_elem?-map f [] i p h = cc
get_elem?-map f (x ∷ ps) zero p h = ground (arith, h)
get_elem?-map f (x ∷ ps) (suc i) p h = get_elem?-map f ps i p h

-- A request that is parked on a call waits until the call is resolved or its session is reaped, is
-- answered with the client's result in the first case, and with an error in the second.
pub unpark-resolve_tool_call :
    (sm : SessionManager) (q i now : ℕ) (s : Session) (p : PendingToolCall) (t result id : String)
    → IsValid sm
    → get_elem? sm.heap q ≡ some s
    → lookup s.id sm.sessions ≡ some q
    → call_by_id s t ≡ some (i, p)
    → p.resolved ≡ false
    → p.resolver ≡ fresh
    → (unpark sm q i id ≡ none)
      × (((sm' : SessionManager) × (unpark (resolve_tool_call sm q t result now).0 q i id
              ≡ some (sm', rpc_result (text_content result) id)))
          × ((sm' : SessionManager) × (unpark (reap_session_locked sm s.id) q i id
                ≡ some (
                  sm',
                  rpc_error
                      (record {
                        code = 32600;
                        message = "session reaped before a tool result arrived";
                      })
                      id,
                ))))
unpark-resolve_tool_call sm q i now s p t result id v at listed known pend f =
    let here = call_by_id-get_elem? s t i p known in
    let (done, (p', s', at', known', got), gone, again) =
      resolve_tool_call_once sm q i now now s p t result result at known pend f in
    let reaped = (reap_session_locked_lem sm s.id t q now s [] v listed at).2 in
    (
      unpark_at sm q i id s p at here ∙ rw f (unfold receive fresh in refl),
      (
        (
          receive_on (resolve_tool_call sm q t result now).0 q i,
          unpark_at _ q i id s' p' at' (call_by_id-get_elem? s' t i p' known') ∙ rw got refl,
        ),
        (
          receive_on (reap_session_locked sm s.id) q i,
          unpark_at _ q i id (reap s) (abandon p) reaped
                (unfold reap in get_elem?-map abandon s.pending i p here)
              ∙ rw (abandon-receive p pend f) refl,
        ),
      ),
    )
