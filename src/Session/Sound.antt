-- ===== src/Session/Sound.antt =====
-- The channel of a pending call gets one value or one close, and no operation on it can panic or
-- block with a lock held.
use valyrium.Base.{
  All, All-append, Bool-cases, List, Option-cases, String, [], arith, false, get_elem?, inl, inr,
  map, none, refl, some, subst, suc, zero, ℕ, ◌∷◌, ◌≡◌,
}
use valyrium.Session.Calls.{
  Announced, PendingToolCall, Session, abandon, announce, append_call, append_calls, call_by_id,
  claim_pending_call, close_channel, first_claimable, fresh, mark_claimed, mark_resolved,
  modify_call, new_call, reap, receive, resolve, send, take_result,
}

pub record IsSound (p : PendingToolCall) : Type 0 where
  pub calm : p.resolver.faulted ≡ false
  pub unsent : p.resolved ≡ false → p.resolver.buffer ≡ none
  pub unclosed : p.resolved ≡ false → p.resolver.closed ≡ false

-- Every call of the session.
pub record IsCalm (s : Session) : Type 0 where
  pub calls : All IsSound s.pending

new_call-IsSound : (u : Announced) → IsSound (new_call u)
unfolding new_call fresh
new_call-IsSound u = record { calm = refl; unsent = λ _. refl; unclosed = λ _. refl }

mark_resolved-IsSound :
    (result : String) (p : PendingToolCall)
    → p.resolved ≡ false
    → IsSound p
    → IsSound (mark_resolved result p)
unfolding mark_resolved send
mark_resolved-IsSound result p pend h = ground (arith, h.unsent pend, h.unclosed pend)

abandon-IsSound : (p : PendingToolCall) → IsSound p → IsSound (abandon p)
unfolding abandon close_channel
abandon-IsSound p h = ground arith

take_result-IsSound : (p : PendingToolCall) → IsSound p → IsSound (take_result p)
unfolding take_result receive
take_result-IsSound p h = ground arith

mark_claimed-IsSound : (p : PendingToolCall) → IsSound p → IsSound (mark_claimed p)
unfolding mark_claimed
mark_claimed-IsSound p h = ground arith

All-modify_call :
    (i : ℕ) (f : PendingToolCall → PendingToolCall) (ps : List PendingToolCall)
    → ((p : PendingToolCall) → get_elem? ps i ≡ some p → IsSound p → IsSound (f p))
    → All IsSound ps
    → All IsSound (modify_call i f ps)
unfolding modify_call
All-modify_call i f [] keep h = tt
All-modify_call zero f (p ∷ ps) keep h = (keep p refl h.0, h.1)
All-modify_call (suc i) f (p ∷ ps) keep h = (h.0, All-modify_call i f ps keep h.1)

All-abandon : (ps : List PendingToolCall) → All IsSound ps → All IsSound (map abandon ps)
All-abandon [] h = tt
All-abandon (p ∷ ps) h = (abandon-IsSound p h.0, All-abandon ps h.1)

append_calls-IsCalm : (s : Session) (us : List Announced) → IsCalm s → IsCalm (append_calls s us)
unfolding append_calls append_call
append_calls-IsCalm s [] h = h
append_calls-IsCalm s (u ∷ us) h = append_calls-IsCalm (append_call s u) us (record {
  calls = All-append IsSound s.pending (new_call u ∷ []) h.calls (new_call-IsSound u, tt);
})

pub append_calls_keeps :
    (s : Session) (us : List Announced)
    → ((append_calls s us).id ≡ s.id) × ((append_calls s us).reaped ≡ s.reaped)
unfolding append_calls append_call
append_calls_keeps s [] = (refl, refl)
append_calls_keeps s (u ∷ us) = append_calls_keeps (append_call s u) us

-- A write of a handler to a session: the session stays calm, and is the same session.
pub record Writes (s s' : Session) : Type 0 where
  pub same_id : s'.id ≡ s.id
  pub same_reaped : s'.reaped ≡ s.reaped
  pub calm : IsCalm s → IsCalm s'

pub announce-Writes :
    (s s' : Session) (us : List Announced) (now : ℕ) → announce s us now ≡ some s' → Writes s s'
unfolding announce
announce-Writes s s' us now e =
    let e' : record (append_calls s us) { last_activity = now } ≡ s' = ground arith in
    subst (Writes s) e' (record {
      same_id = (append_calls_keeps s us).0;
      same_reaped = (append_calls_keeps s us).1;
      calm = λ h. record { calls = (append_calls-IsCalm s us h).calls };
    })

call_by_id_get :
    (s : Session) (id : String) (i : ℕ) (p : PendingToolCall)
    → call_by_id s id ≡ some (i, p)
    → get_elem? s.pending i ≡ some p
unfolding call_by_id
call_by_id_get s id i p e = ground arith

resolve_open :
    (s : Session) (id result : String) (now i : ℕ) (p : PendingToolCall)
    → call_by_id s id ≡ some (i, p)
    → p.resolved ≡ false
    → Writes s
        (record s { pending = modify_call i (mark_resolved result) s.pending; last_activity = now })
resolve_open s id result now i p e pend = record {
  same_id = refl;
  same_reaped = refl;
  calm = λ h. record {
    calls =
        All-modify_call i (mark_resolved result) s.pending
          (λ q at sound.
            mark_resolved-IsSound result q (ground (arith, call_by_id_get s id i p e)) sound)
          h.calls;
  };
}

pub Writes-refl : (s : Session) → Writes s s
Writes-refl s = record { same_id = refl; same_reaped = refl; calm = λ h. h }

pub resolve-Writes :
    (s : Session) (id result : String) (now : ℕ) → Writes s (resolve s id result now).0
unfolding resolve
resolve-Writes s id result now = elim (Option-cases (call_by_id s id)) [
  | inl e ↦ rw (e, resolve) (Writes-refl s)
  | inr ((i, p), e) ↦ elim (Bool-cases p.resolved) [
    | inl closed ↦ rw (e, closed, resolve) (Writes-refl s)
    | inr pend ↦ rw (e, pend, resolve) (resolve_open s id result now i p e pend)
  ]
]

pub claim-Writes :
    (s : Session) (name args : String) (now : ℕ) → Writes s (claim_pending_call s name args now).0
unfolding claim_pending_call
claim-Writes s name args now = elim (Option-cases (first_claimable name args s.pending)) [
  | inl e ↦ rw (e, claim_pending_call) (Writes-refl s)
  | inr (i, e) ↦
      rw (e, claim_pending_call)
        (record {
          same_id = refl;
          same_reaped = refl;
          calm = λ h. record {
            calls =
                All-modify_call i mark_claimed s.pending (λ p _. mark_claimed-IsSound p) h.calls;
          };
        })
]

pub receive-Writes :
    (s : Session) (i : ℕ) → Writes s (record s { pending = modify_call i take_result s.pending })
receive-Writes s i = record {
  same_id = refl;
  same_reaped = refl;
  calm = λ h. record {
    calls = All-modify_call i take_result s.pending (λ p _. take_result-IsSound p) h.calls;
  };
}

pub reap-IsCalm : (s : Session) → IsCalm s → IsCalm (reap s)
unfolding reap
reap-IsCalm s h = record { calls = All-abandon s.pending h.calls }
