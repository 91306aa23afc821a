-- ===== src/Session/Calling.antt =====
-- Announcing and resolving tool calls.
use valyrium.Base.{
  ==_refl, Bool, Bool-cases, List, String, [], ap, arith, delete, false, get_elem?, if◌then◌else◌,
  inl, inr, insert, lookup, lookup-delete, lookup-insert, map, none, refl, some, suc, text_iff,
  text_key, true, zero, ℕ, ◌=t◌, ◌∷◌, ◌≡◌,
}
use valyrium.Session.Sound.{append_calls_keeps}
use valyrium.Session.Valid.{get_elem?-modify}
use valyrium.Session.Calls.{
  Announced, PendingToolCall, Session, announce, append_calls, call_by_id, fresh, mark_resolved,
  modify_call, receive, resolve, send,
}
use valyrium.Session.{
  SessionManager, get_session_by_tool_call_id, index_all, member, modify, register_announce,
  register_announced_calls, register_index, resolve_mark, resolve_tool_call, resolve_unindex,
  session_id_of,
}

abbrev pub minted_ids : List Announced → List String
minted_ids = map (λ u. u.minted)

index_all_other :
    (id t : String) (us : List Announced) (m : List (String × String))
    → lookup t m ≡ some id
    → lookup t (index_all id us m) ≡ some id
unfolding index_all
index_all_other id t [] m h = h
index_all_other id t (u ∷ us) m h =
    index_all_other id t us (insert u.minted id m) (ground (arith, lookup-insert u.minted t id m))

-- Every minted id leads to the session that announced it.
pub index_all_hit :
    (id t : String) (us : List Announced) (m : List (String × String))
    → member t (minted_ids us) ≡ true
    → lookup t (index_all id us m) ≡ some id
unfolding index_all member
index_all_hit id t [] m h = cc
index_all_hit id t (u ∷ us) m h = elim (Bool-cases (u.minted =t t)) [
  | inl same ↦
      index_all_other id t us (insert u.minted id m) (ground (arith, lookup-insert u.minted t id m))
  | inr other ↦ index_all_hit id t us (insert u.minted id m) (ground arith)
]

-- The session that `RegisterAnnouncedCalls` leaves.
abbrev announced : Session → List Announced → ℕ → Session
announced s us now = record (append_calls s us) { last_activity = now }

announce_ok :
    (s : Session) (us : List Announced) (now : ℕ)
    → s.reaped ≡ false
    → announce s us now ≡ some (announced s us now)
unfolding announce
announce_ok s us now alive = ap (λ (b : Bool). if b then none else some (announced s us now)) alive

register_ok :
    (sm : SessionManager) (q now : ℕ) (s : Session) (us : List Announced)
    → get_elem? sm.heap q ≡ some s
    → s.reaped ≡ false
    → register_announced_calls sm q us now ≡ (
      register_index (record sm { heap = modify q (λ _. announced s us now) sm.heap }) s.id us,
      minted_ids us,
    )
unfolding register_announced_calls register_announce announce session_id_of
register_ok sm q now s us at alive =
    let e : get_elem? (modify q (λ _. announced s us now) sm.heap) q ≡ some (announced s us now) =
      ground (arith, get_elem?-modify q q (λ _. announced s us now) sm.heap, ==_refl q) in
    rw (
      at,
      register_announce,
      announce_ok s us now alive,
      e,
      session_id_of,
      (append_calls_keeps s us).0,
    )

-- After `RegisterAnnouncedCalls` on a live session each of the minted ids finds that session, and
-- the ids are returned in the order of announcement.
pub register_announced_calls-get_session :
    (sm : SessionManager) (q now : ℕ) (s : Session) (us : List Announced) (t : String)
    → get_elem? sm.heap q ≡ some s
    → s.reaped ≡ false
    → lookup s.id sm.sessions ≡ some q
    → member t (minted_ids us) ≡ true
    → let (sm', ids) = register_announced_calls sm q us now in
      (ids ≡ minted_ids us) × (get_session_by_tool_call_id sm' t ≡ some q)
register_announced_calls-get_session sm q now s us t at alive found mem =
    rw (register_ok sm q now s us at alive) (
      refl,
      unfold get_session_by_tool_call_id register_index in
          rw (index_all_hit s.id t us sm.tool_call_id_to_session mem, get_session_by_tool_call_id)
            found,
    )

pub get_elem?-modify_call :
    (i : ℕ) (f : PendingToolCall → PendingToolCall) (ps : List PendingToolCall)
    (p : PendingToolCall)
    → get_elem? ps i ≡ some p
    → get_elem? (modify_call i f ps) i ≡ some (f p)
unfolding modify_call
get_elem?-modify_call i f [] p h = cc
get_elem?-modify_call zero f (x ∷ ps) p h = ground arith
get_elem?-modify_call (suc i) f (x ∷ ps) p h = get_elem?-modify_call i f ps p h

modify_twice :
    (q : ℕ) (s : Session) (ss : List Session)
    → modify q (λ _. s) (modify q (λ _. s) ss) ≡ modify q (λ _. s) ss
unfolding modify
modify_twice q s [] = refl
modify_twice zero s (x ∷ ss) = refl
modify_twice (suc q) s (x ∷ ss) = ap (◌∷◌ x) (modify_twice q s ss)

-- A session whose call at `i` was given its result.
abbrev delivered : Session → ℕ → String → ℕ → Session
delivered s i result now = record s {
  pending = modify_call i (mark_resolved result) s.pending;
  last_activity = now;
}

module _ (s : Session) (i now : ℕ) (p : PendingToolCall) (t result : String)
    (known : call_by_id s t ≡ some (i, p)) (pend : p.resolved ≡ false) where
  resolve_ok : resolve s t result now ≡ (delivered s i result now, true)
  unfolding resolve
  resolve_ok = rw (known, pend, resolve)

  known_after : call_by_id (delivered s i result now) t ≡ some (i, mark_resolved result p)
  unfolding call_by_id
  known_after = ground (arith, get_elem?-modify_call i (mark_resolved result) s.pending p)

  resolve_again :
      (again : String) (later : ℕ)
      → resolve (delivered s i result now) t again later ≡ (delivered s i result now, false)
  unfolding resolve
  resolve_again again later = rw (known_after, resolve) (unfold mark_resolved in refl)

resolve_mark_ok :
    (sm : SessionManager) (q now : ℕ) (s s' : Session) (t result : String) (b : Bool)
    → get_elem? sm.heap q ≡ some s
    → resolve s t result now ≡ (s', b)
    → resolve_mark sm q t result now ≡ (record sm { heap = modify q (λ _. s') sm.heap }, b)
unfolding resolve_mark
resolve_mark_ok sm q now s s' t result b at e = rw (at, resolve_mark, e)

get_elem?-modify_at :
    (q : ℕ) (s s' : Session) (ss : List Session)
    → get_elem? ss q ≡ some s
    → get_elem? (modify q (λ _. s') ss) q ≡ some s'
get_elem?-modify_at q s s' ss at = ground (arith, get_elem?-modify q q (λ _. s') ss, ==_refl q)

-- The first result for a pending call is delivered: the call's channel holds it, its id leaves the
-- index, and any later result for it is refused and changes nothing.
pub resolve_tool_call_once :
    (sm : SessionManager) (q i now later : ℕ) (s : Session) (p : PendingToolCall)
    (t result again : String)
    → get_elem? sm.heap q ≡ some s
    → call_by_id s t ≡ some (i, p)
    → p.resolved ≡ false
    → p.resolver ≡ fresh
    → let (sm', done) = resolve_tool_call sm q t result now in
      (done ≡ true)
      × ((p' : PendingToolCall) × (s' : Session) × (get_elem? sm'.heap q ≡ some s')
          × (call_by_id s' t ≡ some (i, p'))
          × (receive p'.resolver ≡ some (some result, fresh)))
      × (get_session_by_tool_call_id sm' t ≡ none)
      × (resolve_tool_call sm' q t again later ≡ (sm', false))
unfolding resolve_tool_call
resolve_tool_call_once sm q i now later s p t result again at known pend f =
    let s' : Session = delivered s i result now in
    let at' = get_elem?-modify_at q s s' sm.heap at in
    let e =
      resolve_mark_ok sm q now s s' t result true at (resolve_ok s i now p t result known pend) in
    rw e (
      refl,
      (
        mark_resolved result p,
        s',
        unfold resolve_unindex in at',
        known_after s i now p t result known pend,
        unfold mark_resolved in rw f (unfold send receive fresh in refl),
      ),
      unfold get_session_by_tool_call_id resolve_unindex in
          rw (
            lookup-delete t t sm.tool_call_id_to_session,
            (text_iff t t).1 refl,
            get_session_by_tool_call_id,
          ),
      unfold resolve_unindex in
          rw
            (resolve_mark_ok
              (record sm {
                heap = modify q (λ _. s') sm.heap;
                tool_call_id_to_session = delete t sm.tool_call_id_to_session;
              })
              q later s' s' t again false at'
              (resolve_again s i now p t result known pend again later))
            (rw (modify_twice q s' sm.heap)),
    )
