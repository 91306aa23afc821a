-- ===== src/Session/Step.antt =====
-- The session table under every interleaving of its critical sections.
use valyrium.Base.{
  All-append, Bool, Bool-cases, List, Option, Option-cases, String, Unique, [], arith,
  delete-Unique, false, get_elem?, get_elem?-append, get_elem?-append_cases, get_elem?-append_last,
  inl, inr, insert, insert-Unique, leb, length, length-insert, lookup, lookup-insert, map, refl,
  some, subst, text_iff, text_key, true, ℕ, ◌++◌, ◌=t◌, ◌∷◌, ◌≡◌, ◌≢◌,
}
use valyrium.Session.Calls.{Announced, Session, ToolSchema, announce, fresh}
use valyrium.Session.{
  SessionManager, claim_on, close, create_session, index_all, modify, new_session,
  new_session_manager, reap_all, reap_session_locked, reap_superseded, receive_on,
  register_announce, register_index, resolve_mark, resolve_unindex, set_cmd, sweep,
}
use valyrium.Session.Sound.{
  IsCalm, Writes, announce-Writes, claim-Writes, receive-Writes, resolve-Writes,
}
use valyrium.Session.Valid.{
  IsValid, modify-IsValid, reap_all-IsValid, reap_session_locked-IsValid, sweep_over-IsValid,
}

-- One critical section, with any arguments; a session's id is drawn at random from 128 bits, and
-- taken to be one that no session had.
pub data Step (sm sm' : SessionManager) : Type 0 where
  creates :
      (tools : List ToolSchema) (id : String) (now : ℕ)
      → ((p : ℕ) (s : Session) → get_elem? sm.heap p ≡ some s → s.id ≢ id)
      → sm' ≡ (create_session sm tools id now).0
      → Step sm sm'
  starts : (sess : ℕ) → sm' ≡ set_cmd sm sess → Step sm sm'
  announces :
      (sess : ℕ) (us : List Announced) (now : ℕ)
      → sm' ≡ (register_announce sm sess us now).0
      → Step sm sm'
  indexes : (id : String) (us : List Announced) → sm' ≡ register_index sm id us → Step sm sm'
  resolves :
      (sess : ℕ) (id result : String) (now : ℕ)
      → sm' ≡ (resolve_mark sm sess id result now).0
      → Step sm sm'
  unindexes : (id : String) → sm' ≡ resolve_unindex sm id → Step sm sm'
  claims :
      (sess : ℕ) (name args : String) (now : ℕ)
      → sm' ≡ (claim_on sm sess name args now).0
      → Step sm sm'
  receives : (sess i : ℕ) → sm' ≡ receive_on sm sess i → Step sm sm'
  reaps : (id : String) → sm' ≡ reap_session_locked sm id → Step sm sm'
  supersedes :
      (ids : List String) (keep : Option String)
      → sm' ≡ (reap_superseded sm ids keep).0
      → Step sm sm'
  sweeps : (now : ℕ) → sm' ≡ sweep sm now → Step sm sm'
  closes : sm' ≡ close sm → Step sm sm'

pub data Reach (sm : SessionManager) : SessionManager → Type 0 where
  here : Reach sm sm
  next : {t u : SessionManager} → Reach sm t → Step t u → Reach sm u

-- A write through a function of the session that stands there.
write_on-IsValid :
    (sm : SessionManager) (q : ℕ) (s s' : Session)
    → get_elem? sm.heap q ≡ some s
    → Writes s s'
    → IsValid sm
    → IsValid (record sm { heap = modify q (λ _. s') sm.heap })
write_on-IsValid sm q s s' at w v =
    modify-IsValid sm q (λ _. s') (λ t e. subst (λ x. Writes x s') (ground arith) w) v

module _ (sm : SessionManager) (tools : List ToolSchema) (id : String) (now : ℕ)
    (unused : (p : ℕ) (s : Session) → get_elem? sm.heap p ≡ some s → s.id ≢ id)
    (v : IsValid sm) where
  created_live :
      (j : String) (p : ℕ)
      → lookup j (insert id (length sm.heap) sm.sessions) ≡ some p
      → (s : Session) × (get_elem? (sm.heap ++ new_session tools id now ∷ []) p ≡ some s)
        × (s.id ≡ j)
        × (s.reaped ≡ false)
  created_live j p e = elim (Bool-cases (id =t j)) [
    | inl same ↦
        unfold new_session in
        (
          new_session tools id now,
          let at : p ≡ length sm.heap =
                ground (arith, lookup-insert id j (length sm.heap) sm.sessions) in
              rw at (get_elem?-append_last sm.heap (new_session tools id now)),
          (text_iff id j).0 same,
          refl,
        )
    | inr other ↦
        let (s, at, i, r) =
          v.live j p (ground (arith, lookup-insert id j (length sm.heap) sm.sessions)) in
        (s, get_elem?-append sm.heap (new_session tools id now ∷ []) p s at, i, r)
  ]

  created_tracked :
      (p : ℕ) (s : Session)
      → get_elem? (sm.heap ++ new_session tools id now ∷ []) p ≡ some s
      → s.reaped ≡ false
      → lookup s.id (insert id (length sm.heap) sm.sessions) ≡ some p
  created_tracked p s e alive =
      elim (get_elem?-append_cases sm.heap (new_session tools id now) p s e) [
        | inl old ↦ ground (
          arith,
          lookup-insert id s.id (length sm.heap) sm.sessions,
          text_iff id s.id,
          unused p s old,
          v.tracked p s old alive,
        )
        | inr (at, fresh) ↦
            unfold new_session in
            ground (arith, lookup-insert id s.id (length sm.heap) sm.sessions, text_iff id s.id)
      ]

  create-IsValid : IsValid (create_session sm tools id now).0
  unfolding create_session
  create-IsValid = elim (Bool-cases (leb sm.max_sessions (length sm.sessions))) [
    | inl full ↦ rw (full, create_session) v
    | inr room ↦
        rw (room, create_session)
          (record {
            calm =
                All-append IsCalm sm.heap (new_session tools id now ∷ []) v.calm
                  (unfold new_session in record { calls = tt }, tt);
            bounded = ground (arith, v.bounded, length-insert id (length sm.heap) sm.sessions);
            indexed_once = v.indexed_once;
            live = created_live;
            tracked = created_tracked;
          })
  ]

announce-IsValid :
    (sm : SessionManager) (sess : ℕ) (us : List Announced) (now : ℕ)
    → IsValid sm
    → IsValid (register_announce sm sess us now).0
unfolding register_announce
announce-IsValid sm sess us now v = elim (Option-cases (get_elem? sm.heap sess)) [
  | inl e ↦ rw (e, register_announce) v
  | inr (s, e) ↦ elim (Option-cases (announce s us now)) [
    | inl no_room ↦ rw (e, no_room, register_announce) v
    | inr (s', took) ↦
        rw (e, took, register_announce)
          (write_on-IsValid sm sess s s' e (announce-Writes s s' us now took) v)
  ]
]

resolve-IsValid :
    (sm : SessionManager) (sess : ℕ) (id result : String) (now : ℕ)
    → IsValid sm
    → IsValid (resolve_mark sm sess id result now).0
unfolding resolve_mark
resolve-IsValid sm sess id result now v = elim (Option-cases (get_elem? sm.heap sess)) [
  | inl e ↦ rw (e, resolve_mark) v
  | inr (s, e) ↦
      rw (e, resolve_mark) (write_on-IsValid sm sess s _ e (resolve-Writes s id result now) v)
]

claim-IsValid :
    (sm : SessionManager) (sess : ℕ) (name args : String) (now : ℕ)
    → IsValid sm
    → IsValid (claim_on sm sess name args now).0
unfolding claim_on
claim-IsValid sm sess name args now v = elim (Option-cases (get_elem? sm.heap sess)) [
  | inl e ↦ rw (e, claim_on) v
  | inr (s, e) ↦ rw (e, claim_on) (write_on-IsValid sm sess s _ e (claim-Writes s name args now) v)
]

-- The other parts of the invariant do not read the tool-call index, nor whether the manager is
-- closed.
reindexed-IsValid :
    (sm : SessionManager) (m : List (String × String)) (d : Bool)
    → Unique m
    → IsValid sm
    → IsValid (record sm { tool_call_id_to_session = m; done = d })
reindexed-IsValid sm m d u v = record {
  calm = v.calm;
  bounded = v.bounded;
  indexed_once = u;
  live = v.live;
  tracked = v.tracked;
}

index_all-Unique :
    (id : String) (us : List Announced) (m : List (String × String))
    → Unique m
    → Unique (index_all id us m)
unfolding index_all
index_all-Unique id [] m u = u
index_all-Unique id (x ∷ us) m u =
    index_all-Unique id us (insert x.minted id m) (insert-Unique x.minted id m u)

pub Step-IsValid : {sm sm' : SessionManager} → Step sm sm' → IsValid sm → IsValid sm'
unfolding set_cmd register_index resolve_unindex receive_on reap_superseded sweep close
Step-IsValid {sm} (creates tools id now unused e) v = rw e (create-IsValid sm tools id now unused v)
Step-IsValid {sm} (starts q e) v = rw e (
    modify-IsValid sm q _
      (λ s _. record { same_id = refl; same_reaped = refl; calm = λ h. record { calls = h.calls } })
      v)
Step-IsValid {sm} (announces q us now e) v = rw e (announce-IsValid sm q us now v)
Step-IsValid {sm} (indexes id us e) v = rw e (
    reindexed-IsValid sm _ sm.done
      (index_all-Unique id us sm.tool_call_id_to_session v.indexed_once) v)
Step-IsValid {sm} (resolves q id result now e) v = rw e (resolve-IsValid sm q id result now v)
Step-IsValid {sm} (unindexes id e) v =
    rw e (
      reindexed-IsValid sm _ sm.done (delete-Unique id sm.tool_call_id_to_session v.indexed_once) v)
Step-IsValid {sm} (claims q name args now e) v = rw e (claim-IsValid sm q name args now v)
Step-IsValid {sm} (receives q i e) v = rw e (modify-IsValid sm q _ (λ s _. receive-Writes s i) v)
Step-IsValid {sm} (reaps id e) v = rw e (reap_session_locked-IsValid sm id v)
Step-IsValid {sm} (supersedes ids keep e) v = rw e (reap_all-IsValid sm _ v)
Step-IsValid {sm} (sweeps now e) v = rw e (sweep_over-IsValid sm now _ v)
Step-IsValid {sm} (closes e) v =
    let all = reap_all-IsValid sm (map (λ x. x.0) sm.sessions) v in
    rw e (
      reindexed-IsValid _ (reap_all sm (map (λ x. x.0) sm.sessions)).tool_call_id_to_session true
        all.indexed_once all)

Reach-IsValid : {sm sm' : SessionManager} → IsValid sm → Reach sm sm' → IsValid sm'
Reach-IsValid v here = v
Reach-IsValid v (next r s) = Step-IsValid s (Reach-IsValid v r)

new-IsValid : (max tool_ms idle_ms : ℕ) → IsValid (new_session_manager max tool_ms idle_ms)
unfolding new_session_manager lookup
new-IsValid max tool_ms idle_ms = record {
  calm = tt;
  bounded = omega arith;
  indexed_once = tt;
  live = λ id p e. cc;
  tracked = λ p s e. cc;
}

-- Whatever sequence of critical sections a new session table goes through, in whatever order: no
-- channel operation panics or blocks under a lock, the table stays within `maxSessions`, each
-- entry of it is a session of that id that is not reaped, and no session that is not reaped has
-- dropped out of it.
pub Reach-new-IsValid :
    (max tool_ms idle_ms : ℕ) {sm : SessionManager}
    → Reach (new_session_manager max tool_ms idle_ms) sm
    → IsValid sm
Reach-new-IsValid max tool_ms idle_ms r = Reach-IsValid (new-IsValid max tool_ms idle_ms) r
