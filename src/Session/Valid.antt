-- ===== src/Session/Valid.antt =====
-- The invariant of the session table, and the writes and reaps that keep it.
use valyrium.Base.{
  All, Bool-cases, List, Option-cases, String, Unique, [], arith, delete, false, get_elem?,
  if◌then◌else◌, inl, inr, length, length-delete_le, lookup, lookup-delete, none, refl, some, suc,
  sym, text_iff, text_key, zero, ℕ, ◌==◌, ◌=t◌, ◌∙◌, ◌∷◌, ◌≡◌, ◌≤◌,
}
use valyrium.Session.Calls.{Session, reap}
use valyrium.Session.{
  SessionManager, drop_session, expired, modify, reap_all, reap_session_locked, sweep_over,
}
use valyrium.Session.Sound.{IsCalm, Writes, reap-IsCalm}

pub record IsValid (sm : SessionManager) : Type 0 where
  pub calm : All IsCalm sm.heap
  pub bounded : length sm.sessions ≤ sm.max_sessions
  pub indexed_once : Unique sm.tool_call_id_to_session
  pub live :
      (id : String) (p : ℕ)
      → lookup id sm.sessions ≡ some p
      → (s : Session) × (get_elem? sm.heap p ≡ some s) × (s.id ≡ id) × (s.reaped ≡ false)
  pub tracked :
      (p : ℕ) (s : Session)
      → get_elem? sm.heap p ≡ some s
      → s.reaped ≡ false
      → lookup s.id sm.sessions ≡ some p

-- The tool-call index after a reap: the entries that name the session are gone.
lookup-drop_session-none :
    (id t : String) (m : List (String × String))
    → lookup t m ≡ none
    → lookup t (drop_session id m) ≡ none
unfolding drop_session lookup
lookup-drop_session-none id t [] h = refl
lookup-drop_session-none id t ((k, s) ∷ m) h = ground (arith, lookup-drop_session-none id t m)

pub lookup-drop_session :
    (id t : String) (m : List (String × String))
    → Unique m
    → lookup t (drop_session id m)
      ≡ (elim (lookup t m) [ none ↦ none | some j ↦ if j =t id then none else some j ])
unfolding drop_session lookup
lookup-drop_session id t [] u = refl
lookup-drop_session id t ((k, s) ∷ m) u =
    ground (arith, lookup-drop_session id t m u.1, text_iff k t, lookup-drop_session-none id k m)

-- The heap after a write to the session behind a pointer.
pub get_elem?-modify :
    (q p : ℕ) (f : Session → Session) (ss : List Session)
    → get_elem? (modify q f ss) p
      ≡ (elim (get_elem? ss p) [ none ↦ none | some s ↦ some (if q == p then f s else s) ])
unfolding modify
get_elem?-modify q p f [] = refl
get_elem?-modify zero zero f (s ∷ ss) = refl
get_elem?-modify zero (suc p) f (s ∷ ss) = ground arith
get_elem?-modify (suc q) zero f (s ∷ ss) = ground arith
get_elem?-modify (suc q) (suc p) f (s ∷ ss) = ground (arith, get_elem?-modify q p f ss)

All-modify :
    (q : ℕ) (f : Session → Session) (ss : List Session)
    → ((s : Session) → get_elem? ss q ≡ some s → IsCalm s → IsCalm (f s))
    → All IsCalm ss
    → All IsCalm (modify q f ss)
unfolding modify
All-modify q f [] keep h = tt
All-modify zero f (s ∷ ss) keep h = (keep s refl h.0, h.1)
All-modify (suc q) f (s ∷ ss) keep h = (h.0, All-modify q f ss keep h.1)

module _ (sm : SessionManager) (q : ℕ) (f : Session → Session)
    (writes : (s : Session) → get_elem? sm.heap q ≡ some s → Writes s (f s)) (v : IsValid sm) where
  -- What stands at a pointer after the write is what stood there, up to what a write may change.
  written :
      (p : ℕ) (s : Session)
      → get_elem? sm.heap p ≡ some s
      → (s' : Session) × (get_elem? (modify q f sm.heap) p ≡ some s')
        × (s'.id ≡ s.id)
        × (s'.reaped ≡ s.reaped)
  written p s e = elim (Bool-cases (q == p)) [
    | inl here ↦
        let w = writes s (ground arith) in
        (f s, rw (get_elem?-modify q p f sm.heap, e, here), w.same_id, w.same_reaped)
    | inr there ↦ (s, rw (get_elem?-modify q p f sm.heap, e, there), refl, refl)
  ]

  was :
      (p : ℕ) (s' : Session)
      → get_elem? (modify q f sm.heap) p ≡ some s'
      → (s : Session) × (get_elem? sm.heap p ≡ some s) × (s'.id ≡ s.id) × (s'.reaped ≡ s.reaped)
  was p s' e = elim (Option-cases (get_elem? sm.heap p)) [
    | inl out ↦ cc (get_elem?-modify q p f sm.heap, out)
    | inr (s, at) ↦ let (s₂, e₂, i, r) = written p s at in (s, at, ground arith, ground arith)
  ]

  pub modify-IsValid : IsValid (record sm { heap = modify q f sm.heap })
  modify-IsValid = record {
    calm = All-modify q f sm.heap (λ s e. (writes s e).calm) v.calm;
    bounded = v.bounded;
    indexed_once = v.indexed_once;
    live = λ id p e.
        let (s, at, i, r) = v.live id p e in
        let (s', at', i', r') = written p s at in (s', at', i' ∙ i, r' ∙ r);
    tracked =
        λ p s' e alive. let (s, at, i, r) = was p s' e in rw i (v.tracked p s at (sym r ∙ alive));
  }

drop_session-Unique :
    (id : String) (m : List (String × String)) → Unique m → Unique (drop_session id m)
unfolding drop_session
drop_session-Unique id [] u = tt
drop_session-Unique id ((k, s) ∷ m) u =
    ground (arith, drop_session-Unique id m u.1, lookup-drop_session-none id k m)

-- A reap, of any id.
module _ (sm : SessionManager) (id : String) (q : ℕ) (found : lookup id sm.sessions ≡ some q)
    (v : IsValid sm) where
  reaped_live :
      (j : String) (p : ℕ)
      → lookup j (delete id sm.sessions) ≡ some p
      → (s : Session) × (get_elem? (modify q reap sm.heap) p ≡ some s)
        × (s.id ≡ j)
        × (s.reaped ≡ false)
  reaped_live j p e =
      let other : lookup j sm.sessions ≡ some p = ground (arith, lookup-delete id j sm.sessions) in
      let (s, at, i, r) = v.live j p other in
      let (t, at', i', r') = v.live id q found in
      (
        s,
        ground (
          arith,
          get_elem?-modify q p reap sm.heap,
          lookup-delete id j sm.sessions,
          text_iff id j,
        ),
        i,
        r,
      )

  reaped_tracked :
      (p : ℕ) (s : Session)
      → get_elem? (modify q reap sm.heap) p ≡ some s
      → s.reaped ≡ false
      → lookup s.id (delete id sm.sessions) ≡ some p
  reaped_tracked p s e alive = elim (Option-cases (get_elem? sm.heap p)) [
    | inl out ↦ cc (get_elem?-modify q p reap sm.heap, out)
    | inr (t, at) ↦ elim (Bool-cases (q == p)) [
      | inl here ↦ unfold reap in ground (arith, get_elem?-modify q p reap sm.heap)
      | inr there ↦
          let same : t ≡ s = ground (arith, get_elem?-modify q p reap sm.heap) in
          let kept = v.tracked p s (rw same at at) alive in
          ground (arith, lookup-delete id s.id sm.sessions, text_iff id s.id)
    ]
  ]

  pub reaped-IsValid : IsValid (record sm {
    heap = modify q reap sm.heap;
    sessions = delete id sm.sessions;
    tool_call_id_to_session = drop_session id sm.tool_call_id_to_session;
  })
  reaped-IsValid = record {
    calm = All-modify q reap sm.heap (λ s _. reap-IsCalm s) v.calm;
    bounded = omega (arith, v.bounded, length-delete_le id sm.sessions);
    indexed_once = drop_session-Unique id sm.tool_call_id_to_session v.indexed_once;
    live = reaped_live;
    tracked = reaped_tracked;
  }

pub reap_session_locked-IsValid :
    (sm : SessionManager) (id : String) → IsValid sm → IsValid (reap_session_locked sm id)
unfolding reap_session_locked
reap_session_locked-IsValid sm id v = elim (Option-cases (lookup id sm.sessions)) [
  | inl e ↦ rw (e, reap_session_locked) v
  | inr (q, e) ↦ rw (e, reap_session_locked) (reaped-IsValid sm id q e v)
]

pub reap_all-IsValid :
    (sm : SessionManager) (ids : List String) → IsValid sm → IsValid (reap_all sm ids)
unfolding reap_all
reap_all-IsValid sm [] v = v
reap_all-IsValid sm (id ∷ ids) v =
    reap_all-IsValid (reap_session_locked sm id) ids (reap_session_locked-IsValid sm id v)

pub sweep_over-IsValid :
    (sm : SessionManager) (now : ℕ) (m : List (String × ℕ))
    → IsValid sm
    → IsValid (sweep_over sm now m)
unfolding sweep_over
sweep_over-IsValid sm now [] v = v
sweep_over-IsValid sm now ((id, q) ∷ m) v = elim (Option-cases (get_elem? sm.heap q)) [
  | inl e ↦ rw (e, sweep_over) (sweep_over-IsValid sm now m v)
  | inr (s, e) ↦ elim (Bool-cases (expired sm now s)) [
    | inl old ↦
        rw (e, old, sweep_over)
          (sweep_over-IsValid (reap_session_locked sm id) now m
            (reap_session_locked-IsValid sm id v))
    | inr recent ↦ rw (e, recent, sweep_over) (sweep_over-IsValid sm now m v)
  ]
]
