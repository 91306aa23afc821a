-- ===== src/Session/Stopped.antt =====
-- internal/gateway/session.go: what `Close` does to the sessions of the table.
use valyrium.Base.{
  ==_refl, Bool-cases, List, Option, Option-cases, String, [], ap, arith, false, get_elem?, inl,
  inr, lookup, lookup-delete, map, none, not, refl, some, subst, sym, text_iff, text_key, true, ℕ,
  ◌==◌, ◌=t◌, ◌||◌, ◌∙◌, ◌∷◌, ◌≡◌, ◌⊎◌,
}
use valyrium.Session.{SessionManager, close, get_session, member, reap_all, reap_session_locked}
use valyrium.Session.Calls.{Session, reap}
use valyrium.Session.Valid.{get_elem?-modify}

-- A session that was reaped, with its process killed if there was one.
abbrev pub Stopped : Option Session → Option Session → Type 0
Stopped none s' = Unit {0}
Stopped (some s) none = ⊥
Stopped (some s) (some s') = (s'.reaped ≡ true) × ((not s.has_cmd || s'.killed) ≡ true)

abbrev pub session_at : List Session → Option ℕ → Option Session
session_at heap none = none
session_at heap (some p) = get_elem? heap p

reaped-has_cmd : (s s' : Session) → (s' ≡ s) ⊎ (s' ≡ reap s) → s'.has_cmd ≡ s.has_cmd
unfolding reap
reaped-has_cmd s s' (inl e) = ap (λ t. t.has_cmd) e
reaped-has_cmd s s' (inr e) = ap (λ t. t.has_cmd) e

-- A reap of any id leaves a session as it is, or reaps it.
reap_session_locked-at :
    (sm : SessionManager) (id : String) (p : ℕ) (s : Session)
    → get_elem? sm.heap p ≡ some s
    → (s' : Session) × (get_elem? (reap_session_locked sm id).heap p ≡ some s')
      × ((s' ≡ s) ⊎ (s' ≡ reap s))
unfolding reap_session_locked
reap_session_locked-at sm id p s at = elim (Option-cases (lookup id sm.sessions)) [
  | inl e ↦ rw (e, reap_session_locked) (s, at, inl refl)
  | inr (q, e) ↦ elim (Bool-cases (q == p)) [
    | inl same ↦
        rw (e, reap_session_locked)
          (reap s, ground (arith, get_elem?-modify q p reap sm.heap, at, same), inr refl)
    | inr apart ↦
        rw (e, reap_session_locked)
          (s, ground (arith, get_elem?-modify q p reap sm.heap, at, apart), inl refl)
  ]
]

reap-Stopped :
    (s t t' : Session)
    → Stopped (some s) (some t)
    → (t' ≡ t) ⊎ (t' ≡ reap t)
    → Stopped (some s) (some t')
unfolding reap
reap-Stopped s t t' v (inl e) = subst (λ x. Stopped (some s) (some x)) (sym e) v
reap-Stopped s t t' v (inr e) =
    subst (λ x. Stopped (some s) (some x)) (sym e) (refl, ground (arith, v.1))

reap_all-Stopped_still :
    (sm : SessionManager) (ids : List String) (p : ℕ) (s t : Session)
    → get_elem? sm.heap p ≡ some t
    → Stopped (some s) (some t)
    → Stopped (some s) (get_elem? (reap_all sm ids).heap p)
unfolding reap_all
reap_all-Stopped_still sm [] p s t at v = subst (Stopped (some s)) (sym at) v
reap_all-Stopped_still sm (id ∷ ids) p s t at v =
    let (t', at', e) = reap_session_locked-at sm id p t at in
    reap_all-Stopped_still (reap_session_locked sm id) ids p s t' at' (reap-Stopped s t t' v e)

reap-Stopped_now : (s t : Session) → t.has_cmd ≡ s.has_cmd → Stopped (some s) (some (reap t))
unfolding reap
reap-Stopped_now s t e = (refl, ground (arith, e))

-- The session of an id is reaped under its own id, and stays in the heap.
reap_session_locked-now :
    (sm : SessionManager) (id : String) (p : ℕ) (t : Session)
    → lookup id sm.sessions ≡ some p
    → get_elem? sm.heap p ≡ some t
    → get_elem? (reap_session_locked sm id).heap p ≡ some (reap t)
unfolding reap_session_locked
reap_session_locked-now sm id p t found at =
    rw (found, reap_session_locked)
      (ground (arith, get_elem?-modify p p reap sm.heap, at, ==_refl p))

reap_session_locked-lookup :
    (sm : SessionManager) (j id : String) (p : ℕ)
    → (j =t id) ≡ false
    → lookup id sm.sessions ≡ some p
    → lookup id (reap_session_locked sm j).sessions ≡ some p
unfolding reap_session_locked
reap_session_locked-lookup sm j id p apart found = elim (Option-cases (lookup j sm.sessions)) [
  | inl e ↦ rw (e, reap_session_locked) found
  | inr (q, e) ↦
      rw (e, reap_session_locked) (ground (arith, lookup-delete j id sm.sessions, apart, found))
]

reap_all-Stopped :
    (sm : SessionManager) (ids : List String) (id : String) (p : ℕ) (s t : Session)
    → member id ids ≡ true
    → lookup id sm.sessions ≡ some p
    → get_elem? sm.heap p ≡ some t
    → t.has_cmd ≡ s.has_cmd
    → Stopped (some s) (get_elem? (reap_all sm ids).heap p)
unfolding reap_all member
reap_all-Stopped sm [] id p s t h found at same = cc
reap_all-Stopped sm (j ∷ ids) id p s t h found at same = elim (Bool-cases (j =t id)) [
  | inl e ↦
      let found' : lookup j sm.sessions ≡ some p =
        subst (λ k. lookup k sm.sessions ≡ some p) (sym ((text_iff j id).0 e)) found in
      reap_all-Stopped_still (reap_session_locked sm j) ids p s (reap t)
        (reap_session_locked-now sm j p t found' at) (reap-Stopped_now s t same)
  | inr e ↦
      let (t', at', kept) = reap_session_locked-at sm j p t at in
      reap_all-Stopped (reap_session_locked sm j) ids id p s t' (ground (arith, h, e))
        (reap_session_locked-lookup sm j id p e found) at' (reaped-has_cmd t t' kept ∙ same)
]

pub lookup-member :
    (k : String) (m : List (String × ℕ))
    → (lookup k m ≡ none) ⊎ (member k (map (λ e. e.0) m) ≡ true)
unfolding lookup member
lookup-member k [] = inl refl
lookup-member k ((j, p) ∷ m) = elim (Bool-cases (j =t k)) [
  | inl same ↦ inr (ground (arith, same))
  | inr differs ↦ elim (lookup-member k m) [
    | inl e ↦ inl (ground (arith, e, differs))
    | inr e ↦ inr (ground (arith, e))
  ]
]

-- `Close` stops every session of the table.
pub close-Stopped :
    (sm : SessionManager) (id : String)
    → Stopped
        (session_at sm.heap (get_session sm id))
        (session_at (close sm).heap (get_session sm id))
unfolding close get_session
close-Stopped sm id = elim (Option-cases (lookup id sm.sessions)) [
  | inl e ↦ rw e tt
  | inr (p, e) ↦ elim (Option-cases (get_elem? sm.heap p)) [
    | inl nowhere ↦ rw (e, nowhere) tt
    | inr (s, at) ↦ elim (lookup-member id sm.sessions) [
      | inl missing ↦ absurd (ground (arith, e, missing))
      | inr there ↦
          rw (e, at) (reap_all-Stopped sm (map (λ x. x.0) sm.sessions) id p s s there e at refl)
    ]
  ]
]
