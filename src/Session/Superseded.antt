-- ===== src/Session/Superseded.antt =====
-- internal/gateway/session.go: what `ReapSuperseded` takes out of the table.
use valyrium.Base.{
  Bool, List, Option, Option-cases, String, [], arith, false, if◌then◌else◌, inl, inr, lookup,
  lookup-delete, none, not, refl, some, text_iff, text_key, ◌&&◌, ◌=t◌, ◌||◌, ◌∷◌, ◌≡◌,
}
use valyrium.Session.{
  SessionManager, get_session, member, reap_all, reap_session_locked, reap_superseded, superseded,
}

unfoldable pub leads_to : Option String → String → Bool
leads_to none j = false
leads_to (some k) j = k =t j

-- Whether one of the tool-call ids leads to a session that is not the one to keep.
unfoldable pub is_superseded : SessionManager → List String → Option String → String → Bool
is_superseded sm [] keep j = false
is_superseded sm (t ∷ ts) keep j =
    leads_to (lookup t sm.tool_call_id_to_session) j && not (leads_to keep j)
    || is_superseded sm ts keep j

reap_session_locked-get_session :
    (sm : SessionManager) (id j : String)
    → get_session (reap_session_locked sm id) j ≡ (if id =t j then none else get_session sm j)
unfolding get_session reap_session_locked
reap_session_locked-get_session sm id j = elim (Option-cases (lookup id sm.sessions)) [
  | inl e ↦ rw (e, reap_session_locked) (ground (arith, text_iff id j))
  | inr (q, e) ↦ rw (e, reap_session_locked) (lookup-delete id j sm.sessions)
]

reap_all-get_session :
    (sm : SessionManager) (ids : List String) (j : String)
    → get_session (reap_all sm ids) j ≡ (if member j ids then none else get_session sm j)
unfolding reap_all member
reap_all-get_session sm [] j = refl
reap_all-get_session sm (id ∷ ids) j = ground (
  arith,
  reap_all-get_session (reap_session_locked sm id) ids j,
  reap_session_locked-get_session sm id j,
)

-- One round of the loop of `ReapSuperseded`, on an id that leads to a session.
member-if :
    (keep : Option String) (acc : List String) (k j : String)
    → member j
        (if (elim keep [ none ↦ false | some i ↦ k =t i ]) || member k acc then acc else k ∷ acc)
      ≡ (member j acc || (k =t j && not (leads_to keep j)))
unfolding member leads_to
member-if none acc k j = ground (arith, text_iff k j)
member-if (some i) acc k j = ground (arith, text_iff k j, text_iff k i, text_iff i j)

member-superseded :
    (sm : SessionManager) (ts : List String) (keep : Option String) (acc : List String) (j : String)
    → member j (superseded sm ts keep acc) ≡ (member j acc || is_superseded sm ts keep j)
unfolding superseded is_superseded leads_to
member-superseded sm [] keep acc j = ground arith
member-superseded sm (t ∷ ts) keep acc j =
    elim (Option-cases (lookup t sm.tool_call_id_to_session)) [
      | inl e ↦ rw (e, superseded) (member-superseded sm ts keep acc j)
      | inr (k, e) ↦
          rw (e, superseded)
            (ground (
              arith,
              member-superseded sm ts keep
                  (if (elim keep [ none ↦ false | some i ↦ k =t i ]) || member k acc
                    then acc
                    else k ∷ acc)
                  j,
              member-if keep acc k j,
            ))
    ]

-- `ReapSuperseded` takes exactly the superseded sessions out of the table.
pub reap_superseded-get_session :
    (sm : SessionManager) (ts : List String) (keep : Option String) (j : String)
    → get_session (reap_superseded sm ts keep).0 j
      ≡ (if is_superseded sm ts keep j then none else get_session sm j)
unfolding reap_superseded
reap_superseded-get_session sm ts keep j =
    rw (reap_all-get_session sm (superseded sm ts keep []) j, member-superseded sm ts keep [] j)
      (unfold member in refl)

pub is_superseded-kept :
    (sm : SessionManager) (ts : List String) (k : String) → is_superseded sm ts (some k) k ≡ false
unfolding is_superseded leads_to
is_superseded-kept sm [] k = refl
is_superseded-kept sm (t ∷ ts) k = ground (arith, is_superseded-kept sm ts k, text_iff k k)
