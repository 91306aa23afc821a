-- ===== src/Session/Races.antt =====
-- What the gap between the two critical sections of `RegisterAnnouncedCalls` lets through.
use valyrium.Base.{
  List, String, arith, lookup, lookup-delete, none, some, text_iff, text_key, true, ℕ, ◌≡◌,
}
use valyrium.Session.Calls.{Announced}
use valyrium.Session.{
  SessionManager, get_session, member, reap_session_locked, register_announce, register_index,
}
use valyrium.Session.Calling.{index_all_hit, minted_ids}

announce_sessions :
    (sm : SessionManager) (q now : ℕ) (us : List Announced)
    → (register_announce sm q us now).0.sessions ≡ sm.sessions
unfolding register_announce
announce_sessions sm q now us = ground arith

reaped_gone :
    (sm : SessionManager) (id : String) (q : ℕ)
    → lookup id sm.sessions ≡ some q
    → lookup id (reap_session_locked sm id).sessions ≡ none
unfolding reap_session_locked
reaped_gone sm id q e =
    rw (e, reap_session_locked) (ground (arith, lookup-delete id id sm.sessions, text_iff id id))

-- A session that is reaped between the two halves of `RegisterAnnouncedCalls` leaves every id
-- that it announced in the index, under the id of a session that is no longer in the table.
pub register_race :
    (sm : SessionManager) (id t : String) (q now : ℕ) (us : List Announced)
    → lookup id sm.sessions ≡ some q
    → member t (minted_ids us) ≡ true
    → let reaped = reap_session_locked (register_announce sm q us now).0 id in
      let sm' = register_index reaped id us in
      (lookup t sm'.tool_call_id_to_session ≡ some id) × (get_session sm' id ≡ none)
unfolding register_index get_session
register_race sm id t q now us found mem =
    let sm₁ = (register_announce sm q us now).0 in
    (
      index_all_hit id t us (reap_session_locked sm₁ id).tool_call_id_to_session mem,
      reaped_gone sm₁ id q (rw (announce_sessions sm q now us) found),
    )
