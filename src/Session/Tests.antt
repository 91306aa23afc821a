-- ===== src/Session/Tests.antt =====
-- The session theorems at a table with one session that announced one call.
use valyrium.Base.{
  All, [], false, get_elem?, lookup, none, refl, some, text_key, true, ◌∷◌, ◌≡◌, ◌≢◌,
}
use valyrium.Session.{
  close, create_session, get_session, get_session_by_tool_call_id, member, new_session_manager,
  reap_session_locked, register_announce, register_announced_calls, register_index,
  resolve_tool_call,
}
use valyrium.Session.Calls.{
  PendingToolCall, Session, call_by_id, fresh, mark_claimed, reap, receive,
}
use valyrium.Session.Example.{
  busy, busy-IsValid, idle, index, ls, manager, session, waiting, waiting-fresh,
}
use valyrium.Session.Valid.{IsValid}
use valyrium.Session.Step.{Reach-new-IsValid, closes, creates, here, next}
use valyrium.Session.Reap.{IsReleased, reap_session_locked_lem}
use valyrium.Session.Calling.{
  minted_ids, register_announced_calls-get_session, resolve_tool_call_once,
}
use valyrium.Session.Races.{register_race}
use valyrium.Session.Ids.{hex, hex_digit, new_tool_call_id, random_hex}

abbrev twice : Session
twice = session (mark_claimed waiting ∷ waiting ∷ []) []

Reach-new-IsValid_example :
    IsValid (close (create_session (new_session_manager 4 1000 1000) [] "s" 5).0)
unfolding new_session_manager
Reach-new-IsValid_example =
    Reach-new-IsValid 4 1000 1000
      (next (next here (creates [] "s" 5 (λ p s e. cc) refl)) (closes refl))

register_announced_calls-get_session_example :
    let (sm', ids) = register_announced_calls (manager idle []) 0 (ls ∷ []) 9 in
    (ids ≡ minted_ids (ls ∷ [])) × (get_session_by_tool_call_id sm' "call_1" ≡ some 0)
unfolding member lookup
register_announced_calls-get_session_example =
    register_announced_calls-get_session (manager idle []) 0 9 idle (ls ∷ []) "call_1" refl refl
      refl refl

resolve_tool_call_once_example :
    let sm = manager busy index in
    let (sm', done) = resolve_tool_call sm 0 "call_1" "ok" 9 in
    (done ≡ true)
    × ((p' : PendingToolCall) × (s' : Session) × (get_elem? sm'.heap 0 ≡ some s')
        × (call_by_id s' "call_1" ≡ some (0, p'))
        × (receive p'.resolver ≡ some (some "ok", fresh)))
    × (get_session_by_tool_call_id sm' "call_1" ≡ none)
    × (resolve_tool_call sm' 0 "call_1" "again" 10 ≡ (sm', false))
unfolding call_by_id lookup
resolve_tool_call_once_example =
    resolve_tool_call_once (manager busy index) 0 0 9 10 busy waiting "call_1" "ok" "again" refl
      refl refl waiting-fresh

register_race_example :
    let sm = manager idle [] in
    let reaped = reap_session_locked (register_announce sm 0 (ls ∷ []) 9).0 "s" in
    let sm' = register_index reaped "s" (ls ∷ []) in
    (lookup "call_1" sm'.tool_call_id_to_session ≡ some "s") × (get_session sm' "s" ≡ none)
unfolding member lookup
register_race_example = register_race (manager idle []) "s" "call_1" 0 9 (ls ∷ []) refl refl

reap_session_locked_lem_example :
    let sm = manager busy index in
    let sm' = reap_session_locked sm "s" in
    (get_session sm' "s" ≡ none)
    × (lookup "call_1" sm'.tool_call_id_to_session ≢ some "s")
    × (get_elem? sm'.heap 0 ≡ some (reap busy))
    × All IsReleased (reap busy).pending
    × ((reap busy).killed ≡ true)
    × (register_announced_calls sm' 0 (ls ∷ []) 9 ≡ (sm', []))
unfolding lookup
reap_session_locked_lem_example =
    reap_session_locked_lem (manager busy index) "s" "call_1" 0 9 busy (ls ∷ []) busy-IsValid refl
      refl

-- "call_00ff1a".
drawn_call :
    new_tool_call_id (0 ∷ 255 ∷ 26 ∷ [])
    ≡ 99 ∷ 97 ∷ 108 ∷ 108 ∷ 95 ∷ 48 ∷ 48 ∷ 102 ∷ 102 ∷ 49 ∷ 97 ∷ []
unfolding new_tool_call_id hex hex_digit
drawn_call = refl

-- Only the lower half of a byte counts.
drawn_hex : random_hex (17 ∷ 1 ∷ []) ≡ random_hex (1 ∷ 17 ∷ [])
unfolding random_hex hex_digit
drawn_hex = refl
