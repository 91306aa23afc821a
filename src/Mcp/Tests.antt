-- ===== src/Mcp/Tests.antt =====
-- A request that is parked on the call of the example's session, and a loop that claims it.
use valyrium.Base.{List, [], false, lookup, none, refl, some, ℕ, ◌∷◌, ◌≡◌}
use valyrium.Session.{SessionManager, claim_on, reap_session_locked, resolve_tool_call}
use valyrium.Session.Calls.{call_by_id, claim_pending_call, claimable, first_claimable}
use valyrium.Session.Example.{busy, busy-IsValid, index, manager, waiting, waiting-fresh}
use valyrium.Mcp.{found, poll_claim, rpc_error, rpc_result, text_content, unpark}
use valyrium.Mcp.Parked.{unpark-resolve_tool_call}
use valyrium.Mcp.Polling.{has_late, is_polling, poll_claim-ends}

unpark-resolve_tool_call_example :
    (unpark (manager busy index) 0 0 "7" ≡ none)
    × (((sm' : SessionManager) × (unpark
              (resolve_tool_call (manager busy index) 0 "call_1" "a.txt" 9).0
              0
              0
              "7"
            ≡ some (sm', rpc_result (text_content "a.txt") "7")))
        × ((sm' : SessionManager) × (unpark (reap_session_locked (manager busy index) "s") 0 0 "7"
              ≡ some (
                sm',
                rpc_error
                    (record {
                      code = 32600;
                      message = "session reaped before a tool result arrived";
                    })
                    "7",
              ))))
unfolding lookup call_by_id
unpark-resolve_tool_call_example =
    unpark-resolve_tool_call (manager busy index) 0 0 9 busy waiting "call_1" "a.txt" "7"
      busy-IsValid refl refl refl refl waiting-fresh

-- Others do nothing; the second round comes after the deadline.
abbrev rounds : List ((SessionManager → SessionManager) × ℕ)
rounds = ((λ sm. sm), 5) ∷ ((λ sm. sm), 25) ∷ []

poll_claim-ends_example :
    is_polling (poll_claim (manager busy index) 0 "rm" "{}" 20 rounds).1 ≡ false
poll_claim-ends_example =
    poll_claim-ends (manager busy index) 0 "rm" "{}" 20 rounds (unfold has_late in refl)

-- The call that was announced is claimed in the first round.
poll_claim_found : (poll_claim (manager busy index) 0 "ls" "{}" 20 rounds).1 ≡ found 0
unfolding poll_claim claim_on claim_pending_call first_claimable claimable
poll_claim_found = refl
