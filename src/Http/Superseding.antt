-- ===== src/Http/Superseding.antt =====
-- internal/gateway/server.go: the session that a request continues, and those that it leaves behind.

use valyrium.Base.{
  Bool, Bool-cases, List, Option, Option-cases, String, [], ap, arith, false, if◌then◌else◌, inl,
  inr, lookup, none, not, refl, some, text_key, true, ℕ, ◌&&◌, ◌++◌, ◌=t◌, ◌||◌, ◌∙◌, ◌∷◌, ◌≡◌,
}
use valyrium.Server.Request.{referenced_tool_call_ids, tool_call_ids}
use valyrium.Prompt.{OpenAiMessage, ToolCall}
use valyrium.Session.Superseded.{
  is_superseded, is_superseded-kept, leads_to, reap_superseded-get_session,
}
use mathlib.Core.List.{reverse}
use valyrium.Session.{SessionManager, get_session, get_session_by_tool_call_id, session_id_of}
use valyrium.Session.Valid.{IsValid}
use valyrium.Turn.Answer.{ToolResult}
use valyrium.Http.{
  ChatCompletionRequest, find_continuation_session, first_session, trailing_results, wants_tools,
}
use valyrium.Http.Chat.{begin_chat, kept_id, stateless, tool_turn}

-- A session that a tool-call id leads to is in the table under its own id.
by_tool_call_id-get_session :
    (sm : SessionManager) (t : String) (p : ℕ)
    → IsValid sm
    → get_session_by_tool_call_id sm t ≡ some p
    → get_session sm (session_id_of sm p) ≡ some p
unfolding get_session_by_tool_call_id get_session session_id_of
by_tool_call_id-get_session sm t p v e = elim (Option-cases (lookup t sm.tool_call_id_to_session)) [
  | inl none_here ↦ absurd (ground arith)
  | inr (k, at) ↦
      let found : lookup k sm.sessions ≡ some p = ground arith in
      let (s, here, same, _) = v.live k p found in ground arith
]

first_session-get_session :
    (sm : SessionManager) (trs : List ToolResult) (p : ℕ)
    → IsValid sm
    → first_session sm trs ≡ some p
    → get_session sm (session_id_of sm p) ≡ some p
unfolding first_session
first_session-get_session sm [] p v e = absurd (ground arith)
first_session-get_session sm (tr ∷ trs) p v e =
    let later = first_session-get_session sm trs p v in
    elim (Option-cases (get_session_by_tool_call_id sm tr.tool_call_id)) [
      | inl e' ↦ later (ground arith)
      | inr (q, e') ↦ by_tool_call_id-get_session sm tr.tool_call_id p v (ground arith)
    ]

continued :
    (cont : Option ℕ) (trs results : List ToolResult) (wants : Bool) (p : ℕ)
    → (elim cont [
      | some q ↦ tool_turn (some q) trs
      | none ↦ if wants then tool_turn none trs else stateless
    ])
      ≡ tool_turn (some p) results
    → cont ≡ some p
continued (some q) trs results wants p e = cc
continued none trs results true p e = absurd (cc)
continued none trs results false p e = absurd (cc)

-- Whether a tool-call id, a list of tool calls or a history leads to a session of this table: a
-- message does by the call that it answers, and by each call that it carries. No id is empty.
unfoldable pub id_leads : SessionManager → String → String → Bool
id_leads sm j t = not (t =t "") && leads_to (lookup t sm.tool_call_id_to_session) j

unfoldable pub calls_lead : SessionManager → String → List ToolCall → Bool
calls_lead sm j [] = false
calls_lead sm j (tc ∷ tcs) = id_leads sm j tc.id || calls_lead sm j tcs

unfoldable pub history_leads : SessionManager → String → List OpenAiMessage → Bool
history_leads sm j [] = false
history_leads sm j (msg ∷ msgs) =
    id_leads sm j msg.tool_call_id || (calls_lead sm j msg.tool_calls || history_leads sm j msgs)

is_superseded-append :
    (sm : SessionManager) (ts us : List String) (keep : Option String) (j : String)
    → is_superseded sm (ts ++ us) keep j
      ≡ (is_superseded sm ts keep j || is_superseded sm us keep j)
unfolding is_superseded
is_superseded-append sm [] us keep j = refl
is_superseded-append sm (t ∷ ts) us keep j = ground (arith, is_superseded-append sm ts us keep j)

tool_call_ids-calls_lead :
    (sm : SessionManager) (tcs : List ToolCall) (keep : Option String) (j : String)
    → is_superseded sm (tool_call_ids tcs) keep j ≡ (calls_lead sm j tcs && not (leads_to keep j))
unfolding is_superseded tool_call_ids calls_lead id_leads
tool_call_ids-calls_lead sm [] keep j = refl
tool_call_ids-calls_lead sm (tc ∷ tcs) keep j =
    let later = tool_call_ids-calls_lead sm tcs keep j in
    elim (Bool-cases (tc.id =t "")) [
      | inl e ↦ ground (arith, e, later)
      | inr e ↦ ground (arith, e, later)
    ]

referenced_tool_call_ids-history_leads :
    (sm : SessionManager) (msgs : List OpenAiMessage) (keep : Option String) (j : String)
    → is_superseded sm (referenced_tool_call_ids msgs) keep j
      ≡ (history_leads sm j msgs && not (leads_to keep j))
unfolding is_superseded referenced_tool_call_ids history_leads id_leads
referenced_tool_call_ids-history_leads sm [] keep j = refl
referenced_tool_call_ids-history_leads sm (msg ∷ msgs) keep j =
    let later = referenced_tool_call_ids-history_leads sm msgs keep j in
    let calls = tool_call_ids-calls_lead sm msg.tool_calls keep j in
    let both =
      is_superseded-append sm (tool_call_ids msg.tool_calls) (referenced_tool_call_ids msgs) keep
        j in
    elim (Bool-cases (msg.tool_call_id =t "")) [
      | inl e ↦ ground (arith, e, later, calls, both)
      | inr e ↦ ground (arith, e, later, calls, both)
    ]

-- In a valid table, a request that continues a session keeps it there through the clearing away
-- of what its history leaves behind; and of the other sessions exactly those go to which a tool call
-- leads that a message of the history answers or carries.
pub begin_chat-get_session {ℓ} :
    {Schema : Type ℓ} (sm : SessionManager) (req : ChatCompletionRequest Schema) (p : ℕ)
    → (results : List ToolResult) (j : String) → IsValid sm
    → (begin_chat sm req).1 ≡ tool_turn (some p) results
    → let sm' = (begin_chat sm req).0 in
      let kept = session_id_of sm p in
      (get_session sm' kept ≡ some p)
      × (get_session sm' j
          ≡ (if history_leads sm j req.messages && not (kept =t j) then none else get_session sm j))
unfolding begin_chat find_continuation_session kept_id
begin_chat-get_session sm req p results j v e =
    let trs = trailing_results (reverse req.messages) [] in
    let ts = referenced_tool_call_ids req.messages in
    let k = session_id_of sm p in
    let cont = continued (first_session sm trs) trs results (wants_tools req) p e in
    let led : is_superseded sm ts (some k) j ≡ (history_leads sm j req.messages && not (k =t j)) =
      unfold leads_to in referenced_tool_call_ids-history_leads sm req.messages (some k) j in
    rw cont (
      rw (reap_superseded-get_session sm ts (some k) k, is_superseded-kept sm ts k)
          (first_session-get_session sm trs p v cont),
      reap_superseded-get_session sm ts (some k) j
          ∙ ap (λ b. if b then none else get_session sm j) led,
    )
