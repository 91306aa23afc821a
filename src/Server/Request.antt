-- ===== src/Server/Request.antt =====
-- internal/gateway/server.go: what a request asks for, and how it will reach the assistant.
use valyrium.Base.{
  Bool, Bool-cases, List, Option, String, [], false, if◌then◌else◌, inl, inr, none, not, refl, some,
  true, ◌++◌, ◌+t◌, ◌=t◌, ◌||◌, ◌∷◌, ◌≡◌, ◌⊎◌,
}
use valyrium.Prompt.{OpenAiMessage, ToolCall, string}
use valyrium.Prompt.Plan.{is_resumable_conversation, split_resume_turn, system_prompt_of}
use valyrium.Resume.{ResumeStore, get, put}

pub record ReasoningSpec : Type 0 where
  pub enabled : Option Bool
  pub effort : String

unfoldable pub valid_reasoning_effort : String → Bool
valid_reasoning_effort e = e =t "low" || e =t "medium" || e =t "high" || e =t "xhigh" || e =t "max"

unfoldable pub valid_or_empty : String → String
valid_or_empty e = if valid_reasoning_effort e then e else ""

unfoldable pub turned_off : Option Bool → Bool
turned_off none = false
turned_off (some enabled) = not enabled

unfoldable pub resolve_effort : String → Option ReasoningSpec → String
resolve_effort reasoning_effort none =
    if not (reasoning_effort =t "") then valid_or_empty reasoning_effort else ""
resolve_effort reasoning_effort (some reasoning) =
    if not (reasoning_effort =t "")
    then valid_or_empty reasoning_effort
    else if turned_off reasoning.enabled
    then ""
    else valid_or_empty reasoning.effort

-- `isAuthorized`, with the two headers of the request.
unfoldable pub is_authorized : String → String → String → Bool
is_authorized api_key bearer x_api_key =
    if api_key =t ""
    then true
    else if bearer =t ("Bearer " +t api_key)
    then true
    else x_api_key =t api_key

unfoldable pub tool_call_ids : List ToolCall → List String
tool_call_ids [] = []
tool_call_ids (tc ∷ tcs) =
    let rest = tool_call_ids tcs in if tc.id =t "" then rest else tc.id ∷ rest

-- `referencedToolCallIDs`.
unfoldable pub referenced_tool_call_ids : List OpenAiMessage → List String
referenced_tool_call_ids [] = []
referenced_tool_call_ids (msg ∷ msgs) =
    let rest = tool_call_ids msg.tool_calls ++ referenced_tool_call_ids msgs in
    if msg.tool_call_id =t "" then rest else msg.tool_call_id ∷ rest

pub record ResumeTurn : Type 0 where
  pub persist : Bool
  pub hit : Bool
  pub cli_session_id : String
  pub system_prompt : String
  pub prompt : String

abbrev pub fresh_turn : Bool → ResumeTurn
fresh_turn persist = record {
  persist = persist;
  hit = false;
  cli_session_id = "";
  system_prompt = "";
  prompt = "";
}

-- The plan after the lookup.
unfoldable pub looked_up : List OpenAiMessage → String → String × Bool → ResumeTurn
looked_up msgs user_text (cli_session_id, hit) =
    if hit
    then record {
      persist = true;
      hit = true;
      cli_session_id = cli_session_id;
      system_prompt = system_prompt_of msgs;
      prompt = user_text;
    }
    else fresh_turn true

unfoldable pub planned_split :
    (List OpenAiMessage → String)
    → Option ResumeStore
    → List OpenAiMessage
    → Option (List OpenAiMessage × String)
    → Option ResumeStore × ResumeTurn
planned_split fingerprint resume msgs none = (resume, fresh_turn true)
planned_split fingerprint resume msgs (some (prefix, user_text)) =
    let (resume', answer) = get resume (fingerprint prefix) in
    (resume', looked_up msgs user_text answer)

unfoldable pub enabled : Option ResumeStore → Bool
enabled none = false
enabled (some rs) = true

-- `planResumeTurn`, with the fingerprint for the request's model and effort.
unfoldable pub plan_resume_turn :
    (List OpenAiMessage → String)
    → Option ResumeStore
    → List OpenAiMessage
    → Option ResumeStore × ResumeTurn
plan_resume_turn fingerprint resume msgs =
    if not (enabled resume) || not (is_resumable_conversation msgs)
    then (resume, fresh_turn false)
    else planned_split fingerprint resume msgs (split_resume_turn msgs)

abbrev pub assistant_message : String → OpenAiMessage
assistant_message s = record {
  role = "assistant";
  content = string s;
  tool_call_id = "";
  tool_calls = [];
}

-- `recordResumableSession` for a completion with this text and session id.
unfoldable pub record_resumable_session :
    (List OpenAiMessage → String)
    → Option ResumeStore
    → List OpenAiMessage
    → String
    → String
    → Option ResumeStore
record_resumable_session fingerprint resume msgs text cli_session_id =
    if not (enabled resume) || cli_session_id =t ""
    then resume
    else if not (is_resumable_conversation msgs)
    then resume
    else put resume (fingerprint (msgs ++ assistant_message text ∷ [])) cli_session_id

abbrev pub IsEffort : String → Type 0
IsEffort e = (e ≡ "") ⊎ (valid_reasoning_effort e ≡ true)

either-IsEffort :
    (b : Bool) (x y : String) → IsEffort x → IsEffort y → IsEffort (if b then x else y)
either-IsEffort true x y h k = h
either-IsEffort false x y h k = k

valid_or_empty-IsEffort : (e : String) → IsEffort (valid_or_empty e)
unfolding valid_or_empty
valid_or_empty-IsEffort e = elim (Bool-cases (valid_reasoning_effort e)) [
  | inl valid ↦ rw (valid, valid_or_empty) (inr valid)
  | inr bad ↦ rw (bad, valid_or_empty) (inl refl)
]

-- The flag `--effort` is left out or gets one of the five efforts, whatever a request says; and a
-- reasoning object that is turned off gives none unless `reasoning_effort` does.
pub resolve_effort-IsEffort :
    (e : String) (r : Option ReasoningSpec) (off : ReasoningSpec)
    → off.enabled ≡ some false
    → IsEffort (resolve_effort e r) × (resolve_effort "" (some off) ≡ "")
unfolding resolve_effort
resolve_effort-IsEffort e none off h = (
  either-IsEffort (not (e =t "")) _ _ (valid_or_empty-IsEffort e) (inl refl),
  rw (h, resolve_effort) (unfold turned_off in refl),
)
resolve_effort-IsEffort e (some r) off h = (
  either-IsEffort (not (e =t "")) _ _ (valid_or_empty-IsEffort e)
      (either-IsEffort (turned_off r.enabled) _ _ (inl refl) (valid_or_empty-IsEffort r.effort)),
  rw (h, resolve_effort) (unfold turned_off in refl),
)
