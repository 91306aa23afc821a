-- ===== src/Prompt/Plan.antt =====
-- internal/gateway/resume.go: which conversations the assistant's own sessions can carry, and how a
-- turn is split for them. The hash of `resumeFingerprint`, SHA-256 over a JSON encoding, is a
-- parameter.
use valyrium.Base.{
  Bool, List, Option, String, [], drop, false, if◌then◌else◌, length, none, not, some, suc, take,
  true, ℕ, ◌&&◌, ◌+t◌, ◌==◌, ◌=t◌, ◌||◌, ◌∷◌,
}
use valyrium.Prompt.{OpenAiMessage, default_system_prompt, text_of}

unfoldable pub join_non_empty_from : String → List String → String → String
join_non_empty_from out [] sep = out
join_non_empty_from out (p ∷ ps) sep =
    if p =t ""
    then join_non_empty_from out ps sep
    else join_non_empty_from ((if out =t "" then out else out +t sep) +t p) ps sep

unfoldable pub join_non_empty : List String → String → String
join_non_empty ps sep = join_non_empty_from "" ps sep

-- The turns that are hashed: role and text of each message.
unfoldable pub hashed_turns : List OpenAiMessage → Option (List (String × String))
hashed_turns [] = some []
hashed_turns (msg ∷ msgs) = elim (text_of msg) [
  | none ↦ none
  | some s ↦ elim (hashed_turns msgs) [ none ↦ none | some turns ↦ some ((msg.role, s) ∷ turns) ]
]

unfoldable pub resume_fingerprint :
    (String → String → List (String × String) → String)
    → List OpenAiMessage
    → String
    → String
    → String
resume_fingerprint hash msgs model effort = elim (hashed_turns msgs) [
  | none ↦ ""
  | some turns ↦ hash model effort turns
]

unfoldable pub is_some_text : Option String → Bool
is_some_text none = false
is_some_text (some s) = true

unfoldable pub is_resumable_conversation : List OpenAiMessage → Bool
is_resumable_conversation [] = true
is_resumable_conversation (msg ∷ msgs) =
    if msg.role =t "tool" || not (length msg.tool_calls == 0)
    then false
    else if not (is_some_text (text_of msg))
    then false
    else is_resumable_conversation msgs

-- The first loop of `splitResumeTurn`, from index i on; `none` is -1.
unfoldable pub last_assistant : ℕ → List OpenAiMessage → Option ℕ → Option ℕ
last_assistant i [] last = last
last_assistant i (msg ∷ msgs) last =
    last_assistant (suc i) msgs (if msg.role =t "assistant" then some i else last)

-- The second loop: the texts of the tail, all of it user messages.
unfoldable pub user_parts : List OpenAiMessage → Option (List String)
user_parts [] = some []
user_parts (msg ∷ msgs) = if not (msg.role =t "user") then none else (elim (text_of msg) [
  | none ↦ none
  | some s ↦ elim (user_parts msgs) [ none ↦ none | some ps ↦ some (s ∷ ps) ]
])

-- What follows the loops, for the part of the messages up to the last reply.
unfoldable pub split_at :
    List OpenAiMessage → Option (List String) → Option (List OpenAiMessage × String)
split_at prefix none = none
split_at prefix (some ps) =
    let user_text = join_non_empty ps "\n\n" in
    if user_text =t "" then none else some (prefix, user_text)

unfoldable pub split_tail : List OpenAiMessage → ℕ → Option (List OpenAiMessage × String)
split_tail msgs i =
    let tail = drop (suc i) msgs in
    if length tail == 0 then none else split_at (take (suc i) msgs) (user_parts tail)

-- `splitResumeTurn`; `none` is `ok == false`.
unfoldable pub split_resume_turn : List OpenAiMessage → Option (List OpenAiMessage × String)
split_resume_turn msgs = elim (last_assistant 0 msgs none) [
  | none ↦ none
  | some i ↦ split_tail msgs i
]

-- The loop of `systemPromptOf`; `none` once a system message is not text.
unfoldable pub system_parts_of : List OpenAiMessage → Option (List String)
system_parts_of [] = some []
system_parts_of (msg ∷ msgs) =
    if not (msg.role =t "system") && not (msg.role =t "developer")
    then system_parts_of msgs
    else (elim (text_of msg) [
      | none ↦ none
      | some s ↦ elim (system_parts_of msgs) [ none ↦ none | some ps ↦ some (s ∷ ps) ]
    ])

unfoldable pub system_prompt_of : List OpenAiMessage → String
system_prompt_of msgs = elim (system_parts_of msgs) [
  | none ↦ default_system_prompt
  | some ps ↦
      let prompt = join_non_empty ps "\n\n" in
      if prompt =t "" then default_system_prompt else prompt
]
