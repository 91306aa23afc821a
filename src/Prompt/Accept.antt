-- ===== src/Prompt/Accept.antt =====
-- Which conversations `BuildPrompt` reads, and the prompt of the plainest ones.
use valyrium.Base.{
  Bool, List, String, [], append-nil, append_assoc, false, inl, inr, length, map, not, refl,
  suc-ne-zero, true, ◌&&◌, ◌++◌, ◌==◌, ◌=t◌, ◌||◌, ◌∙◌, ◌∷◌, ◌≡◌, ◌⊎◌,
}
use valyrium.Prompt.{
  OpenAiMessage, PromptError, Transcript, add_turn, build_prompt, empty_transcript, ends_open,
  finish, only_user, read_message, read_messages, read_system, read_user, string, system_prompt,
  text_of, with_text,
}
use valyrium.Prompt.Plan.{is_some_text}

unfoldable pub is_read : PromptError ⊎ Transcript → Bool
is_read (inl e) = false
is_read (inr t) = true

-- A message with a known role and content that is text, and with an id if it is a tool's.
unfoldable pub accepted : OpenAiMessage → Bool
accepted msg =
    is_some_text (text_of msg)
    && (msg.role =t "system"
        || msg.role =t "developer"
        || msg.role =t "user"
        || msg.role =t "assistant"
        || (msg.role =t "tool" && not (msg.tool_call_id =t "")))

unfoldable pub all_accepted : List OpenAiMessage → Bool
all_accepted [] = true
all_accepted (msg ∷ msgs) = let rest = all_accepted msgs in accepted msg && rest

abbrev pub system_message : String → OpenAiMessage
system_message s = record {
  role = "system";
  content = string s;
  tool_call_id = "";
  tool_calls = [];
}

abbrev pub user_message : String → OpenAiMessage
user_message s = record { role = "user"; content = string s; tool_call_id = ""; tool_calls = [] }

read_messages-system :
    (t : Transcript) (ss : List String) (msgs : List OpenAiMessage)
    → read_messages t (map system_message ss ++ msgs)
      ≡ read_messages (record t { system_parts = t.system_parts ++ ss }) msgs
unfolding read_messages read_message with_text text_of read_system
read_messages-system t [] msgs = rw append-nil
read_messages-system t (s ∷ ss) msgs =
    read_messages-system (read_system t s) ss msgs ∙ rw (append_assoc t.system_parts (s ∷ []) ss)

not_empty :
    (ss : List String) (s : String)
    → (length (map system_message ss ++ user_message s ∷ []) == 0) ≡ false
not_empty [] s = refl
not_empty (t ∷ ss) s = suc-ne-zero (length (map system_message ss ++ user_message s ∷ []))

-- A conversation of one user message, after any system messages, is passed on as it is: the
-- prompt is the user's text without a marker, and the system prompt has no word on transcripts.
pub build_prompt-single :
    (ss : List String) (s : String)
    → build_prompt (map system_message ss ++ user_message s ∷ []) ≡ inr (system_prompt ss, s)
unfolding build_prompt
build_prompt-single ss s =
    rw
      (not_empty ss s, read_messages-system empty_transcript ss (user_message s ∷ []), build_prompt)
      (unfold read_messages read_message with_text text_of read_user empty_transcript add_turn
          finish ends_open only_user in
        refl)
