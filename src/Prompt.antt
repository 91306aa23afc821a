-- ===== src/Prompt.antt =====
-- internal/gateway/openai.go: the messages of a request and what `BuildPrompt` makes of them. Texts
-- of error messages stand for themselves as constructors.
mod Tests
pub mod Plan
pub mod Split
pub mod Accept
pub mod Reply
pub mod Format
use valyrium.Base.{
  Bool, List, Option, String, [], false, if◌then◌else◌, inl, inr, insert, length, lookup, map, none,
  not, some, text_key, true, ◌++◌, ◌+t◌, ◌==◌, ◌=t◌, ◌||◌, ◌∷◌, ◌⊎◌,
}

pub record ToolCall : Type 0 where
  pub id : String
  pub type : String
  pub name : String
  pub arguments : String

-- A member of a content array, by what `textOf` reads of it: the members "type" and "text" of an
-- object, where they are strings.
pub data Part : Type 0 where
  object : Option String → Option String → Part
  no_object : Part

-- The decoded "content": absent, a string, an array, or any other JSON value.
pub data Content : Type 0 where
  null : Content
  string : String → Content
  array : List Part → Content
  other : Content

pub record OpenAiMessage : Type 0 where
  pub role : String
  pub content : Content
  pub tool_call_id : String
  pub tool_calls : List ToolCall

abbrev pub default_system_prompt : String
default_system_prompt = "You are a helpful assistant."

abbrev pub transcript_instruction : String
transcript_instruction =
    "The user message contains a conversation transcript with turns marked \"[user]:\" and \"[assistant]:\". Continue the conversation by writing the next assistant reply to the final user turn. Output only the reply itself, with no role marker or commentary about the transcript."

abbrev pub tool_transcript_instruction : String
tool_transcript_instruction =
    "Turns marked \"[assistant called tool <name> (<id>)]\" and \"[tool <name> (<id>) returned]\" record tool calls the assistant made earlier and the results those tools produced; treat them as completed context when writing the reply."

-- `strings.Join`.
unfoldable pub join : List String → String → String
join [] sep = ""
join (p ∷ []) sep = p
join (p ∷ q ∷ ps) sep = p +t (sep +t join (q ∷ ps) sep)

unfoldable pub text_of_part : Part → Option String
text_of_part no_object = none
text_of_part (object none text) = none
text_of_part (object (some type) text) = if type =t "text" then text else none

unfoldable pub texts_of_parts : List Part → Option (List String)
texts_of_parts [] = some []
texts_of_parts (p ∷ ps) = elim (text_of_part p) [
  | none ↦ none
  | some t ↦ elim (texts_of_parts ps) [ none ↦ none | some ts ↦ some (t ∷ ts) ]
]

-- `textOf`; its only error, for content that is not text, is `none`.
unfoldable pub text_of : OpenAiMessage → Option String
text_of msg = elim msg.content [
  | null ↦ some ""
  | string s ↦ some s
  | array ps ↦ (elim (texts_of_parts ps) [ none ↦ none | some ts ↦ some (join ts "") ])
  | other ↦ none
]

pub data PromptError : Type 0 where
  no_messages only_text no_tool_call_id last_not_user : PromptError
  unsupported_role : String → PromptError

pub data Kind : Type 0 where
  user assistant tool : Kind

pub record Turn : Type 0 where
  pub kind : Kind
  pub raw : String
  pub rendered : String

-- The variables of `BuildPrompt`'s loop.
pub record Transcript : Type 0 where
  pub system_parts : List String
  pub turns : List Turn
  pub tool_names : List (String × String)
  pub has_tool_turns : Bool

unfoldable pub empty_transcript : Transcript
empty_transcript = record { system_parts = []; turns = []; tool_names = []; has_tool_turns = false }

unfoldable pub add_turn : Transcript → Turn → Transcript
add_turn t turn = record t { turns = t.turns ++ turn ∷ [] }

-- A tool call of an assistant message.
unfoldable pub called : Transcript → ToolCall → Transcript
called t tc =
    record (add_turn t (record {
      kind = tool;
      raw = "";
      rendered = "[assistant called tool " +t tc.name +t " (" +t tc.id +t ")]: " +t tc.arguments;
    })) { tool_names = insert tc.id tc.name t.tool_names; has_tool_turns = true }

unfoldable pub called_all : Transcript → List ToolCall → Transcript
called_all t [] = t
called_all t (tc ∷ tcs) = called_all (called t tc) tcs

-- `toolNames[id]`, or "unknown".
unfoldable pub tool_name : Transcript → String → String
tool_name t id = elim (lookup id t.tool_names) [
  | none ↦ "unknown"
  | some name ↦ if name =t "" then "unknown" else name
]

-- The cases of the switch, each with the message's text.
unfoldable pub read_system : Transcript → String → Transcript
read_system t text = record t { system_parts = t.system_parts ++ text ∷ [] }

unfoldable pub read_user : Transcript → String → Transcript
read_user t text = add_turn t (record { kind = user; raw = text; rendered = "[user]: " +t text })

unfoldable pub read_assistant : Transcript → OpenAiMessage → String → Transcript
read_assistant t msg text =
    called_all
      (if not (text =t "") || length msg.tool_calls == 0
        then add_turn t
            (record { kind = assistant; raw = text; rendered = "[assistant]: " +t text })
        else t)
      msg.tool_calls

unfoldable pub read_tool : Transcript → OpenAiMessage → String → Transcript
read_tool t msg text =
    record (add_turn t (record {
      kind = tool;
      raw = "";
      rendered =
          "[tool "
          +t tool_name t msg.tool_call_id
          +t " ("
          +t msg.tool_call_id
          +t ") returned]: "
          +t text;
    })) { has_tool_turns = true }

unfoldable pub with_text : OpenAiMessage → (String → Transcript) → PromptError ⊎ Transcript
with_text msg k = elim (text_of msg) [ none ↦ inl only_text | some s ↦ inr (k s) ]

-- The body of the loop: the switch on the role.
unfoldable pub read_message : Transcript → OpenAiMessage → PromptError ⊎ Transcript
read_message t msg =
    if msg.role =t "system" || msg.role =t "developer"
    then with_text msg (read_system t)
    else if msg.role =t "user"
    then with_text msg (read_user t)
    else if msg.role =t "assistant"
    then with_text msg (read_assistant t msg)
    else if msg.role =t "tool"
    then if msg.tool_call_id =t "" then inl no_tool_call_id else with_text msg (read_tool t msg)
    else inl (unsupported_role msg.role)

unfoldable pub read_messages : Transcript → List OpenAiMessage → PromptError ⊎ Transcript
read_messages t [] = inr t
read_messages t (msg ∷ msgs) = elim (read_message t msg) [
  | inl e ↦ inl e
  | inr t' ↦ read_messages t' msgs
]

-- Whether the turns end in one that a reply can follow.
unfoldable pub ends_open : List Turn → Bool
ends_open [] = false
ends_open (t ∷ []) = elim t.kind [ user ↦ true | assistant ↦ false | tool ↦ true ]
ends_open (t ∷ t' ∷ ts) = ends_open (t' ∷ ts)

-- The text of a conversation that is one user turn.
unfoldable pub only_user : List Turn → Option String
only_user (t ∷ []) = elim t.kind [ user ↦ some t.raw | assistant ↦ none | tool ↦ none ]
only_user [] = none
only_user (t ∷ t' ∷ ts) = none

unfoldable pub system_prompt : List String → String
system_prompt ps = let s = join ps "\n\n" in if s =t "" then default_system_prompt else s

-- What follows the loop: the system prompt and the prompt.
unfoldable pub finish : Transcript → PromptError ⊎ (String × String)
finish t = if not (ends_open t.turns) then inl last_not_user else (elim (only_user t.turns) [
  | some raw ↦ inr (system_prompt t.system_parts, raw)
  | none ↦ inr (
    system_prompt t.system_parts
        +t "\n\n"
        +t transcript_instruction
        +t (if t.has_tool_turns then " " +t tool_transcript_instruction else ""),
    join (map (λ turn. turn.rendered) t.turns) "\n\n",
  )
])

-- `BuildPrompt`.
unfoldable pub build_prompt : List OpenAiMessage → PromptError ⊎ (String × String)
build_prompt msgs =
    if length msgs == 0
    then inl no_messages
    else (elim (read_messages empty_transcript msgs) [ inl e ↦ inl e | inr t ↦ finish t ])
