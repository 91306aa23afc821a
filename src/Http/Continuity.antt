-- ===== src/Http/Continuity.antt =====
-- internal/gateway/server.go and internal/gateway/resume.go: a turn that is recorded, and the next
-- turn of the same conversation.
use valyrium.Base.{List, String, [], ◌++◌, ◌∷◌}
use valyrium.Prompt.{OpenAiMessage}
use valyrium.Prompt.Accept.{user_message}
use valyrium.Server.Request.{assistant_message}
use text.Mathlib.TextLemmas.{nil-append as nil-text}

-- The two messages that end the next turn.
abbrev pub next_messages : List OpenAiMessage → String → String → List OpenAiMessage
next_messages msgs reply q = msgs ++ assistant_message reply ∷ user_message q ∷ []
