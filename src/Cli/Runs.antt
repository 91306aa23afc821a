-- ===== src/Cli/Runs.antt =====
-- internal/gateway/claudecli.go: what the callbacks of `RunClaude` have seen, against its completion.
use valyrium.Base.{
  Bool, List, Option, String, [], false, if◌then◌else◌, inl, inr, none, not, some, ◌&&◌, ◌=t◌, ◌∷◌,
  ◌≡◌, ◌⊎◌,
}
use valyrium.Cli.Pieces.{or_pieces, reasoning_pieces, text_pieces}
use valyrium.Cli.{Callback, CliError, Output, StreamLine}
use valyrium.Cli.Run.{Run}
use valyrium.Prompt.Reply.{Completion}
use text.Mathlib.TextLemmas.{append-nil as append_nothing}

-- The text of the last result that has one and is no error, in what the CLI wrote.
unfoldable pub spoken {ℓ} : {Cost : Type ℓ} → Option String → List (Output Cost) → Option String
spoken before [] = before
spoken before (o ∷ os) = elim o.parsed [
  | none ↦ spoken before os
  | some l ↦
      spoken
        (if l.type =t "result" && (not l.is_error && not (l.result =t ""))
          then some l.result
          else before)
        os
]

module _ {ℓ} {Cost : Type ℓ} where
  -- What was handed on is what was gathered.
  record IsRan (r : Run Cost) : Type 0 where
    streamed : text_pieces r.callbacks ≡ r.streamed_text
    reasoned : reasoning_pieces r.callbacks ≡ r.reasoning_text

  abbrev heard : Option String → StreamLine Cost → Option String
  heard before l =
      if l.type =t "result" && (not l.is_error && not (l.result =t ""))
      then some l.result
      else before

  -- How a result stands to the callbacks, and to the text of the CLI's result.
  Tells : List Callback → Option String → Bool → CliError ⊎ Completion Cost → Type 0
  Tells callbacks said late (inl e) = Unit
  Tells callbacks said late (inr c) =
      (reasoning_pieces callbacks ≡ c.reasoning_text)
      × (c.text ≡ or_pieces said (text_pieces callbacks))
      × (late ≡ false)
