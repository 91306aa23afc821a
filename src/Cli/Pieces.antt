-- ===== src/Cli/Pieces.antt =====
-- The pieces that internal/gateway/claudecli.go hands to its callbacks, put together.
use valyrium.Base.{List, Option, String, [], ap, none, some, sym, ◌++◌, ◌+t◌, ◌∙◌, ◌∷◌, ◌≡◌}
use valyrium.Cli.{Callback, reasoning_delta, text_delta}
use text.Mathlib.TextLemmas.{append_assoc as text_assoc, nil-append as nil-text}

-- The pieces of text, and of reasoning, in the order in which they were written.
unfoldable pub text_pieces : List Callback → String
text_pieces [] = ""
text_pieces (text_delta s ∷ cs) = s +t text_pieces cs
text_pieces (reasoning_delta s ∷ cs) = text_pieces cs

unfoldable pub reasoning_pieces : List Callback → String
reasoning_pieces [] = ""
reasoning_pieces (text_delta s ∷ cs) = reasoning_pieces cs
reasoning_pieces (reasoning_delta s ∷ cs) = s +t reasoning_pieces cs

pub text_pieces-append :
    (xs ys : List Callback) → text_pieces (xs ++ ys) ≡ text_pieces xs +t text_pieces ys
unfolding text_pieces
text_pieces-append [] ys = sym (nil-text _)
text_pieces-append (text_delta s ∷ cs) ys =
    ap (λ t. s +t t) (text_pieces-append cs ys) ∙ sym (text_assoc s _ _)
text_pieces-append (reasoning_delta s ∷ cs) ys = text_pieces-append cs ys

pub reasoning_pieces-append :
    (xs ys : List Callback)
    → reasoning_pieces (xs ++ ys) ≡ reasoning_pieces xs +t reasoning_pieces ys
unfolding reasoning_pieces
reasoning_pieces-append [] ys = sym (nil-text _)
reasoning_pieces-append (text_delta s ∷ cs) ys = reasoning_pieces-append cs ys
reasoning_pieces-append (reasoning_delta s ∷ cs) ys =
    ap (λ t. s +t t) (reasoning_pieces-append cs ys) ∙ sym (text_assoc s _ _)

-- A text that is given, or else the pieces.
abbrev pub or_pieces : Option String → String → String
or_pieces none pieces = pieces
or_pieces (some text) pieces = text
