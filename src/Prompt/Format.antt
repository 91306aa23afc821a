-- ===== src/Prompt/Format.antt =====
-- internal/gateway/contextlength.go and internal/gateway/responseformat.go. `strings.ToLower`, the JSON
-- encoder and the JSON decoder are parameters.
use valyrium.Base.{
  All, Bool, Bool-cases, List, Option, Option-cases, String, [], arith, false, if◌then◌else◌, inl,
  inr, length, lookup, ltb, none, not, refl, some, text_iff, text_key, true, ℕ, ◌&&◌, ◌+t◌, ◌<◌,
  ◌=t◌, ◌||◌, ◌∷◌, ◌≡◌,
}
use text.Mathlib.Text.{find?}
use text.Mathlib.TextLemmas.{append-eq-nil_iff}

abbrev pub default_context_length : ℕ
default_context_length = 200000

abbrev pub known_context_lengths : List (String × ℕ)
known_context_lengths = ("haiku", 200000) ∷ ("sonnet", 200000) ∷ ("opus", 200000) ∷ []

-- `strings.Contains`.
unfoldable pub contains : String → String → Bool
contains s substr = elim (find? s substr) [ none ↦ false | some _ ↦ true ]

unfoldable pub known_length : String → List (String × ℕ) → Option ℕ
known_length lower [] = none
known_length lower ((substr, length) ∷ ks) =
    if contains lower substr then some length else known_length lower ks

-- A default that is not positive is passed as 0.
unfoldable pub resolve_context_length : (String → String) → String → List (String × ℕ) → ℕ → ℕ
resolve_context_length to_lower id overrides default_length = elim (lookup id overrides) [
  | some l ↦ l
  | none ↦ elim (known_length (to_lower id) known_context_lengths) [
    | some l ↦ l
    | none ↦ if ltb 0 default_length then default_length else default_context_length
  ]
]

-- The outer option is a nil `JSONSchema`, the inner one a nil `Schema`.
pub record ResponseFormat {ℓ} (Schema : Type ℓ) : Type ℓ where
  pub type : String
  pub json_schema : Option (Option Schema)

abbrev pub json_object_instruction : String
json_object_instruction =
    "You must respond with a single valid JSON object and nothing else: no prose, no markdown code fences, no commentary before or after it."

abbrev pub json_schema_instruction : String
json_schema_instruction =
    "You must respond with a single valid JSON value and nothing else (no prose, no markdown code fences, no commentary) that strictly conforms to this JSON schema:\n"

unfoldable pub schema_instruction : Option String → String
schema_instruction none = json_object_instruction
schema_instruction (some schema_json) = json_schema_instruction +t schema_json

-- The case "json_schema"; `marshal` fails with `none`.
unfoldable pub schema_case {ℓ} :
    {Schema : Type ℓ} → (Schema → Option String) → Option (Option Schema) → String
schema_case marshal none = json_object_instruction
schema_case marshal (some none) = json_object_instruction
schema_case marshal (some (some schema)) = schema_instruction (marshal schema)

unfoldable pub response_format_instruction {ℓ} :
    {Schema : Type ℓ} → (Schema → Option String) → Option (ResponseFormat Schema) → String
response_format_instruction marshal none = ""
response_format_instruction marshal (some rf) =
    if rf.type =t "json_object"
    then json_object_instruction
    else if rf.type =t "json_schema"
    then schema_case marshal rf.json_schema
    else ""

unfoldable pub requires_json {ℓ} : {Schema : Type ℓ} → Option (ResponseFormat Schema) → Bool
requires_json none = false
requires_json (some rf) = rf.type =t "json_object" || rf.type =t "json_schema"

pub data JsonError : Type 0 where
  not_valid not_object : JsonError

-- A decoded value, by whether it is an object; `unmarshal` fails with `none`.
unfoldable pub validate_json_response {ℓ} :
    {Schema : Type ℓ}
    → (String → Option Bool)
    → String
    → Option (ResponseFormat Schema)
    → Option JsonError
validate_json_response unmarshal text none = elim (unmarshal text) [
  | none ↦ some not_valid
  | some _ ↦ none
]
validate_json_response unmarshal text (some rf) = elim (unmarshal text) [
  | none ↦ some not_valid
  | some is_object ↦ if rf.type =t "json_object" && not is_object then some not_object else none
]

schema_instruction_given : (m : Option String) → (schema_instruction m =t "") ≡ false
unfolding schema_instruction
schema_instruction_given none = refl
schema_instruction_given (some s) = elim (Bool-cases ((json_schema_instruction +t s) =t "")) [
  | inl e ↦ absurd (cc (append-eq-nil_iff.0 ((text_iff (json_schema_instruction +t s) "").0 e)).0)
  | inr e ↦ e
]

schema_case_given {ℓ} :
    {Schema : Type ℓ} (marshal : Schema → Option String) (s : Option (Option Schema))
    → (schema_case marshal s =t "") ≡ false
unfolding schema_case
schema_case_given marshal none = refl
schema_case_given marshal (some none) = refl
schema_case_given marshal (some (some schema)) = schema_instruction_given (marshal schema)

instruction_cases {ℓ} :
    {Schema : Type ℓ} (marshal : Schema → Option String) (s : Option (Option Schema)) (a b : Bool)
    → ((if a then json_object_instruction else if b then schema_case marshal s else "") =t "")
      ≡ not (a || b)
instruction_cases marshal s true b = refl
instruction_cases marshal s false true = schema_case_given marshal s
instruction_cases marshal s false false = refl

-- The model is told about the format exactly when its answer will be checked against it: the
-- instruction is empty if and only if `requiresJSON` says no, also where the schema is missing or
-- cannot be encoded.
response_format_instruction-requires_json {ℓ} :
    {Schema : Type ℓ} (marshal : Schema → Option String) (rf : Option (ResponseFormat Schema))
    → (response_format_instruction marshal rf =t "") ≡ not (requires_json rf)
unfolding response_format_instruction requires_json
response_format_instruction-requires_json marshal none = refl
response_format_instruction-requires_json marshal (some rf) =
    instruction_cases marshal rf.json_schema (rf.type =t "json_object") (rf.type =t "json_schema")

abbrev pub IsPositive : String × ℕ → Type 0
IsPositive (id, l) = 0 < l

lookup-IsPositive :
    (id : String) (l : ℕ) (m : List (String × ℕ)) → All IsPositive m → lookup id m ≡ some l → 0 < l
unfolding lookup
lookup-IsPositive id l [] h e = cc
lookup-IsPositive id l ((k, v) ∷ m) h e = ground (arith, lookup-IsPositive id l m h.1, h.0)

known_length-IsPositive :
    (lower : String) (l : ℕ) (ks : List (String × ℕ))
    → All IsPositive ks
    → known_length lower ks ≡ some l
    → 0 < l
unfolding known_length
known_length-IsPositive lower l [] h e = cc
known_length-IsPositive lower l ((s, n) ∷ ks) h e =
    ground (arith, known_length-IsPositive lower l ks h.1, h.0)

resolved_pos :
    (to_lower : String → String) (id : String) (default_length : ℕ) (overrides : List (String × ℕ))
    → All IsPositive overrides
    → 0 < resolve_context_length to_lower id overrides default_length
unfolding resolve_context_length
resolved_pos to_lower id default_length overrides h = elim (Option-cases (lookup id overrides)) [
  | inr (x, e) ↦ rw (e, resolve_context_length) (lookup-IsPositive id x overrides h e)
  | inl e ↦ elim (Option-cases (known_length (to_lower id) known_context_lengths)) [
    | inr (x, k) ↦
        rw (e, k, resolve_context_length)
          (known_length-IsPositive (to_lower id) x known_context_lengths (omega arith) k)
    | inl k ↦ rw (e, k, resolve_context_length) (ground arith)
  ]
]

-- The context length of a model is positive whatever its id, if the configured ones are; and an
-- override for exactly this id is what it is.
pub resolve_context_length_pos :
    (to_lower : String → String) (id other : String) (l default_length : ℕ)
    (overrides : List (String × ℕ))
    → All IsPositive overrides
    → lookup id overrides ≡ some l
    → (0 < resolve_context_length to_lower other overrides default_length)
      × (resolve_context_length to_lower id overrides default_length ≡ l)
unfolding resolve_context_length
resolve_context_length_pos to_lower id other l default_length overrides h e =
    (resolved_pos to_lower other default_length overrides h, rw (e, resolve_context_length))
