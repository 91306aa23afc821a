-- ===== src/Session/Ids.antt =====
-- internal/gateway/session.go and internal/gateway/server.go: the ids that are drawn, and canonical JSON.
-- A text is the list of its bytes here, and what `rand` gives is an argument.
use valyrium.Base.{
  All, List, Option, [], arith, if◌then◌else◌, length, ltb, none, refl, some, ℕ, ◌%◌, ◌*◌, ◌+◌, ◌/◌,
  ◌<◌, ◌∷◌, ◌≡◌,
}
use valyrium.Wire.{IsByte}

-- A digit of `%x`.
unfoldable pub hex_digit : ℕ → ℕ
hex_digit n = if ltb n 10 then 48 + n else 87 + n

-- `%x` of a slice of bytes.
unfoldable pub hex : List ℕ → List ℕ
hex [] = []
hex (b ∷ bs) = hex_digit (b / 16) ∷ hex_digit (b % 16) ∷ hex bs

-- The width of `%032x` is what 16 bytes take.
unfoldable pub new_session_id : List ℕ → List ℕ
new_session_id raw = hex raw

unfoldable pub new_tool_call_id : List ℕ → List ℕ
new_tool_call_id raw = 99 ∷ 97 ∷ 108 ∷ 108 ∷ 95 ∷ hex raw

-- `randomHex`: a digit for each byte.
unfoldable pub random_hex : List ℕ → List ℕ
random_hex [] = []
random_hex (v ∷ vs) = hex_digit (v % 16) ∷ random_hex vs

unfoldable pub new_completion_id : List ℕ → List ℕ
new_completion_id raw = 99 ∷ 104 ∷ 97 ∷ 116 ∷ 99 ∷ 109 ∷ 112 ∷ 108 ∷ 45 ∷ random_hex raw

-- `canonicalJSON`, with the decoder and the encoder of `encoding/json`.
unfoldable pub canonical_json {ℓ} :
    {Value : Type ℓ} → (List ℕ → Option Value) → (Value → Option (List ℕ)) → List ℕ → List ℕ
canonical_json decode encode [] = 123 ∷ 125 ∷ []
canonical_json decode encode (b ∷ bs) = elim (decode (b ∷ bs)) [
  | none ↦ b ∷ bs
  | some v ↦ elim (encode v) [ none ↦ b ∷ bs | some text ↦ text ]
]

hex_digit-inj : (m n : ℕ) → m < 16 → n < 16 → hex_digit m ≡ hex_digit n → m ≡ n
unfolding hex_digit
hex_digit-inj m n h h' e = ground (arith, e)

hex-inj : (a b : List ℕ) → All IsByte a → All IsByte b → hex a ≡ hex b → a ≡ b
unfolding hex
hex-inj [] [] v w e = refl
hex-inj [] (y ∷ ys) v w e = absurd (ground (arith, e))
hex-inj (x ∷ xs) [] v w e = absurd (ground (arith, e))
hex-inj (x ∷ xs) (y ∷ ys) (v, vs) (w, ws) e =
    let high =
      hex_digit-inj (x / 16) (y / 16) (omega (arith, v)) (omega (arith, w)) (ground (arith, e)) in
    let low = hex_digit-inj (x % 16) (y % 16) (omega arith) (omega arith) (ground (arith, e)) in
    let first : x ≡ y = omega (arith, high, low) in
    let rest : xs ≡ ys = hex-inj xs ys vs ws (ground (arith, e)) in λ i. first i ∷ rest i

length-hex : (raw : List ℕ) → length (hex raw) ≡ 2 * length raw
unfolding hex
length-hex [] = refl
length-hex (b ∷ bs) = omega (arith, length-hex bs)

-- Two ids of sessions are the same only if the same bytes were drawn for them, and 16 bytes give 32
-- digits.
new_session_id_inj :
    (a b : List ℕ)
    → All IsByte a
    → All IsByte b
    → length a ≡ 16
    → new_session_id a ≡ new_session_id b
    → (a ≡ b) × (length (new_session_id a) ≡ 32)
unfolding new_session_id
new_session_id_inj a b v w h e = (hex-inj a b v w e, omega (arith, length-hex a, h))

-- So it is with the ids of calls.
new_tool_call_id_inj :
    (a b : List ℕ) → All IsByte a → All IsByte b → new_tool_call_id a ≡ new_tool_call_id b → a ≡ b
unfolding new_tool_call_id
new_tool_call_id_inj a b v w e = hex-inj a b v w (ground (arith, e))

-- The canonical form of a text that decodes is that of its value, however the text was written.
canonical_json-decoded {ℓ} :
    {Value : Type ℓ} (decode : List ℕ → Option Value) (encode : Value → Option (List ℕ)) (v : Value)
    (text : List ℕ) (a b : ℕ) (more rest : List ℕ)
    → decode (a ∷ more) ≡ some v
    → decode (b ∷ rest) ≡ some v
    → encode v ≡ some text
    → canonical_json decode encode (a ∷ more) ≡ canonical_json decode encode (b ∷ rest)
unfolding canonical_json
canonical_json-decoded decode encode v text a b more rest h h' e =
    rw (h, canonical_json, e) (rw (h', canonical_json, e) refl)
