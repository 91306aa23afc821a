-- ===== src/Mux/Chunks.antt =====
-- What `Write` puts on the wire.
use valyrium.Base.{
  All, List, [], ap, arith, drop, if◌then◌else◌, length, length-drop, length-take, none, refl, suc,
  suc-ne-zero, take, take-append-drop, zero, ℕ, ◌++◌, ◌<◌, ◌==◌, ◌∙◌, ◌∷◌, ◌≡◌, ◌≢◌, ◌≤◌,
}
use valyrium.Wire.{max_payload_size, validate}
use valyrium.Wire.Read.{encode}
use valyrium.Mux.Conn.{data_frame}
use valyrium.Mux.Fifo.{join, join-cons}

-- The slices of at most m bytes.
unfoldable pub chunks : ℕ → ℕ → List ℕ → List (List ℕ)
chunks m zero p = []
chunks m (suc fuel) p =
    let rest = chunks m fuel (drop m p) in if length p == 0 then [] else take m p ∷ rest

pub chunks_step :
    (m fuel x : ℕ) (p : List ℕ)
    → chunks m (suc fuel) (x ∷ p) ≡ take m (x ∷ p) ∷ chunks m fuel (drop m (x ∷ p))
unfolding chunks
chunks_step m fuel x p = rw (suc-ne-zero (length p))

pub chunks_nil : (m fuel : ℕ) → chunks m fuel [] ≡ []
unfolding chunks
chunks_nil m zero = refl
chunks_nil m (suc fuel) = refl

-- The bytes of the DATA frames of a stream.
unfoldable pub encode_data : ℕ → List (List ℕ) → List ℕ
encode_data id [] = []
encode_data id (b ∷ bs) = encode (data_frame id b) ++ encode_data id bs

pub join-chunks : (m fuel : ℕ) (p : List ℕ) → 0 < m → length p ≤ fuel → join (chunks m fuel p) ≡ p
join-chunks m zero [] pos h = unfold join chunks in refl
join-chunks m zero (x ∷ p) pos h = absurd (omega arith)
join-chunks m (suc fuel) [] pos h = rw chunks_nil (unfold join in refl)
join-chunks m (suc fuel) (x ∷ p) pos h =
    rw (chunks_step, join-cons)
      (ap (◌++◌ (take m (x ∷ p)))
          (join-chunks m fuel (drop m (x ∷ p)) pos (omega (arith, length-drop m (x ∷ p))))
        ∙ take-append-drop m (x ∷ p))

pub encode_data-cons :
    (id : ℕ) (b : List ℕ) (bs : List (List ℕ))
    → encode_data id (b ∷ bs) ≡ encode (data_frame id b) ++ encode_data id bs
unfolding encode_data
encode_data-cons id b bs = refl

-- A payload that is neither empty nor too long.
abbrev pub Fits : ℕ → List ℕ → Type 0
Fits m b = (0 < length b) × (length b ≤ m)

pub chunks-Fits : (m fuel : ℕ) (p : List ℕ) → 0 < m → All (Fits m) (chunks m fuel p)
chunks-Fits m zero p pos = unfold chunks in tt
chunks-Fits m (suc fuel) [] pos = rw chunks_nil tt
chunks-Fits m (suc fuel) (x ∷ p) pos =
    rw chunks_step (omega (arith, length-take m (x ∷ p)), chunks-Fits m fuel (drop m (x ∷ p)) pos)

pub data_frame-valid :
    (id : ℕ) (b : List ℕ) → id ≢ 0 → length b ≤ max_payload_size → validate (data_frame id b) ≡ none
unfolding validate
data_frame-valid id b nz h = ground arith
