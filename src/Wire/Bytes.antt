-- ===== src/Wire/Bytes.antt =====
-- `encoding/binary`'s big-endian 32-bit integers, as internal/tunnel/mux.go uses them.
use valyrium.Base.{ℕ, ◌+◌, ◌*◌, ◌/◌, ◌%◌, ◌^◌, ◌<◌, ◌≡◌, List, [], ◌∷◌, arith}

abbrev pub IsByte : ℕ → Type 0
IsByte b = b < 256

abbrev pub IsUint32 : ℕ → Type 0
IsUint32 n = n < 2 ^ 32

-- `binary.BigEndian.PutUint32` of `uint32(n)`.
abbrev pub put_uint32 : ℕ → List ℕ
put_uint32 n = n / 2 ^ 24 % 256 ∷ n / 2 ^ 16 % 256 ∷ n / 2 ^ 8 % 256 ∷ n % 256 ∷ []

-- `binary.BigEndian.Uint32` of four bytes.
abbrev pub uint32_of : ℕ → ℕ → ℕ → ℕ → ℕ
uint32_of a b c d = a * 2 ^ 24 + b * 2 ^ 16 + c * 2 ^ 8 + d

pub uint32_of-put_uint32 :
    (n : ℕ)
    → IsUint32 n
    → uint32_of (n / 2 ^ 24 % 256) (n / 2 ^ 16 % 256) (n / 2 ^ 8 % 256) (n % 256) ≡ n
uint32_of-put_uint32 n h = omega arith

pub put_uint32-uint32_of :
    (a b c d : ℕ)
    → IsByte a
    → IsByte b
    → IsByte c
    → IsByte d
    → put_uint32 (uint32_of a b c d) ≡ a ∷ b ∷ c ∷ d ∷ []
put_uint32-uint32_of a b c d ha hb hc hd = ground arith

pub uint32_of-IsUint32 :
    (a b c d : ℕ) → IsByte a → IsByte b → IsByte c → IsByte d → IsUint32 (uint32_of a b c d)
uint32_of-IsUint32 a b c d ha hb hc hd = omega arith
