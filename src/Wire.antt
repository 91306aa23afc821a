-- ===== src/Wire.antt =====
-- internal/tunnel/mux.go, the frame codec: frame types, `validate`, `WriteFrame`, `ReadFrame`.
-- A byte is a number below 256, a byte stream the list of the bytes that are still to come before
-- its end; the outcome of `io.ReadFull` at that end is written out.
mod Tests
pub mod Names
pub mod Bytes
pub mod Read
pub mod Canonical
pub mod Refuse
pub mod Write
pub use Bytes.{IsByte, IsUint32, put_uint32, uint32_of}
use valyrium.Base.{
  Bool, List, Option, [], drop, if◌then◌else◌, leb, length, ltb, min, none, not, some, take, ℕ,
  ◌&&◌, ◌*◌, ◌++◌, ◌-◌, ◌==◌, ◌||◌, ◌∷◌,
}

abbrev pub frame_header_size : ℕ
frame_header_size = 9

abbrev pub max_payload_size : ℕ
max_payload_size = 64 * 1024

-- `FrameType` is a uint8: any byte can come in, and the constants name seven of them.
abbrev pub FrameType : Type 0
FrameType = ℕ

abbrev pub frame_open : FrameType
frame_open = 1

abbrev pub frame_data : FrameType
frame_data = 2

abbrev pub frame_close : FrameType
frame_close = 3

abbrev pub frame_ping : FrameType
frame_ping = 4

abbrev pub frame_pong : FrameType
frame_pong = 5

abbrev pub frame_auth : FrameType
frame_auth = 6

abbrev pub frame_auth_ok : FrameType
frame_auth_ok = 7

unfoldable pub known : FrameType → Bool
known t = leb frame_open t && leb t frame_auth_ok

unfoldable pub carries_stream : FrameType → Bool
carries_stream t = t == frame_open || (t == frame_data || t == frame_close)

pub record Frame : Type 0 where
  pub type : FrameType
  pub stream_id : ℕ
  pub payload : List ℕ

-- The errors of this file, with the values that their messages print.
pub data WireError : Type 0 where
  unknown_type : ℕ → WireError
  payload_over_limit : FrameType → ℕ → WireError
  must_name_stream : FrameType → WireError
  connection_level : FrameType → ℕ → WireError
  declares_over_limit : ℕ → WireError
  eof unexpected_eof write_failed : WireError

pub data Result {ℓ} (A : Type ℓ) : Type ℓ where
  err : WireError → Result A
  ok : A → Result A

infixl 4 ◌>>=◌
abbrev pub ◌>>=◌ {κ ℓ} : {B : Type κ} {A : Type ℓ} → Result B → (B → Result A) → Result A
err failure >>= k = err failure
ok result >>= k = k result

-- `none` is the nil error.
unfoldable pub validate : Frame → Option WireError
unfolding known carries_stream
validate f =
    if not (known f.type)
    then some (unknown_type f.type)
    else if ltb max_payload_size (length f.payload)
    then some (payload_over_limit f.type (length f.payload))
    else if carries_stream f.type && f.stream_id == 0
    then some (must_name_stream f.type)
    else if not (carries_stream f.type) && not (f.stream_id == 0)
    then some (connection_level f.type f.stream_id)
    else none

-- The nine bytes that `WriteFrame` puts in `hdr`.
unfoldable pub header : Frame → List ℕ
header f = put_uint32 (length f.payload) ++ f.type ∷ put_uint32 f.stream_id

-- A writer that accepts `room` more bytes and then fails.
pub record Sink : Type 0 where
  pub sent : List ℕ
  pub room : ℕ

-- `w.Write(p)`: what fits is written, and it is an error if that is not all.
unfoldable pub write : Sink → List ℕ → Sink × Option WireError
write w p = (
  record { sent = w.sent ++ take (min w.room (length p)) p; room = w.room - length p },
  if leb (length p) w.room then none else some write_failed,
)

unfoldable pub write_payload : List ℕ → Sink × Option WireError → Sink × Option WireError
write_payload p (w, some e) = (w, some e)
write_payload p (w, none) = if length p == 0 then (w, none) else write w p

unfoldable pub write_frame : Sink → Frame → Sink × Option WireError
write_frame w f = elim (validate f) [
  | some e ↦ (w, some e)
  | none ↦ write_payload f.payload (write w (header f))
]

-- `io.ReadFull` for n bytes: the bytes read and the rest of the stream.
unfoldable pub read_full : ℕ → List ℕ → Result (List ℕ × List ℕ)
read_full n bs =
    if leb n (length bs)
    then ok (take n bs, drop n bs)
    else if length bs == 0
    then err eof
    else err unexpected_eof

-- The payload of a frame whose header was read: an end of the stream here is never a plain EOF.
unfoldable pub read_payload : ℕ → List ℕ → Result (List ℕ × List ℕ)
read_payload n bs =
    if ltb 0 n
    then (elim (read_full n bs) [ ok r ↦ ok r | err eof ↦ err unexpected_eof | err e ↦ err e ])
    else ok ([], bs)

pub check : Frame → List ℕ → Result (Frame × List ℕ)
check f rest = elim (validate f) [ some e ↦ err e | none ↦ ok (f, rest) ]

-- `hdr[0:4]`, `hdr[4]` and `hdr[5:9]` of the nine bytes.
pub record Header : Type 0 where
  pub declared : ℕ
  pub kind : FrameType
  pub stream : ℕ

unfoldable pub parse_header : List ℕ → Header
parse_header (a ∷ b ∷ c ∷ d ∷ t ∷ e ∷ f ∷ g ∷ h ∷ _) = record {
  declared = uint32_of a b c d;
  kind = t;
  stream = uint32_of e f g h;
}
parse_header _ = record { declared = 0; kind = 0; stream = 0 }

unfoldable pub read_body : Header → List ℕ → Result (Frame × List ℕ)
unfolding check
read_body hdr rest =
    if ltb max_payload_size hdr.declared then err (declares_over_limit hdr.declared) else do
      (payload, rest') ← read_payload hdr.declared rest
      check (record { type = hdr.kind; stream_id = hdr.stream; payload = payload }) rest'

unfoldable pub read_frame : List ℕ → Result (Frame × List ℕ)
unfolding parse_header
read_frame bs = do (hdr, rest) ← read_full frame_header_size bs; read_body (parse_header hdr) rest
