-- ===== src/Wire/Tests.antt =====
-- The codec's theorems at a small DATA frame.
use valyrium.Base.{All, List, [], arith, refl, ℕ, ◌++◌, ◌∷◌, ◌≡◌}
use valyrium.Wire.{
  Frame, IsByte, Sink, check, frame_auth, frame_data, header, ok, parse_header, read_body,
  read_frame, read_full, read_payload, validate,
}
use valyrium.Wire.Write.{Written, write_frame-Written}
use valyrium.Wire.Read.{IsFrame, encode, read_frame-encode}
use valyrium.Wire.Canonical.{read_frame-IsFrame}
use valyrium.Wire.Names.{frame_type_name}

abbrev hello : Frame
hello = record { type = frame_data; stream_id = 3; payload = 104 ∷ 105 ∷ [] }

hello-IsFrame : IsFrame hello
unfolding validate
hello-IsFrame = record { valid = refl; id_fits = omega arith }

abbrev hello_bytes : List ℕ
hello_bytes = 0 ∷ 0 ∷ 0 ∷ 2 ∷ 2 ∷ 0 ∷ 0 ∷ 0 ∷ 3 ∷ 104 ∷ 105 ∷ []

encode-hello : encode hello ≡ hello_bytes
unfolding encode header
encode-hello = refl

read_hello : read_frame hello_bytes ≡ ok (hello, [])
unfolding read_frame read_full parse_header read_body read_payload validate check
read_hello = refl

read_frame-encode_example : read_frame (encode hello ++ 9 ∷ []) ≡ ok (hello, 9 ∷ [])
read_frame-encode_example = read_frame-encode hello (9 ∷ []) hello-IsFrame

hello_bytes-IsByte : All IsByte hello_bytes
hello_bytes-IsByte = omega arith

read_frame-IsFrame_example : IsFrame hello × (hello_bytes ≡ encode hello ++ [])
read_frame-IsFrame_example = read_frame-IsFrame hello_bytes hello [] hello_bytes-IsByte read_hello

abbrev cut_bytes : List ℕ
cut_bytes = 0 ∷ 0 ∷ 0 ∷ 2 ∷ 2 ∷ 0 ∷ 0 ∷ 0 ∷ 3 ∷ 104 ∷ []

abbrev no_stream : Frame
no_stream = record { type = frame_data; stream_id = 0; payload = [] }

abbrev small_sink : Sink
small_sink = record { sent = []; room = 10 }

write_frame-Written_example : Written small_sink hello (validate hello)
write_frame-Written_example = write_frame-Written small_sink hello

auth_name : frame_type_name (λ n. "?") frame_auth ≡ "AUTH"
unfolding frame_type_name
auth_name = refl

unknown_name : frame_type_name (λ n. "9") 9 ≡ "UNKNOWN(9)"
unfolding frame_type_name
unknown_name = refl
