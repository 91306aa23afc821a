-- ===== src/Tunnel/Handshake.antt =====
-- The handshake of the tunnel, from both ends.
use valyrium.Base.{
  ==_iff, ==_refl, Bool-cases, List, [], ap, arith, inl, inr, length, none, refl, some, true, ℕ,
  ◌++◌, ◌∷◌, ◌≡◌, ◌≢◌, ◌≤◌,
}
use valyrium.Wire.{Frame, Sink, frame_auth_ok, max_payload_size, validate, write_frame}
use valyrium.Wire.Read.{IsFrame, encode, read_frame-encode}
use valyrium.Mux.Write.{after, write_frame-after}
use valyrium.Tunnel.Relay.{authenticate, bad_token, check_auth, same_bytes, written}
use valyrium.Tunnel.Client.{auth_frame, await_auth_ok}

abbrev pub ok_frame : Frame
ok_frame = record { type = frame_auth_ok; stream_id = 0; payload = [] }

pub same_bytes_eq : (xs ys : List ℕ) → same_bytes xs ys ≡ true → xs ≡ ys
unfolding same_bytes
same_bytes_eq [] [] h = refl
same_bytes_eq [] (y ∷ ys) h = cc
same_bytes_eq (x ∷ xs) [] h = cc
same_bytes_eq (x ∷ xs) (y ∷ ys) h = ground (arith, ==_iff x y, same_bytes_eq xs ys)

same_bytes_refl : (xs : List ℕ) → same_bytes xs xs ≡ true
unfolding same_bytes
same_bytes_refl [] = refl
same_bytes_refl (x ∷ xs) = ground (arith, ==_refl x, same_bytes_refl xs)

pub auth_frame-IsFrame :
    (token : List ℕ) → length token ≤ max_payload_size → IsFrame (auth_frame token)
unfolding validate
auth_frame-IsFrame token h = record { valid = ground arith; id_fits = omega arith }

ok_frame-IsFrame : IsFrame ok_frame
unfolding validate
ok_frame-IsFrame = record { valid = refl; id_fits = omega arith }

pub authenticate_step :
    (secret token rest : List ℕ) (out : Sink)
    → length token ≤ max_payload_size
    → authenticate secret (encode (auth_frame token) ++ rest) out
      ≡ (rest, check_auth secret out (auth_frame token))
unfolding authenticate
authenticate_step secret token rest out h =
    rw (read_frame-encode (auth_frame token) rest (auth_frame-IsFrame token h), authenticate)

pub await_ok : (rest : List ℕ) → await_auth_ok (encode ok_frame ++ rest) ≡ (rest, none)
unfolding await_auth_ok
await_ok rest = rw (read_frame-encode ok_frame rest ok_frame-IsFrame, await_auth_ok)

pub check_good :
    (token : List ℕ) (out : Sink)
    → length (encode ok_frame) ≤ out.room
    → check_auth token out (auth_frame token) ≡ (after out (encode ok_frame), none)
unfolding check_auth written
check_good token out room =
    rw (same_bytes_refl token, check_auth)
      (unfold written in ap written (write_frame-after out ok_frame ok_frame-IsFrame.valid room))

check_bad :
    (secret token : List ℕ) (out : Sink)
    → token ≢ secret
    → check_auth secret out (auth_frame token) ≡ (out, some bad_token)
unfolding check_auth
check_bad secret token out differ = elim (Bool-cases (same_bytes token secret)) [
  | inl same ↦ absurd (differ (same_bytes_eq token secret same))
  | inr other ↦ rw (other, check_auth)
]

-- With the same token on both sides and lines that accept the frames, the handshake ends well on
-- both: the relay accepts what the client sends, the client accepts the relay's answer, and each
-- leaves the bytes that follow the handshake to the multiplexer.
handshake_agrees :
    (token more more' : List ℕ) (room : ℕ) (out : Sink)
    → length token ≤ max_payload_size
    → length (encode (auth_frame token)) ≤ room
    → length (encode ok_frame) ≤ out.room
    → out.sent ≡ []
    → let client = write_frame (record { sent = []; room = room }) (auth_frame token) in
      let (left, (out', e)) = authenticate token (client.0.sent ++ more) out in
      (client.1 ≡ none)
      × (left ≡ more)
      × (e ≡ none)
      × (await_auth_ok (out'.sent ++ more') ≡ (more', none))
handshake_agrees token more more' room out h fits answer fresh =
    rw
      (
        write_frame-after (record { sent = []; room = room }) (auth_frame token)
            (auth_frame-IsFrame token h).valid fits,
        authenticate_step token token more out h,
        check_good token out answer,
        fresh,
      )
      (refl, refl, refl, await_ok more')

-- A client with any other token is refused, before anything is sent to it.
pub handshake_refuses :
    (secret token more : List ℕ) (out : Sink)
    → length token ≤ max_payload_size
    → token ≢ secret
    → authenticate secret (encode (auth_frame token) ++ more) out ≡ (more, (out, some bad_token))
handshake_refuses secret token more out h differ =
    rw (authenticate_step secret token more out h, check_bad secret token out differ)
