-- ===== src/Tunnel/Admission.antt =====
-- Who becomes the tunnel client of a relay.
use valyrium.Base.{
  ==_iff, All, Bool-cases, List, Option, ap, arith, inl, inr, length, none, refl, some, sym, ℕ,
  ◌++◌, ◌==◌, ◌∙◌, ◌≡◌, ◌⊎◌,
}
use valyrium.Wire.{
  Frame, IsByte, Result, Sink, WireError, err, frame_auth, ok, read_frame, validate,
}
use valyrium.Wire.Read.{encode}
use valyrium.Wire.Canonical.{read_frame-IsFrame}
use valyrium.Tunnel.Relay.{
  AuthError, Relay, admit, authenticate, check_auth, reading, register, same_bytes,
  serve_tunnel_client,
}
use valyrium.Tunnel.Client.{auth_frame}
use valyrium.Tunnel.Handshake.{same_bytes_eq}

-- A valid AUTH frame is its payload's.
auth_frame-eta : (f : Frame) → validate f ≡ none → f.type ≡ frame_auth → f ≡ auth_frame f.payload
unfolding validate
auth_frame-eta f v t =
    let level : f.stream_id ≡ 0 = ground (arith, v, t) in
    λ i. record { type = t i; stream_id = level i; payload = f.payload }

-- What the checks let through.
check_auth-none :
    (token : List ℕ) (out : Sink) (f : Frame)
    → (check_auth token out f).1 ≡ none
    → (f.type ≡ frame_auth) × (f.payload ≡ token)
unfolding check_auth
check_auth-none token out f h = elim (Bool-cases (f.type == frame_auth)) [
  | inr other ↦ absurd (ground (arith, h, other))
  | inl auth ↦ elim (Bool-cases (same_bytes f.payload token)) [
    | inl same ↦ ((==_iff f.type frame_auth).0 auth, same_bytes_eq f.payload token same)
    | inr differs ↦ absurd (ground (arith, h, auth, differs))
  ]
]

authenticate_bad :
    (token bs : List ℕ) (out : Sink) (e : WireError)
    → read_frame bs ≡ err e
    → (authenticate token bs out).1 ≡ (out, some (reading e))
unfolding authenticate
authenticate_bad token bs out e bad = rw (bad, authenticate)

authenticate_good :
    (token bs rest : List ℕ) (out : Sink) (f : Frame)
    → read_frame bs ≡ ok (f, rest)
    → (authenticate token bs out).1 ≡ check_auth token out f
unfolding authenticate
authenticate_good token bs rest out f good = rw (good, authenticate)

Result-cases {ℓ} :
    {A : Type ℓ} (r : Result A) → ((e : WireError) × (r ≡ err e)) ⊎ ((a : A) × (r ≡ ok a))
Result-cases (err e) = inl (e, refl)
Result-cases (ok a) = inr (a, refl)

admit-inr :
    (r : Relay) (x : Sink × Option AuthError) (p : ℕ)
    → (admit r x).1 ≡ inr p
    → (x.1 ≡ none) × (p ≡ length r.muxes) × ((admit r x).0.tun ≡ some p)
unfolding admit register
admit-inr r (out, some e) p h = absurd (ground (arith, h))
admit-inr r (out, none) p h =
    let at : length r.muxes ≡ p = ground (arith, h) in (refl, sym at, ap some at)

-- Whatever bytes a client sends: if the relay takes it as its tunnel client, then they begin with an
-- AUTH frame that carries the relay's token, and the client has the relay's slot, under a pointer that
-- no earlier client had.
pub serve_tunnel_client-encode :
    (r : Relay) (bs : List ℕ) (out : Sink) (p : ℕ)
    → All IsByte bs
    → (serve_tunnel_client r bs out).1 ≡ inr p
    → (rest : List ℕ) × (bs ≡ encode (auth_frame r.cfg.token) ++ rest)
      × (length r.muxes ≡ p)
      × ((serve_tunnel_client r bs out).0.tun ≡ some p)
unfolding serve_tunnel_client
serve_tunnel_client-encode r bs out p bytes h =
    let (passed, at, slot) = admit-inr r (authenticate r.cfg.token bs out).1 p h in
    elim (Result-cases (read_frame bs)) [
      | inl (e, bad) ↦ absurd (ground (arith, passed, authenticate_bad r.cfg.token bs out e bad))
      | inr ((f, rest), good) ↦
          let (v, taken) = read_frame-IsFrame bs f rest bytes good in
          let checked : (check_auth r.cfg.token out f).1 ≡ none =
            ground (arith, passed, authenticate_good r.cfg.token bs rest out f good) in
          let (t, same) = check_auth-none r.cfg.token out f checked in
          (
            rest,
            taken ∙ ap (λ g. encode g ++ rest) (auth_frame-eta f v.valid t ∙ ap auth_frame same),
            sym at,
            slot,
          )
    ]
