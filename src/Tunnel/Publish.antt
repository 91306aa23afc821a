-- ===== src/Tunnel/Publish.antt =====
-- A public caller's way through both ends of the tunnel.
use valyrium.Base.{
  Bool, List, Option, [], ap, append-nil, arith, get_elem?, get_elem?-append_last, insert, length,
  lookup, none, refl, some, suc, sym, true, zero, ℕ, ◌++◌, ◌+◌, ◌<◌, ◌∙◌, ◌∷◌, ◌≡◌, ◌≤◌,
}
use valyrium.Wire.{Sink, header, max_payload_size, validate, write_frame}
use valyrium.Wire.Read.{IsFrame, encode, read_frame-encode}
use valyrium.Mux.Conn.{
  Conn, accept_from, accept_stream, add_stream, allocate, close_conn, done, new_conn, new_stream,
  open_frame, open_stream, opened, relay, stream, tunnel,
}
use valyrium.Mux.Write.{after, conn_write_frame-after, write_frame-after}
use valyrium.Mux.ReadLoop.{goes_on, handle_frame, handle_open, read_round}
use valyrium.Tunnel.Relay.{
  Relay, admit, close_mux, modify_mux, piped, piped_to, register, serve_public, serve_tunnel_client,
}
use valyrium.Tunnel.Client.{auth_frame, authenticate_to, forward, sent_auth}
use valyrium.Tunnel.Handshake.{
  auth_frame-IsFrame, authenticate_step, await_ok, check_good, ok_frame,
}
use valyrium.Tunnel.Slot.{get_elem?-modify_mux}
use valyrium.Tunnel.Dial.{
  Control, Event, accept_next, accepts, admitted, after_round, arrives, connect_and_serve,
  dial_ends, dials, event, new_control, receive_from, receive_next, serve_events, serving,
}
use valyrium.Tunnel.Serving.{among, without}

open_frame-IsFrame : IsFrame (open_frame 1)
unfolding validate
open_frame-IsFrame = record { valid = refl; id_fits = omega arith }

-- The relay's end of a connection whose first stream was opened, and the client's that it came to.
abbrev opened_relay : Sink → Conn
opened_relay out = record (allocate (new_conn out relay)) {
  out = after out (encode (open_frame 1));
}

abbrev pub opened_tunnel : Sink → Conn
opened_tunnel out = record (new_conn out tunnel) { heap = new_stream 1 ∷ []; streams = (1, 0) ∷ [] }

open_stream-new :
    (out : Sink)
    → length (encode (open_frame 1)) ≤ out.room
    → open_stream (new_conn out relay) ≡ (opened_relay out, done 0)
unfolding open_stream opened new_conn allocate add_stream
open_stream-new out room =
    rw
      (conn_write_frame-after (allocate (new_conn out relay)) (open_frame 1)
        open_frame-IsFrame.valid refl room)
      refl

-- The connection that `NewConn` adds is the one in the slot; the one it replaces is another.
get_elem?-modify_last :
    (i : ℕ) (f : Conn → Conn) (cs : List Conn) (c : Conn)
    → i < length cs
    → get_elem? (modify_mux i f (cs ++ c ∷ [])) (length cs) ≡ some c
unfolding modify_mux
get_elem?-modify_last i f [] c h = absurd (omega arith)
get_elem?-modify_last zero f (x ∷ cs) c h = get_elem?-append_last cs c
get_elem?-modify_last (suc i) f (x ∷ cs) c h = get_elem?-modify_last i f cs c (omega arith)

abbrev pub InRange : Option ℕ → ℕ → Type 0
InRange none n = Unit {0}
InRange (some i) n = i < n

get_elem?-close_mux :
    (o : Option ℕ) (cs : List Conn) (c : Conn)
    → InRange o (length cs)
    → get_elem? (close_mux o (cs ++ c ∷ [])) (length cs) ≡ some c
unfolding close_mux
get_elem?-close_mux none cs c h = get_elem?-append_last cs c
get_elem?-close_mux (some i) cs c h = get_elem?-modify_last i close_conn cs c h

serve_public-piped :
    (r : Relay) (p q : ℕ) (c d : Conn)
    → r.tun ≡ some p
    → get_elem? r.muxes p ≡ some c
    → open_stream c ≡ (d, done q)
    → ((serve_public r).1 ≡ piped p q) × (get_elem? (serve_public r).0.muxes p ≡ some d)
unfolding serve_public piped_to
serve_public-piped r p q c d slot at e =
    rw (slot, serve_public, at, e) (refl, get_elem?-modify_mux p (λ _. d) r.muxes c at)

authenticate_to-ok :
    (token rest : List ℕ) (out : Sink)
    → length token ≤ max_payload_size
    → length (encode (auth_frame token)) ≤ out.room
    → authenticate_to token out (encode ok_frame ++ rest)
      ≡ (after out (encode (auth_frame token)), (rest, none))
unfolding authenticate_to sent_auth
authenticate_to-ok token rest out h room =
    rw (write_frame-after out (auth_frame token) (auth_frame-IsFrame token h).valid room)
      (ap (λ x. (after out (encode (auth_frame token)), x)) (await_ok rest))

read_round-open :
    (out : Sink) (rest : List ℕ) (send : Bool)
    → read_round (new_conn out tunnel) (encode (open_frame 1) ++ rest) send
      ≡ (goes_on (record (opened_tunnel out) { accept = 0 ∷ [] }), rest)
unfolding read_round handle_frame handle_open add_stream new_conn stream lookup insert
read_round-open out rest send =
    rw (read_frame-encode (open_frame 1) rest open_frame-IsFrame, read_round) refl

receive_next-open :
    (out : Sink) (rest : List ℕ) (send : Bool)
    → receive_next (new_control out (encode (open_frame 1) ++ rest)) send
      ≡ record (new_control out rest) { conn = record (opened_tunnel out) { accept = 0 ∷ [] } }
unfolding receive_next receive_from new_control encode header after_round
receive_next-open out rest send =
    ap (after_round (new_control out (encode (open_frame 1) ++ rest)))
      (read_round-open out rest send)

-- The client after it forwards the first stream of the relay.
abbrev pub forwarding : Sink → List ℕ → Control
forwarding out rest = record (new_control out rest) { conn = opened_tunnel out; forwarded = 0 ∷ [] }

abbrev pub first_events : Bool → Bool → List Event
first_events send first = arrives send ∷ accepts first ∷ dials 0 true ∷ []

serve_events-arrives :
    (k : Control) (send : Bool) (es : List Event)
    → serve_events k (arrives send ∷ es) ≡ serve_events (receive_next k send) es
unfolding serve_events event
serve_events-arrives k send es = refl

serve_events-taken :
    (out : Sink) (rest : List ℕ) (first : Bool)
    → serve_events
        (record (new_control out rest) { conn = record (opened_tunnel out) { accept = 0 ∷ [] } })
        (accepts first ∷ dials 0 true ∷ [])
      ≡ serving (forwarding out rest)
unfolding serve_events event accept_next accept_stream accept_from dial_ends forward among without
    new_control new_conn
serve_events-taken out rest first = refl

serve_events-open :
    (out : Sink) (rest : List ℕ) (send first : Bool)
    → serve_events (new_control out (encode (open_frame 1) ++ rest)) (first_events send first)
      ≡ serving (forwarding out rest)
serve_events-open out rest send first =
    let es = accepts first ∷ dials 0 true ∷ [] in
    serve_events-arrives (new_control out (encode (open_frame 1) ++ rest)) send es
    ∙ ap (λ k. serve_events k es) (receive_next-open out rest send)
    ∙ serve_events-taken out rest first

connect_and_serve-open :
    (token rest : List ℕ) (out : Sink) (send first : Bool)
    → length token ≤ max_payload_size
    → length (encode (auth_frame token)) ≤ out.room
    → connect_and_serve true token out
        (encode ok_frame ++ (encode (open_frame 1) ++ rest))
        (first_events send first)
      ≡ serving (forwarding (after out (encode (auth_frame token))) rest)
unfolding connect_and_serve admitted
connect_and_serve-open token rest out send first h room =
    rw (authenticate_to-ok token (encode (open_frame 1) ++ rest) out h room)
      (serve_events-open (after out (encode (auth_frame token))) rest send first)

serve_tunnel_client-admit :
    (r : Relay) (more : List ℕ) (out : Sink)
    → length r.cfg.token ≤ max_payload_size
    → length (encode ok_frame) ≤ out.room
    → serve_tunnel_client r (encode (auth_frame r.cfg.token) ++ more) out
      ≡ admit r (after out (encode ok_frame), none)
unfolding serve_tunnel_client
serve_tunnel_client-admit r more out h room =
    rw (authenticate_step r.cfg.token r.cfg.token more out h)
      (ap (admit r) (check_good r.cfg.token out room))

admit-slot :
    (r : Relay) (out : Sink)
    → InRange r.tun (length r.muxes)
    → ((admit r (out, none)).0.tun ≡ some (length r.muxes))
      × (get_elem? (admit r (out, none)).0.muxes (length r.muxes) ≡ some (new_conn out relay))
unfolding admit register
admit-slot r out range = (refl, get_elem?-close_mux r.tun r.muxes (new_conn out relay) range)

-- From the handshake to the gateway: on fresh lines with room for these frames, with a token that fits
-- in one, a client that knows the relay's token is taken, even where the slot holds another of the
-- relay's connections. The next public caller is piped to a stream of the new client's connection.
-- What the relay wrote there until then makes `connectAndServe` at the other end, once it read it,
-- accepted and dialled the gateway, forward that stream, under the id that the relay gave it.
pub serve_public-connect_and_serve :
    (r : Relay) (more : List ℕ) (room room' : ℕ) (send first : Bool)
    → length r.cfg.token ≤ max_payload_size
    → InRange r.tun (length r.muxes)
    → length (encode (auth_frame r.cfg.token)) ≤ room'
    → length (encode ok_frame) + length (encode (open_frame 1)) ≤ room
    → let p = length r.muxes in
      let client : Sink = record { sent = []; room = room' } in
      let line : Sink = record { sent = []; room = room } in
      let sent = (write_frame client (auth_frame r.cfg.token)).0.sent in
      let r' = (serve_tunnel_client r (sent ++ more) line).0 in
      let (served, service) = serve_public r' in
      (service ≡ piped p 0)
      × ((c : Conn) × (get_elem? served.muxes p ≡ some c)
          × (c.streams ≡ (1, 0) ∷ [])
          × (connect_and_serve true r.cfg.token client c.out.sent (first_events send first)
              ≡ serving (forwarding (after client (encode (auth_frame r.cfg.token))) [])))
unfolding allocate add_stream new_conn insert
serve_public-connect_and_serve r more room room' send first h range fits fits' =
    let token = r.cfg.token in
    let es = first_events send first in
    let client : Sink = record { sent = []; room = room' } in
    let line : Sink = record { sent = []; room = room } in
    let answered : Sink = after line (encode ok_frame) in
    let (slot, at) = admit-slot r answered range in
    let next = open_stream-new answered (omega (arith, fits')) in
    rw
      (
        write_frame-after client (auth_frame token) (auth_frame-IsFrame token h).valid fits,
        serve_tunnel_client-admit r more line h (omega (arith, fits')),
      )
      (let (service, there) =
          serve_public-piped (admit r (answered, none)).0 (length r.muxes) 0
            (new_conn answered relay) (opened_relay answered) slot at next in
        (
          service,
          (
            opened_relay answered,
            there,
            refl,
            ap (λ w. connect_and_serve true token client (encode ok_frame ++ w) es)
                  (sym (append-nil (encode (open_frame 1))))
                ∙ connect_and_serve-open token [] client send first h fits,
          ),
        ))
