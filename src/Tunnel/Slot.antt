-- ===== src/Tunnel/Slot.antt =====
-- The one slot for a tunnel client: who holds it, and what happens to the one that is replaced.
use valyrium.Base.{
  ==_iff, ==_refl, List, [], arith, false, get_elem?, none, refl, some, suc, zero, ℕ, ◌∷◌, ◌≡◌, ◌≢◌,
}
use valyrium.Mux.Conn.{Conn, close_conn}
use valyrium.Tunnel.Relay.{
  Relay, close_mux, close_relay, modify_mux, register, registered, serve_public, tunnel_connected,
  unavailable, unregister,
}

pub get_elem?-modify_mux :
    (p : ℕ) (f : Conn → Conn) (cs : List Conn) (c : Conn)
    → get_elem? cs p ≡ some c
    → get_elem? (modify_mux p f cs) p ≡ some (f c)
unfolding modify_mux
get_elem?-modify_mux p f [] c h = cc
get_elem?-modify_mux zero f (x ∷ cs) c h = ground arith
get_elem?-modify_mux (suc p) f (x ∷ cs) c h = get_elem?-modify_mux p f cs c h

-- The last client that registers holds the slot: the connection of the one that it replaces is
-- closed, that one's later `unregister` does not clear the slot, and its own does.
pub register-unregister :
    (r : Relay) (p q : ℕ) (c : Conn)
    → r.tun ≡ some p
    → p ≢ q
    → get_elem? r.muxes p ≡ some c
    → let r' = unregister (register r q) p in
      (r'.tun ≡ some q)
      × (get_elem? r'.muxes p ≡ some (close_conn c))
      × ((unregister r' q).tun ≡ none)
unfolding register unregister registered close_mux
register-unregister r p q c tun other at = (
  ground (arith, ==_iff q p),
  rw tun (get_elem?-modify_mux p close_conn r.muxes c at),
  ground (arith, ==_iff q p, ==_refl q),
)

-- Without a tunnel client, or after `Close`, every public caller gets the relay's own answer, and
-- nothing changes.
pub serve_public-close_relay :
    (r : Relay)
    → r.closed ≡ false
    → (serve_public (close_relay r) ≡ (close_relay r, unavailable))
      × (tunnel_connected (close_relay r) ≡ false)
      × (close_relay (close_relay r) ≡ close_relay r)
unfolding serve_public close_relay tunnel_connected
serve_public-close_relay r live = rw (live, close_relay) (refl, refl, refl)
