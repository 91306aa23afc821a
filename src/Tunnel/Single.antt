-- ===== src/Tunnel/Single.antt =====
-- The relay under every interleaving of its goroutines: which tunnel clients are still connected.
use valyrium.Base.{
  ==_iff, ==_refl, Bool, Bool-cases, List, Option, Option-cases, [], ap, arith, false, get_elem?,
  get_elem?-append_cases, if◌then◌else◌, inl, inr, none, not, refl, some, subst, suc, sym, true,
  zero, ℕ, ◌&&◌, ◌==◌, ◌∙◌, ◌∷◌, ◌≡◌, ◌⊎◌,
}
use valyrium.Wire.{Sink}
use valyrium.Mux.Conn.{Conn, close_conn, close_with_err, new_conn, relay}
use valyrium.Mux.Reach
use valyrium.Mux.Closed.{Step-closed}
use valyrium.Tunnel.Relay.{
  Relay, RelayConfig, authenticate, modify_mux, new_relay, registered, unregister,
}
use valyrium.Tunnel.Serving.{Serving, among, close_leaving, join, shut, with_leaving, without}

-- One critical section: a client whose AUTH frame was accepted is registered, a connection that was
-- replaced or taken by `Close` is closed, the goroutines of a connection do anything at all,
-- `serveTunnelClient` returns after the end of its connection, and `Close`.
pub data Step (w w' : Serving) : Type 0 where
  joins :
      (bs rest : List ℕ) (out out' : Sink)
      → authenticate w.host.cfg.token bs out ≡ (rest, (out', none))
      → w' ≡ join w out'
      → Step w w'
  closes : (q : ℕ) → among q w.leaving ≡ true → w' ≡ close_leaving w q → Step w w'
  moves :
      (i : ℕ) (c d : Conn)
      → get_elem? w.host.muxes i ≡ some c
      → Reach.Step c d
      → w' ≡ record w { host = record w.host { muxes = modify_mux i (λ _. d) w.host.muxes } }
      → Step w w'
  departs :
      (i : ℕ) (c : Conn)
      → get_elem? w.host.muxes i ≡ some c
      → c.closed ≡ true
      → w' ≡ record w { host = unregister w.host i }
      → Step w w'
  shuts : w' ≡ shut w → Step w w'

pub data Reaches (w : Serving) : Serving → Type 0 where
  start : Reaches w w
  also : {x y : Serving} → Step x y → Reaches w x → Reaches w y

-- Why a connection may still be open.
abbrev pub Accounted : Serving → ℕ → Conn → Type 0
Accounted w i c = (c.closed ≡ true) ⊎ ((w.host.tun ≡ some i) ⊎ (among i w.leaving ≡ true))

abbrev AllAccounted : Serving → Type 0
AllAccounted w = (i : ℕ) (c : Conn) → get_elem? w.host.muxes i ≡ some c → Accounted w i c

get_elem?-modify_mux :
    (q p : ℕ) (f : Conn → Conn) (cs : List Conn)
    → get_elem? (modify_mux q f cs) p
      ≡ (elim (get_elem? cs p) [ none ↦ none | some c ↦ some (if q == p then f c else c) ])
unfolding modify_mux
get_elem?-modify_mux q p f [] = refl
get_elem?-modify_mux zero zero f (c ∷ cs) = refl
get_elem?-modify_mux zero (suc p) f (c ∷ cs) = ground arith
get_elem?-modify_mux (suc q) zero f (c ∷ cs) = ground arith
get_elem?-modify_mux (suc q) (suc p) f (c ∷ cs) = ground (arith, get_elem?-modify_mux q p f cs)

among-without : (q i : ℕ) (ps : List ℕ) → among i (without q ps) ≡ (not (q == i) && among i ps)
unfolding among without
among-without q i [] = ground arith
among-without q i (p ∷ ps) =
    ground (arith, among-without q i ps, ==_iff p q, ==_iff q i, ==_iff p i)

among-with_leaving :
    (tun : Option ℕ) (i : ℕ) (qs : List ℕ)
    → (tun ≡ some i) ⊎ (among i qs ≡ true)
    → among i (with_leaving tun qs) ≡ true
unfolding among with_leaving
among-with_leaving none i qs (inl e) = cc
among-with_leaving none i qs (inr h) = h
among-with_leaving (some q) i qs (inl e) = ground (arith, ==_refl i)
among-with_leaving (some q) i qs (inr h) = ground arith

close_conn-closed : (c : Conn) → (close_conn c).closed ≡ true
unfolding close_conn close_with_err
close_conn-closed c = ground arith

join-AllAccounted : (w : Serving) (out : Sink) → AllAccounted w → AllAccounted (join w out)
unfolding join
join-AllAccounted w out all i c at =
    elim (get_elem?-append_cases w.host.muxes (new_conn out relay) i c at) [
      | inr (e, _) ↦ inr (inl (ap some (sym e)))
      | inl old ↦ elim (all i c old) [
        | inl closed ↦ inl closed
        | inr r ↦ inr (inr (among-with_leaving w.host.tun i w.leaving r))
      ]
    ]

either-AllAccounted :
    (b : Bool) (w w' : Serving)
    → AllAccounted w
    → AllAccounted w'
    → AllAccounted (if b then w else w')
either-AllAccounted true w w' h k = h
either-AllAccounted false w w' h k = k

shut-AllAccounted : (w : Serving) → AllAccounted w → AllAccounted (shut w)
unfolding shut
shut-AllAccounted w all = either-AllAccounted w.host.closed w _ all (λ i c at. elim (all i c at) [
  | inl closed ↦ inl closed
  | inr r ↦ inr (inr (among-with_leaving w.host.tun i w.leaving r))
])

-- An entry of the table after one of them was written.
modified :
    (q i : ℕ) (f : Conn → Conn) (cs : List Conn) (c : Conn)
    → get_elem? (modify_mux q f cs) i ≡ some c
    → (d : Conn) × (get_elem? cs i ≡ some d)
      × (((q ≡ i) × (c ≡ f d)) ⊎ ((q == i ≡ false) × (c ≡ d)))
modified q i f cs c at = elim (Option-cases (get_elem? cs i)) [
  | inl e ↦ absurd (ground (arith, get_elem?-modify_mux q i f cs))
  | inr (d, e) ↦ elim (Bool-cases (q == i)) [
    | inl here ↦ (d, e, inl ((==_iff q i).0 here, ground (arith, get_elem?-modify_mux q i f cs)))
    | inr there ↦ (d, e, inr (there, ground (arith, get_elem?-modify_mux q i f cs)))
  ]
]

close_leaving-AllAccounted :
    (w : Serving) (q : ℕ) → AllAccounted w → AllAccounted (close_leaving w q)
unfolding close_leaving
close_leaving-AllAccounted w q all i c at =
    let (d, was, changed) = modified q i close_conn w.host.muxes c at in
    elim changed [
      | inl (_, e) ↦ inl (ap (λ x. x.closed) e ∙ close_conn-closed d)
      | inr (other, e) ↦ elim (all i d was) [
        | inl closed ↦ inl (ap (λ x. x.closed) e ∙ closed)
        | inr (inl tun) ↦ inr (inl tun)
        | inr (inr waiting) ↦
            inr (inr (ground (arith, among-without q i w.leaving, other, waiting)))
      ]
    ]

moves-AllAccounted :
    (w : Serving) (k : ℕ) (x y : Conn)
    → get_elem? w.host.muxes k ≡ some x
    → Reach.Step x y
    → AllAccounted w
    → AllAccounted
        (record w { host = record w.host { muxes = modify_mux k (λ _. y) w.host.muxes } })
moves-AllAccounted w k x y was step all i c at =
    let (d, before, changed) = modified k i (λ _. y) w.host.muxes c at in
    elim changed [
      | inr (_, e) ↦ elim (all i d before) [
        | inl closed ↦ inl (ap (λ z. z.closed) e ∙ closed)
        | inr r ↦ inr r
      ]
      | inl (same, e) ↦
          let at' : get_elem? w.host.muxes i ≡ some x = ground (arith, same, was) in
          elim (all i x at') [
            | inl closed ↦ inl (ap (λ z. z.closed) e ∙ Step-closed x y step closed)
            | inr r ↦ inr r
          ]
    ]

unregister_keeps :
    (tun : Option ℕ) (k i : ℕ)
    → tun ≡ some i
    → k == i ≡ false
    → (if registered tun k then none else tun) ≡ some i
unfolding registered
unregister_keeps none k i e h = cc
unregister_keeps (some q) k i e h = ground (arith, ==_iff q k, ==_iff k i, e, h)

departs-AllAccounted :
    (w : Serving) (k : ℕ) (x : Conn)
    → get_elem? w.host.muxes k ≡ some x
    → x.closed ≡ true
    → AllAccounted w
    → AllAccounted (record w { host = unregister w.host k })
unfolding unregister
departs-AllAccounted w k x was ended all i c at = elim (Bool-cases (k == i)) [
  | inl same ↦ inl (ground (arith, (==_iff k i).0 same, was, at, ended))
  | inr other ↦ elim (all i c at) [
    | inl closed ↦ inl closed
    | inr (inl tun) ↦ inr (inl (unregister_keeps w.host.tun k i tun other))
    | inr (inr waiting) ↦ inr (inr waiting)
  ]
]

Step-AllAccounted : (w w' : Serving) → Step w w' → AllAccounted w → AllAccounted w'
Step-AllAccounted w w' (joins bs rest out out' passed e) all =
    subst AllAccounted (sym e) (join-AllAccounted w out' all)
Step-AllAccounted w w' (closes q h e) all =
    subst AllAccounted (sym e) (close_leaving-AllAccounted w q all)
Step-AllAccounted w w' (moves i c d at step e) all =
    subst AllAccounted (sym e) (moves-AllAccounted w i c d at step all)
Step-AllAccounted w w' (departs i c at ended e) all =
    subst AllAccounted (sym e) (departs-AllAccounted w i c at ended all)
Step-AllAccounted w w' (shuts e) all = subst AllAccounted (sym e) (shut-AllAccounted w all)

Reaches-AllAccounted : (w w' : Serving) → Reaches w w' → AllAccounted w → AllAccounted w'
Reaches-AllAccounted w w' start all = all
Reaches-AllAccounted w w' (also {x} step way) all =
    Step-AllAccounted x w' step (Reaches-AllAccounted w x way all)

-- A relay that `NewRelay` made, before anything happened.
abbrev pub fresh_relay : Relay → Serving
fresh_relay r = record { host = r; leaving = [] }

-- Whatever clients come and go, in whatever order the relay's goroutines run: a connection that some
-- client's AUTH frame opened is closed, or it is the registered one, or it was replaced by a later
-- client or taken by `Close` and its closing is due.
pub new_relay-Reaches :
    (cfg : RelayConfig) (r : Relay) (w : Serving) (i : ℕ) (c : Conn)
    → new_relay cfg ≡ some r
    → Reaches (fresh_relay r) w
    → get_elem? w.host.muxes i ≡ some c
    → Accounted w i c
unfolding new_relay
new_relay-Reaches cfg r w i c made way at =
    Reaches-AllAccounted (fresh_relay r) w way (λ j d here. absurd (ground (arith, here, made))) i c
      at
