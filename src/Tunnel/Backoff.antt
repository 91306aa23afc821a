-- ===== src/Tunnel/Backoff.antt =====
-- The waits of `Run`.
use valyrium.Base.{
  All, Bool, List, [], arith, false, get_elem?, if◌then◌else◌, inl, inr, length, ltb, some, subst,
  suc, true, zero, ℕ, ◌*◌, ◌+◌, ◌<◌, ◌==◌, ◌=t◌, ◌^◌, ◌∷◌, ◌≡◌, ◌≤◌,
}
use valyrium.Tunnel.Client.{
  ConfigError, TunnelConfig, default_max_backoff, default_min_backoff, is_negative, new_tunnel,
  next_backoff, no_relay_addr, no_token, or_default_duration, run, run_from, this_wait,
}

abbrev pub lesser : ℕ → ℕ → ℕ
lesser a b = if ltb a b then a else b

abbrev pub greater : ℕ → ℕ → ℕ
greater a b = if ltb a b then b else a

-- A positive duration between two others, in either order.
abbrev pub Between : ℕ → ℕ → ℕ → Type 0
Between a b w = (0 < w) × (lesser a b ≤ w) × (w ≤ greater a b)

-- Durations whose double is no overflow.
abbrev pub IsShort : ℕ → Type 0
IsShort d = (0 < d) × (d < 2 ^ 62)

run_from-Between :
    (cfg : TunnelConfig) (b : ℕ) (lasted : List ℕ)
    → IsShort cfg.min_backoff
    → IsShort cfg.max_backoff
    → Between cfg.min_backoff cfg.max_backoff b
    → All (Between cfg.min_backoff cfg.max_backoff) (run_from cfg b lasted)
unfolding run_from
run_from-Between cfg b [] s t h = tt
run_from-Between cfg b (l ∷ lasted) s t h =
    let w : Between cfg.min_backoff cfg.max_backoff (this_wait cfg b l) =
      unfold this_wait in (ground (arith, s, h), ground (arith, s, h), ground (arith, s, h)) in
    (
      w,
      run_from-Between cfg (next_backoff cfg (this_wait cfg b l)) lasted s t (
          unfold next_backoff is_negative in
          (ground (arith, s, t, w), ground (arith, s, t, w), ground (arith, s, t, w))),
    )

positive : (d fallback : ℕ) → 0 < fallback → 0 < or_default_duration d fallback
unfolding or_default_duration is_negative
positive d fallback h = ground (arith, h)

either-config :
    (a b : Bool) (e e' : ConfigError) (made cfg : TunnelConfig)
    → ((if a then inl e else if b then inl e' else inr made) ≡ inr cfg)
    → made ≡ cfg
either-config true b e e' made cfg h = absurd (cc h)
either-config false true e e' made cfg h = absurd (cc h)
either-config false false e e' made cfg h = cc h

-- What `NewTunnel` makes of a configuration has positive backoffs.
new_tunnel-positive :
    (given cfg : TunnelConfig)
    → new_tunnel given ≡ inr cfg
    → (0 < cfg.min_backoff) × (0 < cfg.max_backoff)
unfolding new_tunnel
new_tunnel-positive given cfg h =
    subst (λ k. (0 < k.min_backoff) × (0 < k.max_backoff))
      (either-config (given.relay_addr =t "") (length given.token == 0) no_relay_addr no_token _ cfg
        h)
      (
        positive given.min_backoff default_min_backoff (omega arith),
        positive given.max_backoff default_max_backoff (omega arith),
      )

-- Whatever the connections of a client that `NewTunnel` made do: no wait before it dials again is
-- shorter than the lesser of its two backoffs, which is positive, and none longer than the greater.
-- Both are to be below 2 ^ 62 nanoseconds, which are 146 years.
pub run-Between :
    (given cfg : TunnelConfig) (lasted : List ℕ)
    → new_tunnel given ≡ inr cfg
    → cfg.min_backoff < 2 ^ 62
    → cfg.max_backoff < 2 ^ 62
    → All (Between cfg.min_backoff cfg.max_backoff) (run cfg lasted)
unfolding run
run-Between given cfg lasted made s t =
    let (a, b) = new_tunnel-positive given cfg made in
    run_from-Between cfg cfg.min_backoff lasted (a, s) (b, t) (a, ground arith, ground arith)

unfoldable pub doubled : ℕ → ℕ → ℕ
doubled zero m = m
doubled (suc k) m = doubled k m * 2

run_from_nth :
    (cfg : TunnelConfig) (b k n t w : ℕ) (lasted : List ℕ)
    → cfg.max_backoff < 2 ^ 62
    → All (λ l. l ≤ cfg.max_backoff) lasted
    → b ≡ lesser cfg.max_backoff (doubled k cfg.min_backoff)
    → t ≡ n + k
    → get_elem? (run_from cfg b lasted) n ≡ some w
    → w ≡ lesser cfg.max_backoff (doubled t cfg.min_backoff)
unfolding run_from
run_from_nth cfg b k n t w [] small short e s h = cc
run_from_nth cfg b k zero t w (l ∷ lasted) small short e s h =
    let same : t ≡ k = omega (arith, s) in
    let wait : this_wait cfg b l ≡ b = unfold this_wait in ground (arith, short.0) in
    rw same (ground (arith, wait, e))
run_from_nth cfg b k (suc n) t w (l ∷ lasted) small short e s h =
    let wait : this_wait cfg b l ≡ b = unfold this_wait in ground (arith, short.0) in
    run_from_nth cfg (next_backoff cfg (this_wait cfg b l)) (suc k) n t w lasted small short.1
      (rw wait (unfold next_backoff is_negative doubled in ground (arith, e, small)))
      (omega (arith, s)) h

-- While no connection lasts longer than the greatest backoff, the waits double from the least one
-- on until they reach the greatest, and stay there.
run_doubles :
    (cfg : TunnelConfig) (lasted : List ℕ) (n w : ℕ)
    → cfg.min_backoff ≤ cfg.max_backoff
    → cfg.max_backoff < 2 ^ 62
    → All (λ l. l ≤ cfg.max_backoff) lasted
    → get_elem? (run cfg lasted) n ≡ some w
    → w ≡ lesser cfg.max_backoff (doubled n cfg.min_backoff)
unfolding run
run_doubles cfg lasted n w le small short h =
    run_from_nth cfg cfg.min_backoff 0 n n w lasted small short
      (unfold doubled in ground (arith, le)) (omega arith) h
