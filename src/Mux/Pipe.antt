-- ===== src/Mux/Pipe.antt =====
-- internal/tunnel/mux.go: `pipe`, with its two goroutines. What `io.Copy` does in between is outside: a copy
-- ends, whenever it does.
use valyrium.Base.{
  Bool, List, [], ap, arith, false, if◌then◌else◌, refl, suc, true, zero, ℕ, ◌+◌, ◌∙◌, ◌∷◌, ◌≡◌,
}

-- How far `pipe` is: it waits for the first copy, it closed both ends and waits for the second, or it
-- returned.
pub data Phase : Type 0 where
  waiting tearing_down returned : Phase

-- Whether each copy runs, the signals in `done`, and whether the ends are closed.
pub record Pipe : Type 0 where
  pub to_a : Bool
  pub to_b : Bool
  pub signals : ℕ
  pub phase : Phase
  pub a_closed : Bool
  pub b_closed : Bool

unfoldable pub new_pipe : Pipe
new_pipe = record {
  to_a = true;
  to_b = true;
  signals = 0;
  phase = waiting;
  a_closed = false;
  b_closed = false;
}

pub data PipeEvent : Type 0 where
  copy_to_a_ends copy_to_b_ends proceeds : PipeEvent

-- The rest of `pipe` after a signal is taken out of `done`.
unfoldable pub take_signal : Pipe → ℕ → Phase → Pipe
take_signal p zero phase = p
take_signal p (suc n) waiting = record p {
  signals = n;
  phase = tearing_down;
  a_closed = true;
  b_closed = true;
}
take_signal p (suc n) tearing_down = record p { signals = n; phase = returned }
take_signal p (suc n) returned = p

unfoldable pub pipe_event : Pipe → PipeEvent → Pipe
pipe_event p copy_to_a_ends =
    if p.to_a then record p { to_a = false; signals = suc p.signals } else p
pipe_event p copy_to_b_ends =
    if p.to_b then record p { to_b = false; signals = suc p.signals } else p
pipe_event p proceeds = take_signal p p.signals p.phase

unfoldable pub pipe : Pipe → List PipeEvent → Pipe
pipe p [] = p
pipe p (e ∷ es) = pipe (pipe_event p e) es

abbrev running : Bool → ℕ
running true = 1
running false = 0

abbrev took : Phase → ℕ
took waiting = 0
took tearing_down = 1
took returned = 2

abbrev begun : Phase → Bool
begun waiting = false
begun tearing_down = true
begun returned = true

-- Each copy runs, or its signal waits, or it was taken; the ends are closed from the first on.
record IsBalanced (p : Pipe) : Type 0 where
  count : running p.to_a + running p.to_b + p.signals + took p.phase ≡ 2
  a_torn : p.a_closed ≡ begun p.phase
  b_torn : p.b_closed ≡ begun p.phase

take_signal-IsBalanced :
    (p : Pipe) (n : ℕ) (phase : Phase)
    → p.signals ≡ n
    → p.phase ≡ phase
    → IsBalanced p
    → IsBalanced (take_signal p n phase)
unfolding take_signal
take_signal-IsBalanced p zero phase e f v = v
take_signal-IsBalanced p (suc n) waiting e f v = record {
  count = omega (arith, v.count, e, ap took f);
  a_torn = refl;
  b_torn = refl;
}
take_signal-IsBalanced p (suc n) tearing_down e f v = record {
  count = omega (arith, v.count, e, ap took f);
  a_torn = v.a_torn ∙ ap begun f;
  b_torn = v.b_torn ∙ ap begun f;
}
take_signal-IsBalanced p (suc n) returned e f v = v

either-IsBalanced :
    (b : Bool) (p q : Pipe)
    → (b ≡ true → IsBalanced p)
    → IsBalanced q
    → IsBalanced (if b then p else q)
either-IsBalanced true p q h v = h refl
either-IsBalanced false p q h v = v

pipe_event-IsBalanced : (p : Pipe) (e : PipeEvent) → IsBalanced p → IsBalanced (pipe_event p e)
unfolding pipe_event
pipe_event-IsBalanced p proceeds v = take_signal-IsBalanced p p.signals p.phase refl refl v
pipe_event-IsBalanced p copy_to_a_ends v =
    either-IsBalanced p.to_a _ p
      (λ h. record {
        count = omega (arith, v.count, ap running h);
        a_torn = v.a_torn;
        b_torn = v.b_torn;
      })
      v
pipe_event-IsBalanced p copy_to_b_ends v =
    either-IsBalanced p.to_b _ p
      (λ h. record {
        count = omega (arith, v.count, ap running h);
        a_torn = v.a_torn;
        b_torn = v.b_torn;
      })
      v

pipe-IsBalanced : (p : Pipe) (es : List PipeEvent) → IsBalanced p → IsBalanced (pipe p es)
unfolding pipe
pipe-IsBalanced p [] v = v
pipe-IsBalanced p (e ∷ es) v = pipe-IsBalanced (pipe_event p e) es (pipe_event-IsBalanced p e v)

new_pipe-IsBalanced : IsBalanced new_pipe
unfolding new_pipe
new_pipe-IsBalanced = record { count = refl; a_torn = refl; b_torn = refl }

running-false : (b : Bool) → running b ≡ 0 → b ≡ false
running-false true h = absurd (omega (arith, h))
running-false false h = refl

-- Two more rounds of a `pipe` whose copies both ended.
twice-returned :
    (p : Pipe) (n : ℕ) (phase : Phase)
    → p.signals ≡ n
    → p.phase ≡ phase
    → n + took phase ≡ 2
    → let q = take_signal p n phase in (take_signal q q.signals q.phase).phase ≡ returned
unfolding take_signal
twice-returned p zero waiting e f h = absurd (omega (arith, h))
twice-returned p (suc zero) waiting e f h = absurd (omega (arith, h))
twice-returned p (suc (suc zero)) waiting e f h = refl
twice-returned p (suc (suc (suc n))) waiting e f h = absurd (omega (arith, h))
twice-returned p zero tearing_down e f h = absurd (omega (arith, h))
twice-returned p (suc zero) tearing_down e f h = refl
twice-returned p (suc (suc n)) tearing_down e f h = absurd (omega (arith, h))
twice-returned p zero returned e f h = rw (e, take_signal) f
twice-returned p (suc n) returned e f h = absurd (omega (arith, h))

-- Whatever the order in which the copies end and `pipe` goes on: once it returned, both copies ended
-- and both ends are closed.
pipe_returned :
    (es : List PipeEvent)
    → (pipe new_pipe es).phase ≡ returned
    → let p = pipe new_pipe es in
      (p.to_a ≡ false) × (p.to_b ≡ false) × (p.a_closed ≡ true) × (p.b_closed ≡ true)
pipe_returned es h =
    let p : Pipe = pipe new_pipe es in
    let v : IsBalanced p = pipe-IsBalanced new_pipe es new_pipe-IsBalanced in
    (
      running-false p.to_a (omega (arith, v.count, ap took h)),
      running-false p.to_b (omega (arith, v.count, ap took h)),
      v.a_torn ∙ ap begun h,
      v.b_torn ∙ ap begun h,
    )

-- And where both copies ended, at most two rounds are left until it returns.
pipe_returns :
    (es : List PipeEvent)
    → (pipe new_pipe es).to_a ≡ false
    → (pipe new_pipe es).to_b ≡ false
    → (pipe (pipe new_pipe es) (proceeds ∷ proceeds ∷ [])).phase ≡ returned
unfolding pipe_event
pipe_returns es h h' =
    let p : Pipe = pipe new_pipe es in
    let v : IsBalanced p = pipe-IsBalanced new_pipe es new_pipe-IsBalanced in
    unfold pipe in
    twice-returned p p.signals p.phase refl refl
      (omega (arith, v.count, ap running h, ap running h'))
