-- ===== src/Server/Slots.antt =====
-- How many slots there are: free ones and held ones.
use valyrium.Base.{
  Bool-cases, List, Option, Option-cases, [], arith, get_elem?, inl, inr, ltb, none, refl, some,
  suc, zero, ℕ, ◌++◌, ◌+◌, ◌∷◌, ◌≡◌,
}
use valyrium.Server.{
  Semaphore, Status, acquire, advance, cancel, cancelled, give_back, holds, let_go, queued,
  receives, release, release_to, released, select, wake,
}

unfoldable pub holders : List Status → ℕ
holders [] = 0
holders (holds ∷ cs) = suc (holders cs)
holders (queued ∷ cs) = holders cs
holders (receives ∷ cs) = holders cs
holders (cancelled ∷ cs) = holders cs
holders (released ∷ cs) = holders cs

abbrev pub slots : Semaphore → ℕ
slots s = s.available + holders s.callers

-- Whether the caller at the front of the queue misses the send.
abbrev pub deaf : Option Status → ℕ
deaf none = 1
deaf (some holds) = 1
deaf (some queued) = 1
deaf (some receives) = 0
deaf (some cancelled) = 1
deaf (some released) = 1

abbrev pub lost : List ℕ → List Status → ℕ
lost [] cs = 0
lost (q ∷ qs) cs = deaf (get_elem? cs q)

holders-append : (cs ds : List Status) → holders (cs ++ ds) ≡ holders cs + holders ds
unfolding holders
holders-append [] ds = omega arith
holders-append (holds ∷ cs) ds = omega (arith, holders-append cs ds)
holders-append (queued ∷ cs) ds = holders-append cs ds
holders-append (receives ∷ cs) ds = holders-append cs ds
holders-append (cancelled ∷ cs) ds = holders-append cs ds
holders-append (released ∷ cs) ds = holders-append cs ds

-- What one step of one caller does to the number of holders.
abbrev one : Status → ℕ
one st = holders (st ∷ [])

holders-cons : (st : Status) (cs : List Status) → holders (st ∷ cs) ≡ one st + holders cs
holders-cons st cs = holders-append (st ∷ []) cs

holders-advance :
    (f : Status → Status) (p : ℕ) (cs : List Status) (st : Status)
    → get_elem? cs p ≡ some st
    → holders (advance f p cs) + one st ≡ holders cs + one (f st)
unfolding advance
holders-advance f p [] st h = cc
holders-advance f zero (c ∷ cs) st h =
    let e : c ≡ st = ground arith in
    rw e (omega (arith, holders-cons (f st) cs, holders-cons st cs))
holders-advance f (suc p) (c ∷ cs) st h =
    omega (arith, holders-advance f p cs st h, holders-cons c (advance f p cs), holders-cons c cs)

holders-advance-none :
    (f : Status → Status) (p : ℕ) (cs : List Status)
    → get_elem? cs p ≡ none
    → holders (advance f p cs) ≡ holders cs
unfolding advance
holders-advance-none f p [] h = refl
holders-advance-none f zero (c ∷ cs) h = cc
holders-advance-none f (suc p) (c ∷ cs) h =
    omega (arith, holders-advance-none f p cs h, holders-cons c (advance f p cs), holders-cons c cs)

holders-advance_same :
    (f : Status → Status) (p : ℕ) (cs : List Status)
    → ((st : Status) → one (f st) ≡ one st)
    → holders (advance f p cs) ≡ holders cs
holders-advance_same f p cs same = elim (Option-cases (get_elem? cs p)) [
  | inl e ↦ holders-advance-none f p cs e
  | inr (st, e) ↦ omega (arith, holders-advance f p cs st e, same st)
]

one-select : (st : Status) → one (select st) ≡ one st
unfolding holders
one-select holds = refl
one-select queued = refl
one-select receives = refl
one-select cancelled = refl
one-select released = refl

one-cancel : (st : Status) → one (cancel st) ≡ one st
unfolding holders
one-cancel holds = refl
one-cancel queued = refl
one-cancel receives = refl
one-cancel cancelled = refl
one-cancel released = refl

one-wake : (st : Status) → one (wake st) + deaf (some st) ≡ one st + 1
unfolding holders
one-wake holds = refl
one-wake queued = refl
one-wake receives = refl
one-wake cancelled = refl
one-wake released = refl

one_holds : one holds ≡ 1
unfolding holders
one_holds = refl

one_queued : one queued ≡ 0
unfolding holders
one_queued = refl

one_released : one released ≡ 0
unfolding holders
one_released = refl

slots-release_to :
    (s : Semaphore) (ws : List ℕ) → slots (release_to s ws) + lost ws s.callers ≡ slots s + 1
unfolding release_to
slots-release_to s [] = omega arith
slots-release_to s (q ∷ qs) = elim (Option-cases (get_elem? s.callers q)) [
  | inl at ↦ rw at (omega (arith, holders-advance-none wake q s.callers at))
  | inr (st, at) ↦ rw at (omega (arith, holders-advance wake q s.callers st at, one-wake st))
]

-- A slot that its holder releases is not lost if nobody is queued or the first one in the queue is
-- in the select of `Acquire`. If that caller has given up, or has not come to its select yet,
-- there is one slot less from then on: neither free nor held, and in nobody's reach.
pub slots-give_back :
    (s : Semaphore) (p : ℕ)
    → get_elem? s.callers p ≡ some holds
    → slots (give_back s p) + lost s.waiters (advance let_go p s.callers) ≡ slots s
unfolding give_back release
slots-give_back s p at = omega (
  arith,
  slots-release_to (record s { callers = advance let_go p s.callers }) s.waiters,
  holders-advance let_go p s.callers holds at,
  one_holds,
  one_released,
)

-- No other step changes the number of slots: not `Acquire`, with a free slot or without, nor a
-- caller that comes to its select or gives up there.
pub slots-acquire :
    (s : Semaphore) (p : ℕ)
    → (slots (acquire s) ≡ slots s)
      × (slots (record s { callers = advance select p s.callers }) ≡ slots s)
      × (slots (record s { callers = advance cancel p s.callers }) ≡ slots s)
unfolding acquire
slots-acquire s p = (
  acquired,
  omega (arith, holders-advance_same select p s.callers one-select),
  omega (arith, holders-advance_same cancel p s.callers one-cancel),
)
  where
    acquired : slots (acquire s) ≡ slots s
    acquired = elim (Bool-cases (ltb 0 s.available)) [
      | inl free ↦
          rw (free, acquire)
            (ground (arith, free, holders-append s.callers (holds ∷ []), one_holds))
      | inr none_free ↦
          rw (none_free, acquire)
            (omega (arith, holders-append s.callers (queued ∷ []), one_queued))
    ]
