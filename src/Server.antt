-- ===== src/Server.antt =====
-- internal/gateway/server.go: the `Semaphore` that bounds the runs of the assistant. The callers of
-- `Acquire` are pointers into `callers`, and `waiters` is the queue of the channels that they wait on.
mod Tests
pub mod Slots
pub mod Request
use valyrium.Base.{List, [], if◌then◌else◌, length, ltb, suc, zero, ℕ, ◌++◌, ◌+◌, ◌-◌, ◌∷◌}

-- Where a caller is: it holds a slot, it is in the queue but its goroutine is not yet in the select
-- of `Acquire`, it waits there, its context was cancelled, or it has released its slot.
pub data Status : Type 0 where
  holds queued receives cancelled released : Status

pub record Semaphore : Type 0 where
  pub available : ℕ
  pub waiters : List ℕ
  pub callers : List Status

-- `NewSemaphore`; a negative size is passed as 0.
unfoldable pub new_semaphore : ℕ → Semaphore
new_semaphore size = record {
  available = if ltb size 1 then 1 else size;
  waiters = [];
  callers = [];
}

-- `Acquire` up to its select, by a new caller.
unfoldable pub acquire : Semaphore → Semaphore
acquire s =
    if ltb 0 s.available
    then record s { available = s.available - 1; callers = s.callers ++ holds ∷ [] }
    else record s {
      waiters = s.waiters ++ length s.callers ∷ [];
      callers = s.callers ++ queued ∷ [];
    }

-- A caller whose goroutine moves on.
unfoldable pub advance : (Status → Status) → ℕ → List Status → List Status
advance f p [] = []
advance f zero (c ∷ cs) = f c ∷ cs
advance f (suc p) (c ∷ cs) = c ∷ advance f p cs

-- The goroutine of a queued caller comes to the select.
abbrev pub select : Status → Status
select queued = receives
select st = st

-- Its context is done: `Acquire` returns the context's error, and the channel stays in the queue.
abbrev pub cancel : Status → Status
cancel receives = cancelled
cancel st = st

-- The send of `Release`, which is dropped unless the caller is in its select.
abbrev pub wake : Status → Status
wake receives = holds
wake st = st

-- `Release`, by the queue.
unfoldable pub release_to : Semaphore → List ℕ → Semaphore
release_to s [] = record s { available = s.available + 1 }
release_to s (q ∷ qs) = record s { waiters = qs; callers = advance wake q s.callers }

unfoldable pub release : Semaphore → Semaphore
release s = release_to s s.waiters

-- A caller that holds a slot releases it.
abbrev pub let_go : Status → Status
let_go holds = released
let_go st = st

unfoldable pub give_back : Semaphore → ℕ → Semaphore
give_back s p = release (record s { callers = advance let_go p s.callers })
