-- ===== src/Server/Tests.antt =====
-- The theorems on the semaphore at one slot and two callers, and on requests.
use valyrium.Server.Request.{ReasoningSpec}
use valyrium.Base.{[], false, refl, some, ◌+◌, ◌∷◌, ◌≡◌}
use valyrium.Server.{
  Semaphore, acquire, advance, cancel, cancelled, give_back, holds, let_go, new_semaphore, release,
  release_to, select,
}
use valyrium.Server.Slots.{holders, lost, slots, slots-give_back}

-- The first caller holds the slot, and the second one gave up waiting for it.
abbrev gave_up : Semaphore
gave_up = record { available = 0; waiters = 1 ∷ []; callers = holds ∷ cancelled ∷ [] }

gave_up-run :
    let s = acquire (acquire (new_semaphore 1)) in
    record s { callers = advance cancel 1 (advance select 1 s.callers) } ≡ gave_up
unfolding acquire new_semaphore advance
gave_up-run = refl

-- The slot is gone.
gave_up-slots : slots (give_back gave_up 0) ≡ 0
unfolding give_back release release_to advance holders
gave_up-slots = refl

slots-give_back_example :
    slots (give_back gave_up 0) + lost (1 ∷ []) (advance let_go 0 gave_up.callers) ≡ slots gave_up
slots-give_back_example = slots-give_back gave_up 0 refl

abbrev off : ReasoningSpec
off = record { enabled = some false; effort = "high" }
