-- ===== src/Session/Claim.antt =====
-- Claiming announced tool calls.
use valyrium.Base.{ℕ}
use valyrium.Session.Calls.{Session, mark_claimed, modify_call}

abbrev claimed_at : Session → ℕ → ℕ → Session
claimed_at s i now = record s {
  pending = modify_call i mark_claimed s.pending;
  last_activity = now;
}
