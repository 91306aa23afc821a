-- ===== src/Mcp/Polling.antt =====
-- internal/gateway/mcpserver.go: the loop of `handleMCPToolsCall`.
use valyrium.Base.{
  Bool, Bool-cases, List, Option-cases, String, [], arith, false, inl, inr, ltb, refl, true, ℕ,
  ◌||◌, ◌∷◌, ◌≡◌,
}
use valyrium.Session.{SessionManager, claim_on}
use valyrium.Mcp.{Polled, found, missed, poll_claim, polling}

unfoldable pub is_polling : Polled → Bool
is_polling polling = true
is_polling missed = false
is_polling (found i) = false

-- Whether a round comes after the deadline.
unfoldable pub has_late : ℕ → List ((SessionManager → SessionManager) × ℕ) → Bool
has_late deadline [] = false
has_late deadline ((others, now) ∷ rounds) = ltb deadline now || has_late deadline rounds

-- The loop comes to an end: at the latest in the first round after the deadline, whatever others do
-- to the table in between.
pub poll_claim-ends :
    (sm : SessionManager) (sess : ℕ) (name canon_args : String) (deadline : ℕ)
    (rounds : List ((SessionManager → SessionManager) × ℕ))
    → has_late deadline rounds ≡ true
    → is_polling (poll_claim sm sess name canon_args deadline rounds).1 ≡ false
unfolding poll_claim has_late is_polling
poll_claim-ends sm sess name canon_args deadline [] h = absurd (cc h)
poll_claim-ends sm sess name canon_args deadline ((others, now) ∷ rounds) h =
    elim (Option-cases (claim_on (others sm) sess name canon_args now).1) [
      | inr (i, e) ↦ rw (e, poll_claim) refl
      | inl e ↦ elim (Bool-cases (ltb deadline now)) [
        | inl late ↦ rw (e, poll_claim) (rw (late, poll_claim) refl)
        | inr early ↦
            rw (e, poll_claim)
              (rw (early, poll_claim)
                (poll_claim-ends (claim_on (others sm) sess name canon_args now).0 sess name
                  canon_args deadline rounds (ground (arith, h, early))))
      ]
    ]
