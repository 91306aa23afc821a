-- ===== src/Turn/Lifecycle.antt =====
-- internal/gateway/server.go: what `handleToolTurn` and `streamToolTurn` leave of the session.
use valyrium.Base.{
  Bool-cases, Option-cases, String, arith, false, inl, inr, lookup, lookup-delete, none, refl,
  text_iff, text_key, true, ℕ, ◌≡◌,
}
use valyrium.Turn.Finish.{finish_turn, parks, release_session}
use valyrium.Turn.Stream.{stream_tool_turn}
use valyrium.Turn.{Turn, TurnOutcome}
use valyrium.Session.{SessionManager, get_session, reap_session_locked, session_id_of}

pub reaped-lookup :
    (sm : SessionManager) (id : String) → get_session (reap_session_locked sm id) id ≡ none
unfolding reap_session_locked get_session
reaped-lookup sm id = elim (Option-cases (lookup id sm.sessions)) [
  | inl e ↦ rw (e, reap_session_locked) e
  | inr (p, e) ↦
      rw (e, reap_session_locked) (ground (arith, lookup-delete id id sm.sessions, text_iff id id))
]

module _ {ℓ} {Cost : Type ℓ} where
  parks-release_session :
      (sm : SessionManager) (sess : ℕ) (out : TurnOutcome Cost)
      → parks out ≡ true
      → release_session sm sess out ≡ sm
  unfolding parks release_session
  parks-release_session sm sess out h = elim (Option-cases out.err) [
    | inl e ↦ elim (Bool-cases out.final) [
      | inl f ↦ absurd (ground (arith, e, f, h))
      | inr f ↦ rw (e, release_session) (rw (f, release_session) refl)
    ]
    | inr (x, e) ↦ absurd (ground (arith, e, h))
  ]

  release_session-reaps :
      (sm : SessionManager) (sess : ℕ) (out : TurnOutcome Cost)
      → parks out ≡ false
      → release_session sm sess out ≡ reap_session_locked sm (session_id_of sm sess)
  unfolding parks release_session
  release_session-reaps sm sess out h = elim (Option-cases out.err) [
    | inl e ↦ elim (Bool-cases out.final) [
      | inl f ↦ rw (e, release_session) (rw (f, release_session) refl)
      | inr f ↦ absurd (ground (arith, e, f, h))
    ]
    | inr (x, e) ↦ rw (e, release_session) refl
  ]

  -- A turn that fails or that ends the run gives up its session, and a turn that hands tool calls to
  -- the client leaves the table as it is: streamed or not, and whatever it is that is answered.
  pub finish_turn-release_session :
      (sm : SessionManager) (sess : ℕ) (t : Turn Cost) (id model : String) (created : ℕ)
      → let out = t.outcome in
        let after = (finish_turn id created model sm sess out).0 in
        ((stream_tool_turn id created model sm sess t).0 ≡ after)
        × ((parks out ≡ true → after ≡ sm)
            × (parks out ≡ false → get_session after (session_id_of sm sess) ≡ none))
  unfolding finish_turn stream_tool_turn
  finish_turn-release_session sm sess t id model created = (
    refl,
    (
      parks-release_session sm sess t.outcome,
      λ h.
          rw (release_session-reaps sm sess t.outcome h) (reaped-lookup sm (session_id_of sm sess)),
    ),
  )
