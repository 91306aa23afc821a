-- ===== src/Cli/Ending.antt =====
-- Every run of `relaySessionStream` sends the event that ends it.
use valyrium.Base.{
  Bool, List, Option, Option-cases, String, [], arith, false, if◌then◌else◌, inl, inr, none, not,
  refl, some, true, ℕ, ◌&&◌, ◌++◌, ◌=t◌, ◌||◌, ◌∷◌, ◌≡◌,
}
use valyrium.Cli.{Block, Event, Message, Output, StreamLine}
use valyrium.Cli.Relay.{
  Relay, SessionEvent, emit, reasoning_event, relay_calls, relay_event, relay_finish, relay_line,
  relay_lines, relay_message, relay_other, relay_result, relay_session_stream, relay_stop,
  relay_uses, run_end, stop_event, text_event, tool_calls_event, tool_uses,
}
use valyrium.Session.{SessionManager}
use valyrium.Session.Calls.{Announced}

module _ {ℓ} {Cost : Type ℓ} where
  unfoldable pub is_end : SessionEvent Cost → Bool
  is_end (text_event s) = false
  is_end (reasoning_event s) = false
  is_end (stop_event r u) = false
  is_end (tool_calls_event m us) = false
  is_end (run_end t r u c e) = true

  -- Whether a run is ended by one of these events.
  unfoldable pub ends_run : List (SessionEvent Cost) → Bool
  ends_run [] = false
  ends_run (ev ∷ evs) = is_end ev || ends_run evs

  pub ends_run-append :
      (xs ys : List (SessionEvent Cost)) → ends_run (xs ++ ys) ≡ ends_run xs || ends_run ys
  unfolding ends_run
  ends_run-append [] ys = refl
  ends_run-append (x ∷ xs) ys = ground (arith, ends_run-append xs ys)

  last-ends_run :
      (xs : List (SessionEvent Cost)) (ev : SessionEvent Cost)
      → is_end ev ≡ true
      → ends_run (xs ++ ev ∷ []) ≡ true
  unfolding ends_run
  last-ends_run [] ev e = ground arith
  last-ends_run (x ∷ xs) ev e = ground (arith, last-ends_run xs ev e)

  -- A reader that saw a result has sent the end of the run.
  record IsEnding (r : Relay Cost) : Type 0 where
    ends : r.saw_result ≡ true → ends_run r.sent ≡ true

  emit-IsEnding : (r : Relay Cost) (ev : SessionEvent Cost) → IsEnding r → IsEnding (emit r ev)
  unfolding emit
  emit-IsEnding r ev h = record {
    ends = λ saw. ground (arith, h.ends saw, ends_run-append r.sent (ev ∷ []));
  }

  either-IsEnding :
      (b : Bool) (x y : Relay Cost) → IsEnding x → IsEnding y → IsEnding (if b then x else y)
  either-IsEnding true x y h k = h
  either-IsEnding false x y h k = k

  relay_other-IsEnding : (r : Relay Cost) (ev : Event) → IsEnding r → IsEnding (relay_other r ev)
  unfolding relay_other relay_stop
  relay_other-IsEnding r ev h =
      either-IsEnding (ev.type =t "message_delta") _ r (emit-IsEnding r _ h) h

  relay_event-IsEnding :
      (expose : Bool) (r : Relay Cost) (ev : Option Event)
      → IsEnding r
      → IsEnding (relay_event expose r ev)
  unfolding relay_event
  relay_event-IsEnding expose r none h = h
  relay_event-IsEnding expose r (some ev) h = elim (Option-cases ev.delta) [
    | inl e ↦ rw (e, relay_event) (relay_other-IsEnding r ev h)
    | inr (d, e) ↦
        rw (e, relay_event)
          (either-IsEnding
            (ev.type =t "content_block_delta" && (d.type =t "text_delta" && not (d.text =t ""))) _ _
            (emit-IsEnding r (text_event d.text) h)
            (either-IsEnding
              (expose
                && (ev.type =t "content_block_delta"
                    && (d.type =t "thinking_delta" && not (d.thinking =t ""))))
              _ _ (emit-IsEnding r (reasoning_event d.thinking) h) (relay_other-IsEnding r ev h)))
  ]

  relay_calls-IsEnding :
      (r : Relay Cost) (model : String) (us : List Announced)
      → IsEnding r
      → IsEnding (relay_calls r model us)
  unfolding relay_calls
  relay_calls-IsEnding r model [] h = either-IsEnding (model =t "") _ _ h (emit-IsEnding r _ h)
  relay_calls-IsEnding r model (u ∷ us) h = emit-IsEnding r _ h

  relay_uses-IsEnding :
      (mint : ℕ → String) (canonical : String → String) (sess now : ℕ) (r : Relay Cost)
      (model : String) (bs : List Block)
      → IsEnding r
      → IsEnding (relay_uses mint canonical sess now r model bs)
  unfolding relay_uses
  relay_uses-IsEnding mint canonical sess now r model [] h = relay_calls-IsEnding r model [] h
  relay_uses-IsEnding mint canonical sess now r model (b ∷ bs) h =
      relay_calls-IsEnding _ model _ (record { ends = h.ends })

  relay_message-IsEnding :
      (mint : ℕ → String) (canonical : String → String) (sess now : ℕ) (r : Relay Cost)
      (m : Option Message)
      → IsEnding r
      → IsEnding (relay_message mint canonical sess now r m)
  unfolding relay_message
  relay_message-IsEnding mint canonical sess now r none h = h
  relay_message-IsEnding mint canonical sess now r (some m) h =
      relay_uses-IsEnding mint canonical sess now r m.model (tool_uses m.content) h

  relay_result-IsEnding : (r : Relay Cost) (l : StreamLine Cost) → IsEnding (relay_result r l)
  unfolding relay_result emit is_end
  relay_result-IsEnding r l = record { ends = λ saw. last-ends_run r.sent _ refl }

  relay_line-IsEnding :
      (mint : ℕ → String) (canonical : String → String) (expose : Bool) (sess : ℕ) (r : Relay Cost)
      (now : ℕ) (l : StreamLine Cost)
      → IsEnding r
      → IsEnding (relay_line mint canonical expose sess r now l)
  unfolding relay_line
  relay_line-IsEnding mint canonical expose sess r now l h =
      either-IsEnding (l.type =t "stream_event") _ _ (relay_event-IsEnding expose r l.event h) (
        either-IsEnding (l.type =t "assistant") _ _
          (relay_message-IsEnding mint canonical sess now r l.message h)
          (either-IsEnding (l.type =t "result") _ _ (relay_result-IsEnding r l) h))

  relay_lines-IsEnding :
      (mint : ℕ → String) (canonical : String → String) (expose : Bool) (sess : ℕ) (r : Relay Cost)
      (os : List ((SessionManager → SessionManager) × Output Cost))
      → IsEnding r
      → IsEnding (relay_lines mint canonical expose sess r os)
  unfolding relay_lines
  relay_lines-IsEnding mint canonical expose sess r [] h = h
  relay_lines-IsEnding mint canonical expose sess r ((others, o) ∷ os) h =
      let r' = record r { sm = others r.sm } in
      let h' : IsEnding r' = record { ends = h.ends } in
      elim (Option-cases o.parsed) [
        | inl e ↦ rw (e, relay_lines) (relay_lines-IsEnding mint canonical expose sess r' os h')
        | inr (l, e) ↦
            rw (e, relay_lines)
              (relay_lines-IsEnding mint canonical expose sess
                (relay_line mint canonical expose sess r' o.at l) os
                (relay_line-IsEnding mint canonical expose sess r' o.at l h'))
      ]

  either-ends_run :
      (b : Bool) (x y : Relay Cost)
      → (b ≡ true → ends_run x.sent ≡ true)
      → ends_run y.sent ≡ true
      → ends_run (if b then x else y).sent ≡ true
  either-ends_run true x y h k = h refl
  either-ends_run false x y h k = k

  relay_finish-ends_run : (r : Relay Cost) → IsEnding r → ends_run (relay_finish r).sent ≡ true
  unfolding relay_finish emit is_end
  relay_finish-ends_run r h = either-ends_run r.saw_result r _ h.ends (last-ends_run r.sent _ refl)

  -- Whatever the CLI prints, and however it exits, the events of a session contain one that ends
  -- the run before the channel is closed.
  pub relay_session_stream-ends_run :
      (mint : ℕ → String) (canonical : String → String) (expose : Bool) (sess : ℕ)
      (sm : SessionManager) (os : List ((SessionManager → SessionManager) × Output Cost))
      → ends_run (relay_session_stream mint canonical expose sess sm os).sent ≡ true
  unfolding relay_session_stream
  relay_session_stream-ends_run mint canonical expose sess sm os =
      relay_finish-ends_run _
        (relay_lines-IsEnding mint canonical expose sess _ _ (record { ends = λ e. cc e }))
