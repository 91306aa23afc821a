-- ===== src/Turn/Streaming.antt =====
-- internal/gateway/server.go: what the callbacks of `collectTurn` have written, against its outcome.
use valyrium.Base.{
  Bool-cases, List, Option, String, [], ap₂, false, if◌then◌else◌, inl, inr, none, refl, some,
  subst, sym, true, ◌+t◌, ◌∙◌, ◌∷◌, ◌≡◌,
}
use valyrium.Cli.Pieces.{
  or_pieces, reasoning_pieces, reasoning_pieces-append, text_pieces, text_pieces-append,
}
use valyrium.Cli.{CliError, disconnected, stream_ended, timed_out}
use valyrium.Turn.Collect.{collect_from-done, collect_from-more}
use valyrium.Cli.Relay.{
  SessionEvent, reasoning_event, run_end, stop_event, text_event, tool_calls_event,
}
use valyrium.Turn.{
  Arrival, Turn, collect_event, collect_from, collect_turn, context_done, ended, event,
  events_closed, failed, new_turn, timeout, turn_done,
}
use text.Mathlib.TextLemmas.{append-nil as append_nothing}

-- The text that the end of the run brings with it: the first end that a queue has, unless it failed.
unfoldable pub brought {ℓ} : {Cost : Type ℓ} → List (Arrival Cost) → Option String
brought [] = none
brought (event (text_event s) ∷ queue) = brought queue
brought (event (reasoning_event s) ∷ queue) = brought queue
brought (event (tool_calls_event m us) ∷ queue) = brought queue
brought (event (stop_event r u) ∷ queue) = brought queue
brought (event (run_end result r u c (some e)) ∷ queue) = none
brought (event (run_end result r u c none) ∷ queue) = result
brought (events_closed ∷ queue) = none
brought (timeout ∷ queue) = none
brought (context_done ∷ queue) = none

ended-text :
    (result : Option String) (text pieces : String)
    → pieces ≡ text
    → (elim result [ none ↦ text | some s ↦ s ]) ≡ or_pieces result pieces
ended-text none text pieces e = sym e
ended-text (some s) text pieces e = refl

module _ {ℓ} {Cost : Type ℓ} where
  -- A turn that goes on: what was written is what was gathered.
  record IsOpen (t : Turn Cost) : Type 0 where
    ongoing : t.outcome.final ≡ false
    streamed : text_pieces t.callbacks ≡ t.outcome.text
    reasoned : reasoning_pieces t.callbacks ≡ t.outcome.reasoning_text

  -- What was written against the outcome, with the text that the end brought.
  abbrev Told : Option String → Turn Cost → Type 0
  Told b t =
      (reasoning_pieces t.callbacks ≡ t.outcome.reasoning_text)
      × (t.outcome.text ≡ (
          if t.outcome.final
          then or_pieces b (text_pieces t.callbacks)
          else text_pieces t.callbacks))

  AllTold : Option String → Option (Turn Cost × List (Arrival Cost)) → Type 0
  AllTold b none = Unit
  AllTold b (some (t, rest)) = Told b t

  IsOpen-Told : (b : Option String) (t : Turn Cost) → IsOpen t → Told b t
  IsOpen-Told b t v = (v.reasoned, rw v.ongoing (sym v.streamed))

  failed-IsOpen : (t : Turn Cost) (e : CliError) → IsOpen t → IsOpen (failed t e)
  unfolding failed
  failed-IsOpen t e v = record { ongoing = v.ongoing; streamed = v.streamed; reasoned = v.reasoned }

  text_event-IsOpen :
      (t : Turn Cost) (s : String) → IsOpen t → IsOpen (collect_event t (text_event s))
  unfolding collect_event text_pieces reasoning_pieces
  text_event-IsOpen t s v = record {
    ongoing = v.ongoing;
    streamed = text_pieces-append t.callbacks _ ∙ ap₂ (◌+t◌) v.streamed (append_nothing s);
    reasoned = reasoning_pieces-append t.callbacks _ ∙ append_nothing _ ∙ v.reasoned;
  }

  reasoning_event-IsOpen :
      (t : Turn Cost) (s : String) → IsOpen t → IsOpen (collect_event t (reasoning_event s))
  unfolding collect_event text_pieces reasoning_pieces
  reasoning_event-IsOpen t s v = record {
    ongoing = v.ongoing;
    streamed = text_pieces-append t.callbacks _ ∙ append_nothing _ ∙ v.streamed;
    reasoned = reasoning_pieces-append t.callbacks _ ∙ ap₂ (◌+t◌) v.reasoned (append_nothing s);
  }

  -- The loop after an event that does not end the run.
  after_event :
      (b : Option String) (t : Turn Cost) (ev : SessionEvent Cost) (queue : List (Arrival Cost))
      → IsOpen (collect_event t ev)
      → AllTold b (collect_from (collect_event t ev) queue)
      → AllTold b (collect_from t (event ev ∷ queue))
  unfolding AllTold
  after_event b t ev queue v later = elim (Bool-cases (turn_done (collect_event t ev))) [
    | inl finished ↦
        subst (AllTold b) (sym (collect_from-done t ev queue finished))
          (IsOpen-Told b (collect_event t ev) v)
    | inr more ↦ subst (AllTold b) (sym (collect_from-more t ev queue more)) later
  ]

  -- The loop after one that does.
  after_end :
      (b : Option String) (t : Turn Cost) (ev : SessionEvent Cost) (queue : List (Arrival Cost))
      → turn_done (collect_event t ev) ≡ true
      → Told b (collect_event t ev)
      → AllTold b (collect_from t (event ev ∷ queue))
  unfolding AllTold
  after_end b t ev queue finished told =
      subst (AllTold b) (sym (collect_from-done t ev queue finished)) told

  collect_from-AllTold :
      (t : Turn Cost) (queue : List (Arrival Cost))
      → IsOpen t
      → AllTold (brought queue) (collect_from t queue)
  unfolding collect_from brought AllTold
  collect_from-AllTold t [] v = tt
  collect_from-AllTold t (event (text_event s) ∷ queue) v =
      let w = text_event-IsOpen t s v in
      after_event (brought queue) t (text_event s) queue w
        (collect_from-AllTold (collect_event t (text_event s)) queue w)
  collect_from-AllTold t (event (reasoning_event s) ∷ queue) v =
      let w = reasoning_event-IsOpen t s v in
      after_event (brought queue) t (reasoning_event s) queue w
        (collect_from-AllTold (collect_event t (reasoning_event s)) queue w)
  collect_from-AllTold t (event (tool_calls_event m us) ∷ queue) v =
      let w : IsOpen (collect_event t (tool_calls_event m us)) =
        unfold collect_event in
        record { ongoing = v.ongoing; streamed = v.streamed; reasoned = v.reasoned } in
      after_event (brought queue) t (tool_calls_event m us) queue w
        (collect_from-AllTold (collect_event t (tool_calls_event m us)) queue w)
  collect_from-AllTold t (event (stop_event r u) ∷ queue) v =
      let w : IsOpen (collect_event t (stop_event r u)) =
        unfold collect_event in
        record { ongoing = v.ongoing; streamed = v.streamed; reasoned = v.reasoned } in
      after_event (brought queue) t (stop_event r u) queue w
        (collect_from-AllTold (collect_event t (stop_event r u)) queue w)
  collect_from-AllTold t (event (run_end result r u c (some e)) ∷ queue) v =
      after_end none t (run_end result r u c (some e)) queue
        (unfold turn_done collect_event in refl)
        (unfold collect_event in (v.reasoned, sym v.streamed))
  collect_from-AllTold t (event (run_end result r u c none) ∷ queue) v =
      after_end result t (run_end result r u c none) queue
        (unfold turn_done collect_event ended in refl)
        (unfold collect_event ended in (v.reasoned, ended-text result _ _ v.streamed))
  collect_from-AllTold t (events_closed ∷ queue) v =
      IsOpen-Told none _ (failed-IsOpen t stream_ended v)
  collect_from-AllTold t (timeout ∷ queue) v = IsOpen-Told none _ (failed-IsOpen t timed_out v)
  collect_from-AllTold t (context_done ∷ queue) v =
      IsOpen-Told none _ (failed-IsOpen t disconnected v)

  -- What a turn streams is what it answers without streaming: the pieces of reasoning make up its
  -- reasoning, and the pieces of text its text, except that the end of a run that does not fail may
  -- bring another text, which then is the turn's.
  pub collect_turn_streams :
      (queue rest : List (Arrival Cost)) (t : Turn Cost)
      → collect_turn queue ≡ some (t, rest)
      → (reasoning_pieces t.callbacks ≡ t.outcome.reasoning_text)
        × (t.outcome.text ≡ (
            if t.outcome.final
            then or_pieces (brought queue) (text_pieces t.callbacks)
            else text_pieces t.callbacks))
  unfolding collect_turn new_turn text_pieces reasoning_pieces AllTold
  collect_turn_streams queue rest t e = subst (AllTold (brought queue)) e (
      collect_from-AllTold new_turn queue
        (record { ongoing = refl; streamed = refl; reasoned = refl }))
