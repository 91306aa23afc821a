-- ===== src/Http/Billing.antt =====
-- internal/gateway/server.go: what a client is told that its request used, against what is charged.
use valyrium.Http.Chat.{Accounting, accounted, no_accounting}
use valyrium.Http.Gateway.{Gateway, stream_turn_accounting, turn_accounting}
use valyrium.Http.Handler.{
  Handled, Served, Surroundings, by_status, collected, end_turn, released_slot, released_slot?,
  replied, run_turn, streamed, turned_down, with_slot,
}
use valyrium.Base.{
  All, All-append, Bool, Bool-cases, List, Option, Option-cases, String, [], false, if◌then◌else◌,
  inl, inr, none, refl, some, subst, sym, true, ℕ, ◌∷◌, ◌≡◌, ◌⊎◌,
}
use valyrium.Cli.{Callback, CliError}
use valyrium.Prompt.Reply.{
  OpenAiUsage, completion_response_with_cost, new_stream_chunk, new_tool_call_response,
  to_open_ai_usage,
}
use valyrium.Server.{Status, cancelled, holds, queued, receives, released}
use valyrium.Session.{SessionManager}
use valyrium.Turn.{Arrival, Turn, TurnOutcome, collect_turn, ended, failed}
use valyrium.Turn.Answer.{
  Failure, bad_prompt, body_too_large, cli, error, invalid_json, response, too_many_sessions,
  unavailable,
}
use valyrium.Turn.Finish.{completion_of_turn, finish_turn, reply_of}
use valyrium.Turn.Stream.{
  Written, callback_chunks, chunk, done_line, error_chunk, final_chunks, stream_tool_turn,
}

module _ {ℓ} {Cost : Type ℓ} where
  -- The same tokens and the same cost.
  abbrev pub Tells : OpenAiUsage Cost → Accounting Cost → Type ℓ
  Tells u a =
      (u.prompt_tokens ≡ a.prompt_tokens)
      × (u.completion_tokens ≡ a.completion_tokens)
      × (u.cost_usd ≡ a.cost_usd)

  abbrev pub UsageTells : Option (OpenAiUsage Cost) → Accounting Cost → Type ℓ
  UsageTells none a = Unit {ℓ}
  UsageTells (some u) a = Tells u a

  abbrev pub WrittenTells : Accounting Cost → Written Cost → Type ℓ
  WrittenTells a (chunk c) = UsageTells c.usage a
  WrittenTells a (error_chunk e) = Unit {ℓ}
  WrittenTells a done_line = Unit {ℓ}

  -- An answer tells what is charged, a stream in each chunk that has a usage; a request that the
  -- handler turns down itself is charged nothing.
  abbrev pub Billed : Served Cost → Accounting Cost → Type ℓ
  Billed (replied (error (cli e))) a = Unit {ℓ}
  Billed (replied (error body_too_large)) a = a ≡ no_accounting
  Billed (replied (error invalid_json)) a = a ≡ no_accounting
  Billed (replied (error unavailable)) a = a ≡ no_accounting
  Billed (replied (error (bad_prompt e))) a = a ≡ no_accounting
  Billed (replied (error (too_many_sessions max))) a = a ≡ no_accounting
  Billed (replied (response body)) a = Tells body.usage a
  Billed (streamed written) a = All (WrittenTells a) written

  abbrev pub AllBilled : Option (Handled Cost) → Type ℓ
  AllBilled none = Unit {ℓ}
  AllBilled (some h) = Billed h.served h.accounting

  pub callback_chunks-All :
      (a : Accounting Cost) (id : String) (created : ℕ) (model : String) (cs : List Callback)
      → All (WrittenTells a) (callback_chunks id created model cs)
  unfolding callback_chunks new_stream_chunk
  callback_chunks-All a id created model [] = tt
  callback_chunks-All a id created model (c ∷ cs) = (tt, callback_chunks-All a id created model cs)

  -- An outcome by its error and its end.
  by_end :
      (P : TurnOutcome Cost → Type ℓ) (out : TurnOutcome Cost)
      → ((e : CliError) → P (record out { err = some e }))
      → P (record out { err = none; final = true })
      → P (record out { err = none; final = false })
      → P out
  by_end P out failed ended parked = elim (Option-cases out.err) [
    | inr (e, at) ↦ subst P (sym (λ i. record out { err = at i })) (failed e)
    | inl at ↦ elim (Bool-cases out.final) [
      | inl f ↦ subst P (sym (λ i. record out { err = at i; final = f i })) ended
      | inr f ↦ subst P (sym (λ i. record out { err = at i; final = f i })) parked
    ]
  ]

  final_chunks-All :
      (id : String) (created : ℕ) (model : String) (out : TurnOutcome Cost)
      → All (WrittenTells (stream_turn_accounting out)) (final_chunks id created model out)
  unfolding final_chunks stream_turn_accounting new_stream_chunk to_open_ai_usage accounted
  final_chunks-All id created model out =
      by_end (λ o. All (WrittenTells (stream_turn_accounting o)) (final_chunks id created model o))
        out (λ e. (tt, tt)) ((refl, refl, refl), (tt, tt)) (tt, ((refl, refl, refl), (tt, tt)))

  reply_of-Billed :
      (id : String) (created : ℕ) (model : String) (out : TurnOutcome Cost)
      → Billed (replied (reply_of id created model out)) (turn_accounting out)
  unfolding reply_of turn_accounting completion_response_with_cost new_tool_call_response
      completion_of_turn to_open_ai_usage accounted
  reply_of-Billed id created model out =
      by_end (λ o. Billed (replied (reply_of id created model o)) (turn_accounting o)) out (λ e. tt)
        (refl, refl, refl) (refl, refl, refl)

  end_turn-Billed :
      (o : Surroundings Cost) (stream : Bool) (model : String) (g : Gateway Cost) (sess : ℕ)
      → (t : Turn Cost) → let h = end_turn o stream model g sess t in Billed h.served h.accounting
  unfolding end_turn stream_tool_turn finish_turn
  end_turn-Billed o true model g sess t = (
    unfold new_stream_chunk in tt,
    All-append (WrittenTells (stream_turn_accounting t.outcome)) _ _
        (callback_chunks-All _ o.completion_id o.created model t.callbacks)
        (final_chunks-All o.completion_id o.created model t.outcome),
  )
  end_turn-Billed o false model g sess t = reply_of-Billed o.completion_id o.created model t.outcome

  collected-AllBilled :
      (o : Surroundings Cost) (stream : Bool) (model : String) (g : Gateway Cost) (sess : ℕ)
      → (ct : Option (Turn Cost × List (Arrival Cost)))
      → AllBilled (collected o stream model g sess ct)
  unfolding collected
  collected-AllBilled o stream model g sess none = tt
  collected-AllBilled o stream model g sess (some (t, rest)) =
      end_turn-Billed o stream model g sess t

  pub turned_down-AllBilled : (g : Gateway Cost) (f : Failure) → AllBilled (some (turned_down g f))
  turned_down-AllBilled g body_too_large = refl
  turned_down-AllBilled g invalid_json = refl
  turned_down-AllBilled g unavailable = refl
  turned_down-AllBilled g (bad_prompt e) = refl
  turned_down-AllBilled g (too_many_sessions max) = refl
  turned_down-AllBilled g (cli e) = tt

  pub run_turn-AllBilled :
      (o : Surroundings Cost) (stream : Bool) (model : String) (g : Gateway Cost)
      → (begun : SessionManager × (Failure ⊎ ℕ)) → AllBilled (run_turn o stream model g begun)
  unfolding run_turn
  run_turn-AllBilled o stream model g (sm, inl f) =
      turned_down-AllBilled (record g { sessions = sm }) f
  run_turn-AllBilled o stream model g (sm, inr sess) =
      collected-AllBilled o stream model _ sess (collect_turn o.arrivals)

  released_slot-AllBilled :
      (p : ℕ) (h : Option (Handled Cost)) → AllBilled h → AllBilled (released_slot? p h)
  unfolding released_slot? released_slot
  released_slot-AllBilled p none b = tt
  released_slot-AllBilled p (some h) b = b

  by_status-AllBilled :
      (p : ℕ) (serve : Gateway Cost → Option (Handled Cost)) (g : Gateway Cost) (st : Option Status)
      → AllBilled (serve g)
      → AllBilled (by_status p serve g st)
  unfolding by_status
  by_status-AllBilled p serve g none b = tt
  by_status-AllBilled p serve g (some holds) b = released_slot-AllBilled p (serve g) b
  by_status-AllBilled p serve g (some queued) b = tt
  by_status-AllBilled p serve g (some receives) b = tt
  by_status-AllBilled p serve g (some cancelled) b = refl
  by_status-AllBilled p serve g (some released) b = tt

  pub with_slot-AllBilled :
      (o : Surroundings Cost) (g : Gateway Cost) (serve : Gateway Cost → Option (Handled Cost))
      → ((k : Gateway Cost) → AllBilled (serve k))
      → AllBilled (with_slot o g serve)
  unfolding with_slot
  with_slot-AllBilled o g serve billed = by_status-AllBilled _ serve _ _ (billed _)

  pub either-Billed :
      (b : Bool) (x y : Handled Cost)
      → Billed x.served x.accounting
      → Billed y.served y.accounting
      → let h = if b then x else y in Billed h.served h.accounting
  either-Billed true x y h k = h
  either-Billed false x y h k = k
