-- ===== src/Http/Leaves.antt =====
-- Whatever way `handleChatCompletions` returns, it has let go of its slot.
use valyrium.Http.{ChatCompletionRequest, HttpRequest}
use valyrium.Http.Run.{Outside}
use valyrium.Http.Chat.{
  Accounting, ChatPath, begin_chat, no_accounting, plan_chat, stateless, tool_turn,
}
use valyrium.Http.Gateway.{Gateway, note_chat, note_request}
use valyrium.Http.Handler.{
  ChatBody, Handled, Served, Surroundings, by_status, collected, end_turn, handle_chat_completions,
  not_json, noted, released_slot, released_slot?, replied, request, run_stateless, run_turn,
  serve_body, serve_path, serve_planned, serve_request, too_large, with_slot,
}
use valyrium.Base.{
  ==_refl, Bool, List, Option, String, [], arith, false, get_elem?, if◌then◌else◌, inl, inr, length,
  none, refl, some, subst, suc, true, zero, ℕ, ◌==◌, ◌∙◌, ◌∷◌, ◌≡◌, ◌≢◌, ◌⊎◌,
}
use valyrium.Server.{
  Semaphore, Status, advance, cancelled, give_back, holds, let_go, queued, receives, release,
  release_to, released, wake,
}
use valyrium.Session.{SessionManager}
use valyrium.Turn.{Arrival, Turn, collect_turn}
use valyrium.Turn.Answer.{Failure, body_too_large, error, invalid_json}
use valyrium.Server.Request.{ResumeTurn}

get_elem?-advance :
    (f : Status → Status) (q p : ℕ) (cs : List Status)
    → get_elem? (advance f q cs) p
      ≡ (elim (get_elem? cs p) [ none ↦ none | some st ↦ some (if q == p then f st else st) ])
unfolding advance
get_elem?-advance f q p [] = refl
get_elem?-advance f zero zero (c ∷ cs) = refl
get_elem?-advance f zero (suc p) (c ∷ cs) = ground arith
get_elem?-advance f (suc q) zero (c ∷ cs) = ground arith
get_elem?-advance f (suc q) (suc p) (c ∷ cs) = ground (arith, get_elem?-advance f q p cs)

release_to-released :
    (s : Semaphore) (p : ℕ) (qs : List ℕ)
    → get_elem? s.callers p ≡ some released
    → get_elem? (release_to s qs).callers p ≡ some released
unfolding release_to
release_to-released s p [] h = h
release_to-released s p (q ∷ qs) h = ground (arith, get_elem?-advance wake q p s.callers, h)

-- A caller that gives its slot back has none, whoever gets the slot.
give_back-released :
    (s : Semaphore) (p : ℕ)
    → get_elem? s.callers p ≡ some holds
    → get_elem? (give_back s p).callers p ≡ some released
unfolding give_back release
give_back-released s p h =
    release_to-released (record s { callers = advance let_go p s.callers }) p s.waiters
      (ground (arith, get_elem?-advance let_go p p s.callers, ==_refl p, h))

get_elem?_end : (cs : List Status) → get_elem? cs (length cs) ≡ none
get_elem?_end [] = refl
get_elem?_end (c ∷ cs) = get_elem?_end cs

module _ {ℓ} {Cost : Type ℓ} where
  abbrev caller : Gateway Cost → ℕ → Option Status
  caller g p = get_elem? g.slots.callers p

  -- What a part of the handler leaves of the caller's place.
  abbrev KeepsCaller : ℕ → Gateway Cost → Option (Handled Cost) → Type 0
  KeepsCaller p g none = Unit {0}
  KeepsCaller p g (some h) = caller h.gateway p ≡ caller g p

  abbrev Free : ℕ → Option (Handled Cost) → Type 0
  Free p none = Unit {0}
  Free p (some h) = caller h.gateway p ≢ some holds

  released_slot-Free :
      (p : ℕ) (g : Gateway Cost) (h : Option (Handled Cost))
      → KeepsCaller p g h
      → caller g p ≡ some holds
      → Free p (released_slot? p h)
  unfolding released_slot? released_slot
  released_slot-Free p g none k held = tt
  released_slot-Free p g (some h) k held =
      λ e. ground (arith, give_back-released h.gateway.slots p (k ∙ held), e)

  by_status-Free :
      (p : ℕ) (serve : Gateway Cost → Option (Handled Cost)) (g : Gateway Cost) (st : Option Status)
      → KeepsCaller p g (serve g)
      → caller g p ≡ st
      → Free p (by_status p serve g st)
  unfolding by_status
  by_status-Free p serve g none k e = tt
  by_status-Free p serve g (some holds) k e = released_slot-Free p g (serve g) k e
  by_status-Free p serve g (some queued) k e = tt
  by_status-Free p serve g (some receives) k e = tt
  by_status-Free p serve g (some cancelled) k e = λ h. ground (arith, e, h)
  by_status-Free p serve g (some released) k e = tt

  with_slot-Free :
      (o : Surroundings Cost) (g : Gateway Cost) (serve : Gateway Cost → Option (Handled Cost))
      → ((k : Gateway Cost) → KeepsCaller (length g.slots.callers) k (serve k))
      → Free (length g.slots.callers) (with_slot o g serve)
  unfolding with_slot
  with_slot-Free o g serve keeps = by_status-Free _ serve _ _ (keeps _) refl

  end_turn-callers :
      (o : Surroundings Cost) (stream : Bool) (model : String) (g : Gateway Cost) (sess : ℕ)
      → (t : Turn Cost) (p : ℕ) → caller (end_turn o stream model g sess t).gateway p ≡ caller g p
  unfolding end_turn
  end_turn-callers o true model g sess t p = refl
  end_turn-callers o false model g sess t p = refl

  -- What others do while the CLI runs leaves this caller its slot.
  abbrev pub LeavesSlot : Surroundings Cost → ℕ → Type ℓ
  LeavesSlot o p = (k : Gateway Cost) → caller (o.while_running k) p ≡ caller k p

  collected-KeepsCaller :
      (o : Surroundings Cost) (stream : Bool) (model : String) (g : Gateway Cost) (sess p : ℕ)
      → (ct : Option (Turn Cost × List (Arrival Cost)))
      → KeepsCaller p g (collected o stream model g sess ct)
  unfolding collected
  collected-KeepsCaller o stream model g sess p none = tt
  collected-KeepsCaller o stream model g sess p (some (t, rest)) =
      end_turn-callers o stream model g sess t p

  via :
      (p : ℕ) (g k : Gateway Cost) (h : Option (Handled Cost))
      → caller g p ≡ caller k p
      → KeepsCaller p g h
      → KeepsCaller p k h
  via p g k none e keeps = tt
  via p g k (some h) e keeps = keeps ∙ e

  run_turn-KeepsCaller :
      (o : Surroundings Cost) (stream : Bool) (model : String) (g : Gateway Cost) (p : ℕ)
      → (begun : SessionManager × (Failure ⊎ ℕ)) → LeavesSlot o p
      → KeepsCaller p g (run_turn o stream model g begun)
  unfolding run_turn
  run_turn-KeepsCaller o stream model g p (sm, inl failure) leaves = refl
  run_turn-KeepsCaller o stream model g p (sm, inr sess) leaves =
      let g' = record g { sessions = sm } in
      via p (o.while_running g') g _ (leaves g')
        (collected-KeepsCaller o stream model (o.while_running g') sess p (collect_turn o.arrivals))

  either-caller :
      (b : Bool) (x y : Handled Cost) (p : ℕ) (v : Option Status)
      → caller x.gateway p ≡ v
      → caller y.gateway p ≡ v
      → caller (if b then x else y).gateway p ≡ v
  either-caller true x y p v h k = h
  either-caller false x y p v h k = k

  unplaced-Free :
      (g : Gateway Cost) (served : Served Cost) (a : Accounting Cost)
      → Free
          (length g.slots.callers)
          (some (record { gateway = g; served = served; accounting = a }))
  unplaced-Free g served a e = ground (arith, get_elem?_end g.slots.callers, e)

module _ {ℓ κ} {Schema : Type ℓ} {Cost : Type κ} (outside : Outside Schema Cost)
    (o : Surroundings Cost) where
  serve_planned-Free :
      (req : ChatCompletionRequest Schema) (model effort : String) (g : Gateway Cost)
      → (plan : ResumeTurn) (prompts : Failure ⊎ (String × String))
      → LeavesSlot o (length g.slots.callers)
      → Free (length g.slots.callers) (serve_planned outside o req model effort g plan prompts)
  unfolding serve_planned run_stateless
  serve_planned-Free req model effort g plan (inl failure) leaves =
      unplaced-Free g (replied (error failure)) no_accounting
  serve_planned-Free req model effort g plan (inr (system_prompt, prompt)) leaves =
      with_slot-Free o g _ (λ k.
        either-caller req.stream _ _ (length g.slots.callers) (caller k (length g.slots.callers))
          (leaves k) (leaves k))

  serve_path-Free :
      (req : ChatCompletionRequest Schema) (model effort : String) (g : Gateway Cost)
      → (path : ChatPath) → LeavesSlot o (length g.slots.callers)
      → Free (length g.slots.callers) (serve_path outside o req model effort g path)
  unfolding serve_path
  serve_path-Free req model effort g (tool_turn cont results) leaves =
      with_slot-Free o g _
        (λ k. run_turn-KeepsCaller o req.stream model k (length g.slots.callers) _ leaves)
  serve_path-Free req model effort g stateless leaves =
      let planned = plan_chat outside g.resume req model effort in
      serve_planned-Free req model effort (record g { resume = planned.0 }) planned.1.0 planned.1.1
        leaves

  serve_body-Free :
      (g : Gateway Cost) (body : ChatBody Schema)
      → LeavesSlot o (length g.slots.callers)
      → Free (length g.slots.callers) (serve_body outside o g body)
  unfolding serve_body serve_request
  serve_body-Free g too_large leaves =
      unplaced-Free g (replied (error body_too_large)) no_accounting
  serve_body-Free g not_json leaves = unplaced-Free g (replied (error invalid_json)) no_accounting
  serve_body-Free g (request req) leaves =
      let (sm, path) = begin_chat g.sessions req in
      serve_path-Free req _ _ (record g { sessions = sm }) path leaves

  noted-Free :
      (plus : Cost → Cost → Cost) (nought : Cost) (r : HttpRequest) (p : ℕ)
      → (mh : Option (Handled Cost)) → Free p mh
      → Free p (noted outside o plus nought r mh)
  unfolding noted note_chat note_request
  noted-Free plus nought r p none free = tt
  noted-Free plus nought r p (some h) free = free

  -- If others do not give this caller's slot away while the CLI runs: whichever way
  -- `handleChatCompletions` returns, with an answer or an error, and whatever others did while it
  -- waited, its caller of `Acquire` holds no slot afterwards.
  pub handle_chat_completions-holds :
      (plus : Cost → Cost → Cost) (nought : Cost) (g : Gateway Cost) (r : HttpRequest)
      → (body : ChatBody Schema) (h : Handled Cost) → LeavesSlot o (length g.slots.callers)
      → handle_chat_completions outside o plus nought g r body ≡ some h
      → get_elem? h.gateway.slots.callers (length g.slots.callers) ≢ some holds
  unfolding handle_chat_completions
  handle_chat_completions-holds plus nought g r body h leaves e =
      subst (Free (length g.slots.callers)) e (
        noted-Free plus nought r (length g.slots.callers) (serve_body outside o g body)
          (serve_body-Free g body leaves))
