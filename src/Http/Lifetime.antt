-- ===== src/Http/Lifetime.antt =====
-- internal/gateway/server.go: a server from `NewServer` to `Shutdown`.
use valyrium.Session.Stopped.{Stopped, close-Stopped, lookup-member, session_at}
use valyrium.Base.{
  Bool, Bool-cases, List, Option, Option-cases, String, [], ap, arith, false, if◌then◌else◌, inl,
  inr, lookup, lookup-delete, map, none, refl, some, subst, text_iff, text_key, true, ◌<◌, ◌=t◌,
  ◌∷◌, ◌≡◌,
}
use valyrium.Usage.{SaveSteps, UsageStore, close_store}
use valyrium.Session.{
  SessionManager, close, get_session, member, new_session_manager, reap_all, reap_session_locked,
}
use valyrium.Command.{Config, completed_config, or_default}
use valyrium.Resume.{ResumeStore}
use valyrium.Resume.Refines.{new-IsValid}
use valyrium.Resume.Valid.{IsValid}
use valyrium.Server.{new_semaphore}
use valyrium.Turn.Lifecycle.{reaped-lookup}
use valyrium.Http.Gateway.{Gateway, new_server, shutdown}

reaped_keeps :
    (sm : SessionManager) (id k : String)
    → get_session sm k ≡ none
    → get_session (reap_session_locked sm id) k ≡ none
unfolding reap_session_locked get_session
reaped_keeps sm id k h = elim (Option-cases (lookup id sm.sessions)) [
  | inl e ↦ rw (e, reap_session_locked) h
  | inr (p, e) ↦ rw (e, reap_session_locked) (ground (arith, lookup-delete id k sm.sessions, h))
]

reap_all_keeps :
    (sm : SessionManager) (ids : List String) (k : String)
    → get_session sm k ≡ none
    → get_session (reap_all sm ids) k ≡ none
unfolding reap_all
reap_all_keeps sm [] k h = h
reap_all_keeps sm (id ∷ ids) k h =
    reap_all_keeps (reap_session_locked sm id) ids k (reaped_keeps sm id k h)

reap_all-member :
    (sm : SessionManager) (ids : List String) (k : String)
    → member k ids ≡ true
    → get_session (reap_all sm ids) k ≡ none
unfolding reap_all member
reap_all-member sm [] k h = cc
reap_all-member sm (id ∷ ids) k h = elim (Bool-cases (id =t k)) [
  | inl same ↦
      let e : id ≡ k = (text_iff id k).0 same in
      reap_all_keeps (reap_session_locked sm id) ids k
        (subst (λ j. get_session (reap_session_locked sm id) j ≡ none) e (reaped-lookup sm id))
  | inr differs ↦ reap_all-member (reap_session_locked sm id) ids k (ground (arith, h, differs))
]

close-get_session : (sm : SessionManager) (k : String) → get_session (close sm) k ≡ none
unfolding close get_session
close-get_session sm k = elim (lookup-member k sm.sessions) [
  | inl e ↦ reap_all_keeps sm (map (λ e. e.0) sm.sessions) k e
  | inr e ↦ reap_all-member sm (map (λ e. e.0) sm.sessions) k e
]

InOrder : Option ResumeStore → Type 0
InOrder none = Unit
InOrder (some rs) = IsValid rs

InOrder-if : (b : Bool) (rs : ResumeStore) → IsValid rs → InOrder (if b then some rs else none)
unfolding InOrder
InOrder-if true rs v = v
InOrder-if false rs v = tt

module _ {ℓ} {Cost : Type ℓ} where
  shutdown-open :
      (g : Gateway Cost) (st : SaveSteps Cost)
      → g.shut_down ≡ false
      → (g' : Gateway Cost) × ((shutdown g st ≡ g')
          × ((g'.shut_down ≡ true) × (g'.sessions ≡ close g.sessions)))
  unfolding shutdown
  shutdown-open g st h = (
    record g { sessions = close g.sessions; usage = close_store g.usage st; shut_down = true },
    (
      ap
          (λ b. if b then g else record g {
            sessions = close g.sessions;
            usage = close_store g.usage st;
            shut_down = true;
          })
          h,
      (refl, refl),
    ),
  )

  shutdown-closed :
      (g : Gateway Cost) (st : SaveSteps Cost) → g.shut_down ≡ true → shutdown g st ≡ g
  unfolding shutdown
  shutdown-closed g st h =
      ap
        (λ b. if b then g else record g {
          sessions = close g.sessions;
          usage = close_store g.usage st;
          shut_down = true;
        })
        h

  -- The first `Shutdown` of a server leaves no session in the table; each that was there is reaped,
  -- and the process that it had by then is killed; and a second call changes nothing.
  pub shutdown-get_session :
      (g : Gateway Cost) (st again : SaveSteps Cost) (session_id : String)
      → g.shut_down ≡ false
      → let sm' = (shutdown g st).sessions in
        let sess = get_session g.sessions session_id in
        (get_session sm' session_id ≡ none)
        × Stopped (session_at g.sessions.heap sess) (session_at sm'.heap sess)
        × (shutdown (shutdown g st) again ≡ shutdown g st)
  shutdown-get_session g st again session_id h =
      let (g', (e, (down, emptied))) = shutdown-open g st h in
      rw e (
        rw emptied (close-get_session g.sessions session_id),
        rw emptied (close-Stopped g.sessions session_id),
        shutdown-closed g' again down,
      )

  -- A new server has at least one slot, room for at least one session and none yet, and where
  -- sessions are resumed a store in order: whatever it is configured to.
  pub new_server-ready :
      (config : Config) (usage : UsageStore Cost) (port session_id : String)
      → let g = new_server config usage port in
        (0 < g.slots.available)
        × ((0 < g.sessions.max_sessions)
            × ((get_session g.sessions session_id ≡ none)
                × ((rs : ResumeStore) → g.resume ≡ some rs → IsValid rs)))
  unfolding new_server completed_config new_semaphore new_session_manager get_session lookup InOrder
  new_server-ready config usage port session_id = (
    ground arith,
    (
      ground arith,
      (
        refl,
        λ rs e. subst InOrder e (
            InOrder-if config.resume_sessions _
              (new-IsValid (or_default config.resume_max_entries 32))),
      ),
    ),
  )
