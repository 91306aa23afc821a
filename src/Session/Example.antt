-- ===== src/Session/Example.antt =====
-- A table with one session, which waits for the result of one call.
use valyrium.Base.{
  Bool-cases, List, String, [], arith, false, get_elem?, inl, inr, lookup, none, refl, some, suc,
  text_iff, text_key, true, zero, ℕ, ◌=t◌, ◌∷◌, ◌≡◌,
}
use valyrium.Session.{SessionManager}
use valyrium.Session.Calls.{Announced, PendingToolCall, Session, fresh}
use valyrium.Session.Valid.{IsValid}

abbrev pub ls : Announced
ls = record { minted = "call_1"; name = "ls"; arguments = "{}" }

abbrev pub waiting : PendingToolCall
waiting = record {
  id = "call_1";
  name = "ls";
  arguments = "{}";
  resolver = record { buffer = none; closed = false; faulted = false };
  claimed = false;
  resolved = false;
}

abbrev pub session : List PendingToolCall → List (String × ℕ) → Session
session pending by_id = record {
  id = "s";
  has_cmd = true;
  killed = false;
  tools = [];
  pending = pending;
  pending_by_id = by_id;
  created_at = 5;
  last_activity = 5;
  reaped = false;
}

abbrev pub idle : Session
idle = session [] []

abbrev pub busy : Session
busy = session (waiting ∷ []) (("call_1", 0) ∷ [])

abbrev pub manager : Session → List (String × String) → SessionManager
manager s index = record {
  sessions = ("s", 0) ∷ [];
  heap = s ∷ [];
  tool_call_id_to_session = index;
  max_sessions = 4;
  tool_timeout_ms = 1000;
  session_idle_ms = 1000;
  done = false;
}

abbrev pub index : List (String × String)
index = ("call_1", "s") ∷ []

pub waiting-fresh : waiting.resolver ≡ fresh
unfolding fresh
waiting-fresh = refl

busy_live :
    (id : String) (p : ℕ)
    → lookup id (manager busy index).sessions ≡ some p
    → (s : Session) × (get_elem? (busy ∷ []) p ≡ some s) × (s.id ≡ id) × (s.reaped ≡ false)
unfolding lookup
busy_live id p e = elim (Bool-cases ("s" =t id)) [
  | inl same ↦
      let first : 0 ≡ p = ground arith in (busy, rw (← first) refl, (text_iff "s" id).0 same, refl)
  | inr other ↦ absurd (ground arith)
]

busy_tracked :
    (p : ℕ) (s : Session)
    → get_elem? (busy ∷ []) p ≡ some s
    → lookup s.id (manager busy index).sessions ≡ some p
unfolding lookup
busy_tracked zero s e = ground (arith, text_iff "s" s.id)
busy_tracked (suc p) s e = cc

pub busy-IsValid : IsValid (manager busy index)
unfolding lookup
busy-IsValid = record {
  calm = (
    record { calls = (record { calm = refl; unsent = λ _. refl; unclosed = λ _. refl }, tt) },
    tt,
  );
  bounded = omega arith;
  indexed_once = (refl, tt);
  live = busy_live;
  tracked = λ p s e alive. busy_tracked p s e;
}
