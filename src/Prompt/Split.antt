-- ===== src/Prompt/Split.antt =====
-- What `splitResumeTurn` returns.
use valyrium.Base.{
  All, Bool-cases, List, Option, Option-cases, String, [], arith, drop, get_elem?, inl, inr, none,
  refl, some, subst, suc, take, text_iff, ℕ, ◌+◌, ◌=t◌, ◌∷◌, ◌≡◌, ◌≢◌, ◌⊎◌,
}
use valyrium.Prompt.{OpenAiMessage}
use valyrium.Prompt.Plan.{
  join_non_empty, last_assistant, split_at, split_resume_turn, split_tail, user_parts,
}

abbrev pub HasRole : String → OpenAiMessage → Type 0
HasRole role msg = msg.role ≡ role

-- The index that the first loop finds is that of an assistant message.
last_assistant_lem :
    (i k : ℕ) (msgs : List OpenAiMessage) (last : Option ℕ)
    → last_assistant i msgs last ≡ some k
    → (last ≡ some k)
      ⊎ ((j : ℕ) × (msg : OpenAiMessage) × (k ≡ i + j)
          × (get_elem? msgs j ≡ some msg)
          × HasRole "assistant" msg)
unfolding last_assistant
last_assistant_lem i k [] last h = inl h
last_assistant_lem i k (msg ∷ msgs) last h = elim (last_assistant_lem (suc i) k msgs _ h) [
  | inr (j, m, at, e, r) ↦ inr (suc j, m, omega (arith, at), e, r)
  | inl e ↦ elim (Bool-cases (msg.role =t "assistant")) [
    | inl is_one ↦ inr (
      0,
      msg,
      (let here : i ≡ k = ground (arith, e, is_one) in omega (arith, here)),
      refl,
      (text_iff msg.role "assistant").0 is_one,
    )
    | inr is_none ↦ inl (ground (arith, e, is_none))
  ]
]

user_parts-HasRole :
    (msgs : List OpenAiMessage) (ps : List String)
    → user_parts msgs ≡ some ps
    → All (HasRole "user") msgs
unfolding user_parts
user_parts-HasRole [] ps h = tt
user_parts-HasRole (msg ∷ msgs) ps h = elim (Option-cases (user_parts msgs)) [
  | inl none_left ↦ absurd (ground (arith, none_left))
  | inr (qs, e) ↦ (ground (arith, text_iff msg.role "user"), user_parts-HasRole msgs qs e)
]

-- How a result of `split_resume_turn` divides the messages.
pub record IsSplit (msgs : List OpenAiMessage) (prefix : List OpenAiMessage) (user_text : String)
    : Type 0 where
  pub last : ℕ
  pub reply : OpenAiMessage
  pub stands : get_elem? msgs last ≡ some reply
  pub replied : HasRole "assistant" reply
  pub front : prefix ≡ take (suc last) msgs
  pub users : All (HasRole "user") (drop (suc last) msgs)
  pub given : user_text ≢ ""

split_at_lem :
    (prefix p : List OpenAiMessage) (ps : Option (List String)) (s : String)
    → split_at prefix ps ≡ some (p, s)
    → (p ≡ prefix) × (s ≢ "") × ((qs : List String) × (ps ≡ some qs))
unfolding split_at
split_at_lem prefix p none s h = cc
split_at_lem prefix p (some ps) s h =
    (ground arith, ground (arith, text_iff (join_non_empty ps "\n\n") ""), (ps, refl))

-- What `splitResumeTurn` returns divides the conversation: the messages that the stored session
-- holds already end in a reply of the assistant, what follows is user messages only, and the text
-- for the session is not empty.
pub split_resume_turn-IsSplit :
    (msgs prefix : List OpenAiMessage) (user_text : String)
    → split_resume_turn msgs ≡ some (prefix, user_text)
    → IsSplit msgs prefix user_text
unfolding split_resume_turn split_tail
split_resume_turn-IsSplit msgs prefix user_text h =
    elim (Option-cases (last_assistant 0 msgs none)) [
      | inl e ↦ absurd (ground (arith, e))
      | inr (i, e) ↦ elim (last_assistant_lem 0 i msgs none e) [
        | inl never ↦ cc
        | inr (j, reply, k, at, role) ↦
            let split : split_at (take (suc i) msgs) (user_parts (drop (suc i) msgs))
                ≡ some (prefix, user_text) =
              ground (arith, e) in
            let (p, given, (ps, users)) =
              split_at_lem (take (suc i) msgs) prefix _ user_text split in
            let same : j ≡ i = omega (arith, k) in
            record {
              last = i;
              reply = reply;
              stands = subst (λ n. get_elem? msgs n ≡ some reply) same at;
              replied = role;
              front = p;
              users = user_parts-HasRole (drop (suc i) msgs) ps users;
              given = given;
            }
      ]
    ]
