-- ===== src/Resume.antt =====
-- internal/gateway/resume.go, the `ResumeStore`: a bounded LRU from conversation fingerprints to
-- CLI session ids. `container/list` elements are known by their allocation number, which is what
-- the map `entries` points to; `order` is the list from its front to its back.
mod Tests
pub mod Spec
pub mod Valid
pub mod View
pub mod Evict
pub mod Refines
use valyrium.Base.{
  Bool, List, Option, String, [], delete, false, if◌then◌else◌, insert, length, lookup, ltb, none,
  some, suc, text_key, true, zero, ℕ, ◌+◌, ◌==◌, ◌=t◌, ◌||◌, ◌∷◌,
}

pub record Element : Type 0 where
  pub id : ℕ
  pub key : String
  pub cli_session_id : String

pub record ResumeStore : Type 0 where
  pub max : ℕ
  pub order : List Element
  pub entries : List (String × ℕ)
  pub next_id : ℕ

-- A `max` that is not positive becomes 32; a negative one is passed as 0.
pub new_resume_store : ℕ → ResumeStore
new_resume_store max = record {
  max = if max == 0 then 32 else max;
  order = [];
  entries = [];
  next_id = 0;
}

-- The element behind a pointer, if it is in the list.
unfoldable pub find : ℕ → List Element → Option Element
find p [] = none
find p (el ∷ els) = if el.id == p then some el else find p els

-- `order.Remove(p)`.
unfoldable pub remove : ℕ → List Element → List Element
remove p [] = []
remove p (el ∷ els) = if el.id == p then els else el ∷ remove p els

-- `order.Back()`.
unfoldable pub back : List Element → Option Element
back [] = none
back (el ∷ []) = some el
back (el ∷ el' ∷ els) = back (el' ∷ els)

-- `order.MoveToFront(el)`, with `el` as it is now.
unfoldable pub move_to_front : Element → List Element → List Element
move_to_front el els = el ∷ remove el.id els

-- The map's pointer for a key, as the list element itself. (`none` also for a pointer that is not
-- in the list, which a valid store does not have.)
unfoldable pub entry : ResumeStore → String → Option Element
entry rs key = elim (lookup key rs.entries) [ none ↦ none | some p ↦ find p rs.order ]

-- A nil store is `none`.
unfoldable pub get : Option ResumeStore → String → Option ResumeStore × (String × Bool)
get none key = (none, ("", false))
get (some rs) key = if key =t "" then (some rs, ("", false)) else (elim (entry rs key) [
  | none ↦ (some rs, ("", false))
  | some el ↦ (some (record rs { order = move_to_front el rs.order }), (el.cli_session_id, true))
])

-- One round of the loop of `Put`, on the oldest element.
unfoldable pub evict_one : ResumeStore → Element → ResumeStore
evict_one rs oldest = record rs {
  order = remove oldest.id rs.order;
  entries = delete oldest.key rs.entries;
}

-- `for rs.order.Len() > rs.max`. The first argument bounds the rounds.
unfoldable pub evict : ℕ → ResumeStore → ResumeStore
evict zero rs = rs
evict (suc fuel) rs = elim (ltb rs.max (length rs.order)) [
  | true ↦ elim (back rs.order) [ none ↦ rs | some oldest ↦ evict fuel (evict_one rs oldest) ]
  | false ↦ rs
]

unfoldable pub push_front : ResumeStore → String → String → ResumeStore
push_front rs key cli_session_id = record rs {
  order = record { id = rs.next_id; key = key; cli_session_id = cli_session_id } ∷ rs.order;
  entries = insert key rs.next_id rs.entries;
  next_id = rs.next_id + 1;
}

unfoldable pub put_present : ResumeStore → Element → String → ResumeStore
put_present rs el cli_session_id = record rs {
  order = move_to_front (record el { cli_session_id = cli_session_id }) rs.order;
}

unfoldable pub put_absent : ResumeStore → String → String → ResumeStore
put_absent rs key cli_session_id =
    let rs' = push_front rs key cli_session_id in evict (length rs'.order) rs'

unfoldable pub put : Option ResumeStore → String → String → Option ResumeStore
put none key cli_session_id = none
put (some rs) key cli_session_id =
    if key =t "" || cli_session_id =t "" then some rs else (elim (entry rs key) [
      | some el ↦ some (put_present rs el cli_session_id)
      | none ↦ some (put_absent rs key cli_session_id)
    ])

unfoldable pub len : Option ResumeStore → ℕ
len none = 0
len (some rs) = length rs.order
