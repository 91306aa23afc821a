-- ===== src/Resume/Refines.antt =====
-- `Get` and `Put` implement the LRU cache of `Resume.Spec`, and keep the invariant.
use valyrium.Base.{
  Bool, Bool-cases, List, Option, String, [], ap, ap₂, arith, if◌then◌else◌, inl, inr, length,
  lookup, none, refl, some, sym, take, take_all, text_key, ℕ, ◌==◌, ◌=t◌, ◌||◌, ◌∙◌, ◌∷◌, ◌≡◌,
}
use valyrium.Resume.{
  Element, ResumeStore, find, get, move_to_front, new_resume_store, push_front, put, put_absent,
  put_present,
}
use valyrium.Resume.Spec.{Cache, cache_get, cache_put, cached, without}
use valyrium.Resume.Valid.{IsValid, pointer}
use valyrium.Resume.Evict.{evict-IsValid, evict-max, push_front-IsAlmostValid}
use valyrium.Resume.View.{
  cached-view, cached-view-none, entry-cases, length-view, moved-IsValid, view, without-view,
  without-view-none,
}

-- A store that holds the pairs of `c`, under the bound `max`.
pub record Holds (max : ℕ) (c : Cache) (rs : ResumeStore) : Type 0 where
  pub valid : IsValid rs
  pub bound : rs.max ≡ max
  pub pairs : view rs.order ≡ c

moved-Holds :
    (rs : ResumeStore) (el : Element) (s : String)
    → IsValid rs
    → find el.id rs.order ≡ some el
    → Holds rs.max ((el.key, s) ∷ without el.key (view rs.order)) (put_present rs el s)
unfolding put_present move_to_front
moved-Holds rs el s v f = record {
  valid =
      unfold move_to_front in moved-IsValid rs el (record el { cli_session_id = s }) v f refl refl;
  bound = refl;
  pairs = ap (◌∷◌ (el.key, s)) (sym (without-view rs.next_id el rs.order v.distinct f));
}

-- `Get` answers as the cache does, and leaves a store that holds what the cache holds then.
pub get-Cache :
    (rs : ResumeStore) (k : String)
    → IsValid rs
    → (rs' : ResumeStore) × (get (some rs) k ≡ (some rs', (cache_get k (view rs.order)).1))
      × Holds rs.max (cache_get k (view rs.order)).0 rs'
unfolding get cache_get
get-Cache rs k v = elim (Bool-cases (k =t "")) [
  | inl empty ↦ (rs, rw empty, rw empty (record { valid = v; bound = refl; pairs = refl }))
  | inr given ↦ elim (entry-cases rs k v) [
    | inl (e, p) ↦
        let miss = cached-view-none k rs.order p in
        (
          rs,
          rw (given, e, miss),
          rw (given, miss) (record { valid = v; bound = refl; pairs = refl }),
        )
    | inr (el, e, p, f, same) ↦
        let hit : cached k (view rs.order) ≡ some el.cli_session_id =
          rw (sym same) (cached-view rs.next_id el rs.order v.distinct f) in
        (
          put_present rs el el.cli_session_id,
          rw (given, e, hit) (unfold put_present in refl),
          rw (given, hit) (rw (sym same) (moved-Holds rs el el.cli_session_id v f)),
        )
  ]
]

absent-Holds :
    (rs : ResumeStore) (k s : String)
    → IsValid rs
    → pointer k rs.order ≡ none
    → Holds rs.max (take rs.max ((k, s) ∷ without k (view rs.order))) (put_absent rs k s)
unfolding put_absent
absent-Holds rs k s v p =
    let rs' = push_front rs k s in
    let (valid, pairs) =
      evict-IsValid (length rs'.order) rs' (push_front-IsAlmostValid rs k s v p) (omega arith) in
    record {
      valid = valid;
      bound = evict-max (length rs'.order) rs' ∙ unfold push_front in refl;
      pairs =
          pairs
          ∙ unfold push_front in
            ap (λ (c : Cache). take rs.max ((k, s) ∷ c)) (sym (without-view-none k rs.order p));
    }

present-Holds :
    (rs : ResumeStore) (el : Element) (s : String)
    → IsValid rs
    → find el.id rs.order ≡ some el
    → Holds rs.max
        (take rs.max ((el.key, s) ∷ without el.key (view rs.order)))
        (put_present rs el s)
present-Holds rs el s v f =
    let moved = moved-Holds rs el s v f in
    rw
      (take_all rs.max ((el.key, s) ∷ without el.key (view rs.order)) (
        omega (
          arith,
          ap length moved.pairs,
          length-view (put_present rs el s).order,
          moved.valid.bounded,
          moved.bound,
        )))
      moved

-- `Put` writes as the cache does: the pair in front, the least recently used ones evicted.
pub put-Cache :
    (rs : ResumeStore) (k s : String)
    → IsValid rs
    → (rs' : ResumeStore) × (put (some rs) k s ≡ some rs')
      × Holds rs.max (cache_put rs.max k s (view rs.order)) rs'
unfolding put cache_put
put-Cache rs k s v = elim (Bool-cases (k =t "" || s =t "")) [
  | inl empty ↦ (rs, rw empty, rw empty (record { valid = v; bound = refl; pairs = refl }))
  | inr given ↦ elim (entry-cases rs k v) [
    | inl (e, p) ↦ (put_absent rs k s, rw (given, e), rw given (absent-Holds rs k s v p))
    | inr (el, e, p, f, same) ↦
        (put_present rs el s, rw (given, e), rw given (rw (sym same) (present-Holds rs el s v f)))
  ]
]

-- A history of calls on one store, and the answers to its `Get`s in order.
pub data Call : Type 0 where
  gets : String → Call
  puts : String → String → Call

unfoldable pub run : Option ResumeStore → List Call → List (String × Bool)
run rs [] = []
run rs (gets k ∷ cs) = let (rs', answer) = get rs k in answer ∷ run rs' cs
run rs (puts k s ∷ cs) = run (put rs k s) cs

unfoldable pub cache_run : ℕ → Cache → List Call → List (String × Bool)
cache_run max c [] = []
cache_run max c (gets k ∷ cs) = let (c', answer) = cache_get k c in answer ∷ cache_run max c' cs
cache_run max c (puts k s ∷ cs) = cache_run max (cache_put max k s c) cs

run-view :
    (rs : ResumeStore) (cs : List Call)
    → IsValid rs
    → run (some rs) cs ≡ cache_run rs.max (view rs.order) cs
unfolding run cache_run
run-view rs [] v = refl
run-view rs (gets k ∷ cs) v =
    let (rs', e, after) = get-Cache rs k v in
    rw e (
      ap (◌∷◌ (cache_get k (view rs.order)).1)
        (run-view rs' cs after.valid ∙ ap₂ (λ m c. cache_run m c cs) after.bound after.pairs))
run-view rs (puts k s ∷ cs) v =
    let (rs', e, after) = put-Cache rs k s v in
    rw e (run-view rs' cs after.valid ∙ ap₂ (λ m c. cache_run m c cs) after.bound after.pairs)

pub new-IsValid : (max : ℕ) → IsValid (new_resume_store max)
unfolding new_resume_store
new-IsValid max = record {
  positive = ground arith;
  bounded = omega arith;
  distinct = tt;
  agree = λ k. unfold lookup pointer in refl;
}

-- Every history of calls on a new store answers each `Get` as the LRU cache of the same bound
-- does; the bound is 32 where `max` is 0.
pub run-new :
    (max : ℕ) (cs : List Call)
    → run (some (new_resume_store max)) cs ≡ cache_run (if max == 0 then 32 else max) [] cs
unfolding new_resume_store
run-new max cs = run-view (new_resume_store max) cs (new-IsValid max)
