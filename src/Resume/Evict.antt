-- ===== src/Resume/Evict.antt =====
-- The eviction loop of `Put`.
use valyrium.Base.{
  ==_iff, Bool-cases, List, Option-cases, String, [], ap, arith, dec_le, inl, inr, length, lookup,
  lookup-delete, lookup-insert, ltb, none, refl, some, suc, sym, take, take_all, text_key, zero, ℕ,
  ◌+◌, ◌<◌, ◌==◌, ◌∷◌, ◌≡◌, ◌≤◌,
}
use valyrium.Resume.{Element, ResumeStore, back, evict, evict_one, find, len, push_front, remove}
use valyrium.Resume.Valid.{
  Distinct, Distinct-mono, Distinct-remove, IsValid, find-fresh, pointer, pointer-remove,
}
use valyrium.Resume.View.{length-remove, length-view, view}

-- The new element of a key that is not there; the list may now exceed the bound by one.
pub record IsAlmostValid (rs : ResumeStore) : Type 0 where
  pub positive : 0 < rs.max
  pub over : length rs.order ≤ rs.max + 1
  pub distinct : Distinct rs.next_id rs.order
  pub agree : (k : String) → lookup k rs.entries ≡ pointer k rs.order

pub push_front-IsAlmostValid :
    (rs : ResumeStore) (k s : String)
    → IsValid rs
    → pointer k rs.order ≡ none
    → IsAlmostValid (push_front rs k s)
unfolding push_front pointer
push_front-IsAlmostValid rs k s v absent = record {
  positive = v.positive;
  over = omega (arith, v.bounded);
  distinct = (
    omega arith,
    absent,
    find-fresh rs.next_id rs.next_id rs.order v.distinct (omega arith),
    Distinct-mono rs.next_id (rs.next_id + 1) rs.order (omega arith) v.distinct,
  );
  agree = λ j. ground (arith, lookup-insert k j rs.next_id rs.entries, v.agree j);
}

back-find :
    (n : ℕ) (els : List Element) (el : Element)
    → Distinct n els
    → back els ≡ some el
    → find el.id els ≡ some el
unfolding back find
back-find n [] el d h = cc
back-find n (x ∷ []) el d h = ground arith
back-find n (x ∷ y ∷ els) el d h =
    let ih = back-find n (y ∷ els) el d.3 h in
    elim (Bool-cases (x.id == el.id)) [
      | inl same ↦ cc (d.2, ih, (==_iff x.id el.id).0 same)
      | inr differ ↦ rw differ ih
    ]

view-remove-back :
    (n m : ℕ) (els : List Element) (el : Element)
    → Distinct n els
    → back els ≡ some el
    → length els ≡ suc m
    → view (remove el.id els) ≡ take m (view els)
unfolding back remove find
view-remove-back n m [] el d h len = cc
view-remove-back n zero (x ∷ []) el d h len = ground arith
view-remove-back n (suc m) (x ∷ []) el d h len = absurd (omega arith)
view-remove-back n zero (x ∷ y ∷ els) el d h len = absurd (omega arith)
view-remove-back n (suc m) (x ∷ y ∷ els) el d h len =
    let ih = view-remove-back n m (y ∷ els) el d.3 h (omega arith) in
    let found = back-find n (y ∷ els) el d.3 h in
    elim (Bool-cases (x.id == el.id)) [
      | inl same ↦ cc (d.2, found, (==_iff x.id el.id).0 same)
      | inr differ ↦ rw differ (ap (◌∷◌ (x.key, x.cli_session_id)) ih)
    ]

back-some : (els : List Element) → 0 < length els → (el : Element) × (back els ≡ some el)
unfolding back
back-some [] h = absurd (omega arith)
back-some (x ∷ []) h = (x, refl)
back-some (x ∷ y ∷ els) h = back-some (y ∷ els) (omega arith)

-- One eviction brings the list back to the bound.
evict_one-IsValid :
    (rs : ResumeStore) (el : Element)
    → IsAlmostValid rs
    → back rs.order ≡ some el
    → IsValid (evict_one rs el)
unfolding evict_one
evict_one-IsValid rs el v h =
    let found = back-find rs.next_id rs.order el v.distinct h in
    record {
      positive = v.positive;
      bounded = omega (arith, v.over, length-remove el rs.order found);
      distinct = Distinct-remove rs.next_id el.id rs.order v.distinct;
      agree = λ j. ground (
        arith,
        lookup-delete el.key j rs.entries,
        pointer-remove rs.next_id el j rs.order v.distinct found,
        v.agree j,
      );
    }

-- A loop within the bound does nothing.
evict_within : (fuel : ℕ) (rs : ResumeStore) → length rs.order ≤ rs.max → evict fuel rs ≡ rs
unfolding evict
evict_within zero rs h = refl
evict_within (suc fuel) rs h = ground arith

evict_step :
    (fuel : ℕ) (rs : ResumeStore) (el : Element)
    → rs.max < length rs.order
    → back rs.order ≡ some el
    → evict (suc fuel) rs ≡ evict fuel (evict_one rs el)
unfolding evict
evict_step fuel rs el over e = ground arith

within-IsValid :
    (rs : ResumeStore)
    → IsAlmostValid rs
    → length rs.order ≤ rs.max
    → IsValid rs × (view rs.order ≡ take rs.max (view rs.order))
within-IsValid rs v h = (
  record { positive = v.positive; bounded = h; distinct = v.distinct; agree = v.agree },
  sym (take_all rs.max (view rs.order) (omega (arith, length-view rs.order))),
)

-- The loop of `Put` ends by its test, in a valid store that holds the first `max` elements.
pub evict-IsValid :
    (fuel : ℕ) (rs : ResumeStore)
    → IsAlmostValid rs
    → length rs.order ≤ fuel
    → IsValid (evict fuel rs) × (view (evict fuel rs).order ≡ take rs.max (view rs.order))
evict-IsValid zero rs v h = unfold evict in within-IsValid rs v (omega arith)
evict-IsValid (suc fuel) rs v h = elim (dec_le (length rs.order) rs.max) [
  | yes within ↦ rw (evict_within (suc fuel) rs within) (within-IsValid rs v within)
  | no over ↦
      let (el, e) = back-some rs.order (omega arith) in
      let done = evict_one-IsValid rs el v e in
      rw (evict_step fuel rs el (omega arith) e, evict_within fuel (evict_one rs el) done.bounded)
        (
          done,
          unfold evict_one in
              view-remove-back rs.next_id rs.max rs.order el v.distinct e (omega (arith, v.over)),
        )
]

pub evict-max : (fuel : ℕ) (rs : ResumeStore) → (evict fuel rs).max ≡ rs.max
unfolding evict evict_one
evict-max zero rs = refl
evict-max (suc fuel) rs = elim (Bool-cases (ltb rs.max (length rs.order))) [
  | inr within ↦ rw (within, evict)
  | inl over ↦ elim (Option-cases (back rs.order)) [
    | inl e ↦ rw (over, e, evict)
    | inr (el, e) ↦ rw (over, e, evict) (evict-max fuel (evict_one rs el))
  ]
]
