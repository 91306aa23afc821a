-- ===== src/Resume/View.antt =====
-- The list of a `ResumeStore` as a cache, and what a move to the front does to it.
use valyrium.Base.{
  List, String, [], ap, arith, inl, inr, length, none, refl, some, suc, text_iff, ℕ, ◌∙◌, ◌∷◌, ◌≡◌,
  ◌⊎◌,
}
use valyrium.Resume.{Element, ResumeStore, entry, find, move_to_front, remove}
use valyrium.Resume.Spec.{Cache, cached, without}
use valyrium.Resume.Valid.{
  Distinct, Distinct-remove, IsValid, find-pointer, find-remove_self, pointer, pointer-remove,
  pointer_found, pointer_of_find,
}

-- The list as a cache.
abbrev pub view : List Element → Cache
view [] = []
view (el ∷ els) = (el.key, el.cli_session_id) ∷ view els

pub length-view : (els : List Element) → length (view els) ≡ length els
length-view [] = refl
length-view (el ∷ els) = ap suc (length-view els)

-- A key's element, by the map and by the list.
pub entry-cases :
    (rs : ResumeStore) (k : String)
    → IsValid rs
    → ((entry rs k ≡ none) × (pointer k rs.order ≡ none))
      ⊎ ((el : Element) × (entry rs k ≡ some el)
          × (pointer k rs.order ≡ some el.id)
          × (find el.id rs.order ≡ some el)
          × (el.key ≡ k))
unfolding entry
entry-cases rs k v = elim (find-pointer rs.next_id k rs.order v.distinct) [
  | inl e ↦ inl (rw (v.agree k, e, entry), e)
  | inr (el, p, f, e) ↦ inr (el, rw (v.agree k, p, entry) f, p, f, e)
]

pub cached-view-none :
    (k : String) (els : List Element) → pointer k els ≡ none → cached k (view els) ≡ none
unfolding pointer cached
cached-view-none k [] h = refl
cached-view-none k (el ∷ els) h = ground (arith, cached-view-none k els)

pub cached-view :
    (n : ℕ) (el : Element) (els : List Element)
    → Distinct n els
    → find el.id els ≡ some el
    → cached el.key (view els) ≡ some el.cli_session_id
unfolding find cached
cached-view n el [] d h = cc
cached-view n el (x ∷ els) d h =
    ground (arith, cached-view n el els d.3, pointer_of_find el.id el els, text_iff x.key el.key)

pub without-view-none :
    (k : String) (els : List Element) → pointer k els ≡ none → without k (view els) ≡ view els
unfolding pointer without
without-view-none k [] h = refl
without-view-none k (el ∷ els) h = ground (arith, without-view-none k els)

pub without-view :
    (n : ℕ) (el : Element) (els : List Element)
    → Distinct n els
    → find el.id els ≡ some el
    → without el.key (view els) ≡ view (remove el.id els)
unfolding find remove without
without-view n el [] d h = cc
without-view n el (x ∷ els) d h =
    ground (arith, without-view n el els d.3, pointer_of_find el.id el els, text_iff x.key el.key)

pub length-remove :
    (el : Element) (els : List Element)
    → find el.id els ≡ some el
    → length els ≡ suc (length (remove el.id els))
unfolding find remove
length-remove el [] h = cc
length-remove el (x ∷ els) h = ground (arith, length-remove el els)

moved-pointer :
    (rs : ResumeStore) (el el' : Element) (j : String)
    → IsValid rs
    → find el.id rs.order ≡ some el
    → el'.id ≡ el.id
    → el'.key ≡ el.key
    → pointer j rs.order ≡ pointer j (el' ∷ remove el'.id rs.order)
unfolding pointer
moved-pointer rs el el' j v f i k = ground (
  arith,
  pointer-remove rs.next_id el j rs.order v.distinct f,
  pointer_found rs.next_id el.id el rs.order v.distinct f,
  text_iff el.key j,
)

-- A move to the front, whatever is written into the element on the way, keeps the invariant.
pub moved-IsValid :
    (rs : ResumeStore) (el el' : Element)
    → IsValid rs
    → find el.id rs.order ≡ some el
    → el'.id ≡ el.id
    → el'.key ≡ el.key
    → IsValid (record rs { order = move_to_front el' rs.order })
unfolding move_to_front
moved-IsValid rs el el' v f i k = record {
  positive = v.positive;
  bounded = rw i (omega (arith, v.bounded, length-remove el rs.order f));
  distinct = (
    rw i (pointer_found rs.next_id el.id el rs.order v.distinct f).1,
    ground (
      arith,
      pointer-remove rs.next_id el el'.key rs.order v.distinct f,
      text_iff el.key el'.key,
    ),
    find-remove_self rs.next_id el'.id rs.order v.distinct,
    Distinct-remove rs.next_id el'.id rs.order v.distinct,
  );
  agree = λ j. v.agree j ∙ moved-pointer rs el el' j v f i k;
}
