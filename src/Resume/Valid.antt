-- ===== src/Resume/Valid.antt =====
-- The invariant that ties the map of a `ResumeStore` to its list.
use valyrium.Base.{
  ==_iff, ==_refl, Bool-cases, List, Option, String, [], arith, if◌then◌else◌, inl, inr, length,
  lookup, none, refl, some, text_iff, text_key, ℕ, ◌<◌, ◌=t◌, ◌∷◌, ◌≡◌, ◌≢◌, ◌≤◌, ◌⊎◌,
}
use valyrium.Resume.{Element, ResumeStore, find, remove}

-- The allocation number of the element with this key.
unfoldable pub pointer : String → List Element → Option ℕ
pointer k [] = none
pointer k (el ∷ els) = if el.key =t k then some el.id else pointer k els

-- Keys and allocation numbers occur once, and the numbers lie below `n`.
abbrev pub Distinct : ℕ → List Element → Type 0
Distinct n [] = Unit {0}
Distinct n (el ∷ els) =
    (el.id < n) × (pointer el.key els ≡ none) × (find el.id els ≡ none) × Distinct n els

pub record IsValid (rs : ResumeStore) : Type 0 where
  pub positive : 0 < rs.max
  pub bounded : length rs.order ≤ rs.max
  pub distinct : Distinct rs.next_id rs.order
  pub agree : (k : String) → lookup k rs.entries ≡ pointer k rs.order

pub Distinct-mono : (m n : ℕ) (els : List Element) → m ≤ n → Distinct m els → Distinct n els
Distinct-mono m n [] h d = tt
Distinct-mono m n (el ∷ els) h d = (omega arith, d.1, d.2, Distinct-mono m n els h d.3)

pub find-fresh : (n p : ℕ) (els : List Element) → Distinct n els → n ≤ p → find p els ≡ none
unfolding find
find-fresh n p [] d h = refl
find-fresh n p (el ∷ els) d h = ground (arith, find-fresh n p els d.3)

-- The two ways to reach an element agree.
pub find-pointer :
    (n : ℕ) (k : String) (els : List Element)
    → Distinct n els
    → (pointer k els ≡ none)
      ⊎ ((el : Element) × (pointer k els ≡ some el.id) × (find el.id els ≡ some el) × (el.key ≡ k))
unfolding pointer find
find-pointer n k [] d = inl refl
find-pointer n k (el ∷ els) d = elim (Bool-cases (el.key =t k)) [
  | inl hit ↦ inr (el, rw hit, rw ==_refl, (text_iff el.key k).0 hit)
  | inr miss ↦ elim (find-pointer n k els d.3) [
    | inl e ↦ inl (rw miss e)
    | inr (x, p, f, e) ↦ inr (x, rw miss p, ground arith, e)
  ]
]

-- Removal takes out one element: the keys and numbers of the others stay.
pub find-remove : (p q : ℕ) (els : List Element) → find p els ≡ none → find p (remove q els) ≡ none
unfolding find remove
find-remove p q [] h = refl
find-remove p q (el ∷ els) h = ground (arith, find-remove p q els)

pub pointer-remove-none :
    (k : String) (q : ℕ) (els : List Element)
    → pointer k els ≡ none
    → pointer k (remove q els) ≡ none
unfolding pointer remove
pointer-remove-none k q [] h = refl
pointer-remove-none k q (el ∷ els) h = ground (arith, pointer-remove-none k q els)

pub Distinct-remove : (n q : ℕ) (els : List Element) → Distinct n els → Distinct n (remove q els)
unfolding remove
Distinct-remove n q [] d = tt
Distinct-remove n q (el ∷ els) d =
    ground (
      arith,
      Distinct-remove n q els d.3,
      find-remove el.id q els,
      pointer-remove-none el.key q els,
    )

pub find-remove_self :
    (n p : ℕ) (els : List Element) → Distinct n els → find p (remove p els) ≡ none
unfolding find remove
find-remove_self n p [] d = refl
find-remove_self n p (el ∷ els) d = ground (arith, find-remove_self n p els d.3)

pub pointer_of_find :
    (p : ℕ) (el : Element) (els : List Element) → find p els ≡ some el → pointer el.key els ≢ none
unfolding find pointer
pointer_of_find p el [] h = cc
pointer_of_find p el (x ∷ els) h = ground (arith, pointer_of_find p el els, text_iff x.key el.key)

pub pointer_found :
    (n p : ℕ) (el : Element) (els : List Element)
    → Distinct n els
    → find p els ≡ some el
    → (pointer el.key els ≡ some p) × (p < n)
unfolding find pointer
pointer_found n p el [] d h = cc
pointer_found n p el (x ∷ els) d h =
    ground (arith, pointer_found n p el els d.3, pointer_of_find p el els, text_iff x.key el.key)

-- The pointers after a removal: the removed element's key has none any more.
pub pointer-remove :
    (n : ℕ) (el : Element) (k : String) (els : List Element)
    → Distinct n els
    → find el.id els ≡ some el
    → pointer k (remove el.id els) ≡ (if el.key =t k then none else pointer k els)
unfolding pointer find remove
pointer-remove n el k [] d h = cc
pointer-remove n el k (x ∷ els) d h = ground (
  arith,
  pointer-remove n el k els d.3,
  pointer_of_find el.id el els,
  text_iff x.key k,
  text_iff el.key k,
  text_iff x.key el.key,
  ==_iff x.id el.id,
)
