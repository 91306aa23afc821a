-- ===== src/Base/Dict.antt =====
-- Go's maps as association lists: a key occurs once, since an insertion replaces.
use Prim.Native.Nat.{ℕ, ◌+◌, ◌≤◌}
use Prim.Native.String.{String}
use mathlib.Core.Path.{◌≡◌, refl}
use mathlib.Core.Logic.{◌↔◌}
use mathlib.Core.Bool.{Bool, true}
use mathlib.Core.Option.{Option, none, some}
use mathlib.Core.List.{List, [], ◌∷◌}
use native.Mathlib.Omega.{arith}
use valyrium.Base.Tests.{◌==◌ as same_number, ==_iff, ◌=t◌, text_iff, if◌then◌else◌}
use valyrium.Base.Lists.{length}

-- Keys that can be compared.
pub record Key {ℓ} (K : Type ℓ) : Type ℓ where
  pub same : K → K → Bool
  pub same_iff : (a b : K) → (same a b ≡ true) ↔ (a ≡ b)

instance abbrev pub number_key : Key ℕ
number_key = record { same = same_number; same_iff = ==_iff }

instance abbrev pub text_key : Key String
text_key = record { same = ◌=t◌; same_iff = text_iff }

module _ {ℓ κ} {K : Type ℓ} {V : Type κ} ⦃e : Key K⦄ where
  unfoldable pub lookup : K → List (K × V) → Option V
  lookup k [] = none
  lookup k ((j, v) ∷ m) = if e.same j k then some v else lookup k m

  unfoldable pub insert : K → V → List (K × V) → List (K × V)
  insert k v [] = (k, v) ∷ []
  insert k v ((j, w) ∷ m) = if e.same j k then (k, v) ∷ m else (j, w) ∷ insert k v m

  unfoldable pub delete : K → List (K × V) → List (K × V)
  delete k [] = []
  delete k ((j, v) ∷ m) = if e.same j k then delete k m else (j, v) ∷ delete k m

  pub lookup-insert :
      (k j : K) (v : V) (m : List (K × V))
      → lookup j (insert k v m) ≡ (if e.same k j then some v else lookup j m)
  unfolding lookup insert
  lookup-insert k j v [] = refl
  lookup-insert k j v ((i, w) ∷ m) =
      ground (arith, e.same_iff k j, e.same_iff i k, e.same_iff i j, lookup-insert k j v m)

  pub lookup-delete :
      (k j : K) (m : List (K × V))
      → lookup j (delete k m) ≡ (if e.same k j then none else lookup j m)
  unfolding lookup delete
  lookup-delete k j [] = ground arith
  lookup-delete k j ((i, w) ∷ m) =
      ground (arith, e.same_iff k j, e.same_iff i k, e.same_iff i j, lookup-delete k j m)

  pub length-insert :
      (k : K) (v : V) (m : List (K × V))
      → length (insert k v m) ≡ (elim (lookup k m) [ none ↦ length m + 1 | some _ ↦ length m ])
  unfolding lookup insert
  length-insert k v [] = omega arith
  length-insert k v ((i, w) ∷ m) = ground (arith, length-insert k v m)

  pub length-delete_le : (k : K) (m : List (K × V)) → length (delete k m) ≤ length m
  unfolding delete
  length-delete_le k [] = omega arith
  length-delete_le k ((i, w) ∷ m) = ground (arith, length-delete_le k m)

  -- Each key once: what a Go map is. `insert` and `delete` keep it.
  abbrev pub Unique : List (K × V) → Type κ
  Unique [] = Unit
  Unique ((k, v) ∷ m) = (lookup k m ≡ none) × Unique m

  pub insert-Unique : (k : K) (v : V) (m : List (K × V)) → Unique m → Unique (insert k v m)
  unfolding insert lookup
  insert-Unique k v [] u = (refl, tt)
  insert-Unique k v ((i, w) ∷ m) u =
      ground (arith, insert-Unique k v m u.1, lookup-insert k i v m, e.same_iff i k, e.same_iff k i)

  pub delete-Unique : (k : K) (m : List (K × V)) → Unique m → Unique (delete k m)
  unfolding delete
  delete-Unique k [] u = tt
  delete-Unique k ((i, w) ∷ m) u = ground (arith, delete-Unique k m u.1, lookup-delete k i m)
