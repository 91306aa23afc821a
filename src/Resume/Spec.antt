-- ===== src/Resume/Spec.antt =====
-- An LRU cache over plain pairs, the most recently used first: what `ResumeStore` promises.
use valyrium.Base.{
  Bool, List, Option, String, [], false, if◌then◌else◌, none, some, take, true, ℕ, ◌=t◌, ◌||◌, ◌∷◌,
}

abbrev pub Cache : Type 0
Cache = List (String × String)

unfoldable pub cached : String → Cache → Option String
cached k [] = none
cached k ((j, v) ∷ c) = if j =t k then some v else cached k c

unfoldable pub without : String → Cache → Cache
without k [] = []
without k ((j, v) ∷ c) = if j =t k then c else (j, v) ∷ without k c

-- A use moves the pair to the front; a miss changes nothing, and the empty key always misses.
unfoldable pub cache_get : String → Cache → Cache × (String × Bool)
cache_get k c = if k =t "" then (c, ("", false)) else (elim (cached k c) [
  | none ↦ (c, ("", false))
  | some v ↦ ((k, v) ∷ without k c, (v, true))
])

-- A write puts the pair in front, and what exceeds the bound falls off the other end. An empty
-- key or value writes nothing.
unfoldable pub cache_put : ℕ → String → String → Cache → Cache
cache_put max k v c = if k =t "" || v =t "" then c else take max ((k, v) ∷ without k c)
