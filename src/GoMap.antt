-- ===== src/GoMap.antt =====
-- Go's maps with string keys, as association lists. Ranging over a map is walking the list: Go
-- leaves the order open, and the statements of the library hold for every list, so for every order.
pub mod Laws
use pgfga.Base.{
  ◌≡◌, String, Bool, true, false, Option, none, some, List, [], ◌∷◌, ◌==◌, if◌then◌else◌,
}

abbrev pub Map {ℓ} : Type ℓ → Type ℓ
Map V = List (String × V)

module _ {ℓ} {V : Type ℓ} where
  -- v, exists := m[k]
  unfoldable pub lookup : String → Map V → Option V
  lookup k [] = none
  lookup k ((j, v) ∷ m) = if j == k then some v else lookup k m

  -- m[k] = v
  unfoldable pub put : String → V → Map V → Map V
  put k v [] = (k, v) ∷ []
  put k v ((j, w) ∷ m) = if j == k then (j, v) ∷ m else (j, w) ∷ put k v m

  unfoldable pub contains : String → Map V → Bool
  contains k m = elim (lookup k m) [ none ↦ false | some _ ↦ true ]

  -- for _, x := range xs { m[key(x)] = val(x) }
  unfoldable pub put_all {κ} : {A : Type κ} → (A → String) → (A → V) → Map V → List A → Map V
  put_all key val m [] = m
  put_all key val m (x ∷ xs) = put_all key val (put (key x) (val x) m) xs
