-- ===== src/GoMap/Laws.antt =====
-- Reading after writing, and what a write keeps.
use mathlib.Core.Path.{subst₂}
use mathlib.Core.Option.{some-injective}
use pgfga.Base.{
  String, ◌≡◌, refl, true, Option, none, some, List, [], ◌∷◌, ◌==◌, eq_iff, eq_refl, if◌then◌else◌,
  arith, Bool-cases, inl, inr, subst, sym, ap, ◌∙◌, All,
}
use pgfga.GoMap.{Map, lookup, put, contains, put_all}

module _ {ℓ} {V : Type ℓ} where
  pub lookup-put :
      (k j : String) (v : V) (m : Map V)
      → lookup j (put k v m) ≡ (if k == j then some v else lookup j m)
  unfolding lookup put
  lookup-put k j v [] = refl
  lookup-put k j v ((i, w) ∷ m) =
      ground (arith, eq_iff k j, eq_iff i k, eq_iff i j, lookup-put k j v m)

  -- The second write of a key covers the first.
  pub put-put : (k : String) (v w : V) (m : Map V) → put k v (put k w m) ≡ put k v m
  unfolding put
  put-put k v w [] = simp eq_refl
  put-put k v w ((i, x) ∷ m) = elim (Bool-cases (i == k)) [
    | inl same ↦ rw same (rw same refl)
    | inr other ↦ rw other (rw other (ap (λ r. (i, x) ∷ r) (put-put k v w m)))
  ]

  pub contains-put :
      (k j : String) (v : V) (m : Map V)
      → contains j (put k v m) ≡ (if k == j then true else contains j m)
  unfolding contains
  contains-put k j v m = ground (arith, lookup-put k j v m)

  pub lookup-cons :
      (k j : String) (v : V) (m : Map V)
      → lookup k ((j, v) ∷ m) ≡ (if j == k then some v else lookup k m)
  unfolding lookup
  lookup-cons k j v m = refl

  pub contains-cons :
      (k j : String) (v : V) (m : Map V)
      → contains k ((j, v) ∷ m) ≡ (if j == k then true else contains k m)
  unfolding contains lookup
  contains-cons k j v m = ground arith

-- A predicate of every entry.
abbrev pub AllEntries {ℓ} : {V : Type ℓ} → (String → V → Type 0) → Map V → Type 0
AllEntries P [] = Unit
AllEntries P ((k, v) ∷ m) = P k v × AllEntries P m

pub AllEntries-mono {ℓ} :
    {V : Type ℓ} (P Q : String → V → Type 0) (m : Map V)
    → ((k : String) (v : V) → P k v → Q k v)
    → AllEntries P m
    → AllEntries Q m
AllEntries-mono P Q [] f h = tt
AllEntries-mono P Q ((k, v) ∷ m) f h = (f k v h.0, AllEntries-mono P Q m f h.1)

module _ {ℓ} {V : Type ℓ} (P : String → V → Type 0) where
  pub AllEntries-lookup :
      (k : String) (v : V) (m : Map V) → AllEntries P m → lookup k m ≡ some v → P k v
  unfolding lookup
  AllEntries-lookup k v [] h e = ground arith
  AllEntries-lookup k v ((i, w) ∷ m) h e = elim (Bool-cases (i == k)) [
    | inl same ↦ subst₂ P ((eq_iff i k).0 same) (some-injective w v (rw same at e)) h.0
    | inr other ↦ AllEntries-lookup k v m h.1 (rw other at e)
  ]

  pub AllEntries-put :
      (k : String) (v : V) (m : Map V) → P k v → AllEntries P m → AllEntries P (put k v m)
  unfolding put
  AllEntries-put k v [] p h = (p, tt)
  AllEntries-put k v ((i, w) ∷ m) p h = elim (Bool-cases (i == k)) [
    | inl same ↦ rw same (subst (λ j. P j v) (sym ((eq_iff i k).0 same)) p, h.1)
    | inr other ↦ rw other (h.0, AllEntries-put k v m p h.1)
  ]

-- What the last element with the key says, if there is one.
unfoldable pub last_of {ℓ κ} :
    {V : Type ℓ} {A : Type κ} → (A → String) → (A → V) → String → List A → Option V
last_of key val j [] = none
last_of key val j (x ∷ xs) = elim (last_of key val j xs) [
  | some v ↦ some v
  | none ↦ if key x == j then some (val x) else none
]

abbrev pub or_else {ℓ} : {V : Type ℓ} → Option V → Option V → Option V
or_else (some v) _ = some v
or_else none o = o

module _ {ℓ κ} {V : Type ℓ} {A : Type κ} (key : A → String) (val : A → V) where
  -- In a loop of writes the last write of a key counts.
  pub lookup-put_all :
      (j : String) (m : Map V) (xs : List A)
      → lookup j (put_all key val m xs) ≡ or_else (last_of key val j xs) (lookup j m)
  unfolding put_all last_of
  lookup-put_all j m [] = refl
  lookup-put_all j m (x ∷ xs) =
      lookup-put_all j (put (key x) (val x) m) xs ∙ ground (arith, lookup-put (key x) j (val x) m)

  pub AllEntries-put_all :
      (P : String → V → Type 0) (m : Map V) (xs : List A)
      → All (λ x. P (key x) (val x)) xs
      → AllEntries P m
      → AllEntries P (put_all key val m xs)
  unfolding put_all
  AllEntries-put_all P m [] a h = h
  AllEntries-put_all P m (x ∷ xs) a h =
      AllEntries-put_all P (put (key x) (val x) m) xs a.1 (AllEntries-put P (key x) (val x) m a.0 h)
