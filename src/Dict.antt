-- ===== src/Dict.antt =====
-- A Go map from strings, as an association list with one entry for each key.
use Prim.Native.String.{String}
use text.Mathlib.Text.{◌==◌ as str_eq}
use text.Mathlib.TextEquality.{eq_iff}
use termulaa.Prelude.{
  Bool, true, false, ◌||◌, List, [], ◌∷◌, Option, none, some, ◌≡◌, refl, arith, if◌then◌else◌,
  Bool-cases, inl, inr,
}

module _ {ℓ} {V : Type ℓ} where
  unfoldable pub insert : String → V → List (String × V) → List (String × V)
  insert k v [] = (k, v) ∷ []
  insert k v ((j, u) ∷ m) = if str_eq j k then (k, v) ∷ m else (j, u) ∷ insert k v m

  -- With the zero value for a missing key.
  unfoldable pub get : V → String → List (String × V) → V
  get zero_value k [] = zero_value
  get zero_value k ((j, u) ∷ m) = if str_eq j k then u else get zero_value k m

  unfoldable pub lookup : String → List (String × V) → Option V
  lookup k [] = none
  lookup k ((j, u) ∷ m) = if str_eq j k then some u else lookup k m

  unfoldable pub has : String → List (String × V) → Bool
  has k [] = false
  has k ((j, u) ∷ m) = str_eq j k || has k m

  -- `delete`
  unfoldable pub delete : String → List (String × V) → List (String × V)
  delete k [] = []
  delete k ((j, u) ∷ m) = let rest = delete k m in if str_eq j k then rest else (j, u) ∷ rest

  pub has-insert :
      (k j : String) (v : V) (m : List (String × V))
      → has j (insert k v m) ≡ (if str_eq k j then true else has j m)
  unfolding has insert
  has-insert k j v [] = ground arith
  has-insert k j v ((i, u) ∷ m) =
      ground (arith, eq_iff k j, eq_iff i k, eq_iff i j, has-insert k j v m)

  pub has-delete :
      (k j : String) (m : List (String × V))
      → has j (delete k m) ≡ (if str_eq k j then false else has j m)
  unfolding has delete
  has-delete k j [] = ground arith
  has-delete k j ((i, u) ∷ m) = ground (arith, eq_iff k j, eq_iff i k, eq_iff i j, has-delete k j m)

  pub has-lookup :
      (k : String) (v : V) (m : List (String × V)) → lookup k m ≡ some v → has k m ≡ true
  unfolding has lookup
  has-lookup k v [] h = cc
  has-lookup k v ((i, u) ∷ m) h = ground (arith, has-lookup k v m)

  pub lookup-has :
      (k : String) (m : List (String × V)) → has k m ≡ true → (v : V) × (lookup k m ≡ some v)
  unfolding has lookup
  lookup-has k [] h = cc
  lookup-has k ((i, u) ∷ m) h = elim (Bool-cases (str_eq i k)) [
    | inl same ↦ rw same (u, refl)
    | inr other ↦ rw other (lookup-has k m (ground (arith, other)))
  ]

  pub lookup-insert :
      (k j : String) (v : V) (m : List (String × V))
      → lookup j (insert k v m) ≡ (if str_eq k j then some v else lookup j m)
  unfolding lookup insert
  lookup-insert k j v [] = ground arith
  lookup-insert k j v ((i, u) ∷ m) =
      ground (arith, eq_iff k j, eq_iff i k, eq_iff i j, lookup-insert k j v m)

  pub lookup-delete :
      (k j : String) (m : List (String × V))
      → lookup j (delete k m) ≡ (if str_eq k j then none else lookup j m)
  unfolding lookup delete
  lookup-delete k j [] = ground arith
  lookup-delete k j ((i, u) ∷ m) =
      ground (arith, eq_iff k j, eq_iff i k, eq_iff i j, lookup-delete k j m)

  pub get-insert :
      (z : V) (k j : String) (v : V) (m : List (String × V))
      → get z j (insert k v m) ≡ (if str_eq k j then v else get z j m)
  unfolding get insert
  get-insert z k j v [] = ground arith
  get-insert z k j v ((i, u) ∷ m) =
      ground (arith, eq_iff k j, eq_iff i k, eq_iff i j, get-insert z k j v m)

  pub get-delete :
      (z : V) (k j : String) (m : List (String × V))
      → get z j (delete k m) ≡ (if str_eq k j then z else get z j m)
  unfolding get delete
  get-delete z k j [] = ground arith
  get-delete z k j ((i, u) ∷ m) =
      ground (arith, eq_iff k j, eq_iff i k, eq_iff i j, get-delete z k j m)
