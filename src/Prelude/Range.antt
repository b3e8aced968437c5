-- ===== src/Prelude/Range.antt =====
-- Slices, `copy` and loops over an index range, as operations on lists that keep the length.
use Prim.Native.Nat.{ℕ, zero, suc}
use mathlib.Core.Path.{◌≡◌, refl, ap}
use mathlib.Core.List.{List, [], ◌∷◌, ◌++◌}
use termulaa.Prelude.Lists.{length, take, drop, replicate}

module _ {ℓ} {A : Type ℓ} where
  -- xs[a:b]
  abbrev pub slice : List A → ℕ → ℕ → List A
  slice xs a b = drop a (take b xs)

  -- `copy(xs[i:], ys)`: as many of ys as there is room for.
  abbrev pub copy_at : List A → ℕ → List A → List A
  copy_at [] i ys = []
  copy_at (x ∷ xs) (suc i) ys = x ∷ copy_at xs i ys
  copy_at (x ∷ xs) zero [] = x ∷ xs
  copy_at (x ∷ xs) zero (y ∷ ys) = y ∷ copy_at xs zero ys

  -- `for i := a; i < b; i++ { xs[i] = f(xs[i]) }` over the indices that exist.
  abbrev pub map_range : (A → A) → ℕ → ℕ → List A → List A
  map_range f a b [] = []
  map_range f zero zero (x ∷ xs) = x ∷ xs
  map_range f (suc a) zero (x ∷ xs) = x ∷ xs
  map_range f zero (suc b) (x ∷ xs) = f x ∷ map_range f zero b xs
  map_range f (suc a) (suc b) (x ∷ xs) = x ∷ map_range f a b xs

  -- xs[i] = f(xs[i])
  abbrev pub modify : ℕ → (A → A) → List A → List A
  modify i f [] = []
  modify zero f (x ∷ xs) = f x ∷ xs
  modify (suc i) f (x ∷ xs) = x ∷ modify i f xs

  pub length-copy_at : (xs : List A) (i : ℕ) (ys : List A) → length (copy_at xs i ys) ≡ length xs
  length-copy_at [] i ys = refl
  length-copy_at (x ∷ xs) (suc i) ys = ap suc (length-copy_at xs i ys)
  length-copy_at (x ∷ xs) zero [] = refl
  length-copy_at (x ∷ xs) zero (y ∷ ys) = ap suc (length-copy_at xs zero ys)

  pub length-map_range :
      (f : A → A) (a b : ℕ) (xs : List A) → length (map_range f a b xs) ≡ length xs
  length-map_range f a b [] = refl
  length-map_range f zero zero (x ∷ xs) = refl
  length-map_range f (suc a) zero (x ∷ xs) = refl
  length-map_range f zero (suc b) (x ∷ xs) = ap suc (length-map_range f zero b xs)
  length-map_range f (suc a) (suc b) (x ∷ xs) = ap suc (length-map_range f a b xs)

  pub length-modify : (i : ℕ) (f : A → A) (xs : List A) → length (modify i f xs) ≡ length xs
  length-modify i f [] = refl
  length-modify zero f (x ∷ xs) = refl
  length-modify (suc i) f (x ∷ xs) = ap suc (length-modify i f xs)

-- Every element has the property.
module _ {ℓ κ} {A : Type ℓ} (P : A → Type κ) where
  pub data All : List A → Type (ℓ ⊔ κ) where
    nil : All []
    cons : {x : A} {xs : List A} → P x → All xs → All (x ∷ xs)

module _ {ℓ κ} {A : Type ℓ} {P : A → Type κ} where
  pub All-take : (n : ℕ) {xs : List A} → All P xs → All P (take n xs)
  All-take zero h = nil
  All-take (suc n) nil = nil
  All-take (suc n) (cons p h) = cons p (All-take n h)

  pub All-drop : (n : ℕ) {xs : List A} → All P xs → All P (drop n xs)
  All-drop zero h = h
  All-drop (suc n) nil = nil
  All-drop (suc n) (cons p h) = All-drop n h

  pub All-append : {xs ys : List A} → All P xs → All P ys → All P (xs ++ ys)
  All-append nil k = k
  All-append (cons p h) k = cons p (All-append h k)

  pub All-replicate : (n : ℕ) (a : A) → P a → All P (replicate n a)
  All-replicate zero a p = nil
  All-replicate (suc n) a p = cons p (All-replicate n a p)

  pub All-copy_at : (i : ℕ) {xs ys : List A} → All P xs → All P ys → All P (copy_at xs i ys)
  All-copy_at i nil k = nil
  All-copy_at (suc i) (cons p h) k = cons p (All-copy_at i h k)
  All-copy_at zero (cons p h) nil = cons p h
  All-copy_at zero (cons p h) (cons q k) = cons q (All-copy_at zero h k)

  pub All-map_range :
      (f : A → A) (a b : ℕ) {xs : List A}
      → ((x : A) → P x → P (f x))
      → All P xs
      → All P (map_range f a b xs)
  All-map_range f a b k nil = nil
  All-map_range f zero zero k (cons p h) = cons p h
  All-map_range f (suc a) zero k (cons p h) = cons p h
  All-map_range f zero (suc b) k (cons {x} p h) = cons (k x p) (All-map_range f zero b k h)
  All-map_range f (suc a) (suc b) k (cons p h) = cons p (All-map_range f a b k h)

  pub All-modify :
      (i : ℕ) (f : A → A) {xs : List A}
      → ((x : A) → P x → P (f x))
      → All P xs
      → All P (modify i f xs)
  All-modify i f k nil = nil
  All-modify zero f k (cons {x} p h) = cons (k x p) h
  All-modify (suc i) f k (cons p h) = cons p (All-modify i f k h)
