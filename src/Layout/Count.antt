-- ===== src/Layout/Count.antt =====
-- How often a list names a session.
use Prim.Native.String.{String}
use text.Mathlib.Text.{◌==◌ as str_eq}
use text.Mathlib.TextEquality.{eq_iff}
use termulaa.Prelude.{ℕ, ◌+◌, ◌≤◌, ◌<◌, List, [], ◌∷◌, ◌++◌, ◌≡◌, arith, if◌then◌else◌, length}

abbrev pub once : String → String → ℕ
once x y = if str_eq y x then 1 else 0

abbrev pub count : String → List String → ℕ
count x [] = 0
count x (y ∷ ys) = once x y + count x ys

pub count-append : (x : String) (ys zs : List String) → count x (ys ++ zs) ≡ count x ys + count x zs
count-append x [] zs = omega arith
count-append x (y ∷ ys) zs = omega (arith, count-append x ys zs)

remove : String → List String → List String
remove x [] = []
remove x (y ∷ ys) = let rest = remove x ys in if str_eq y x then ys else y ∷ rest

count-remove :
    (x y : String) (ys : List String)
    → 0 < count x ys
    → count y (remove x ys) + once y x ≡ count y ys
unfolding remove
count-remove x y [] h = absurd (omega arith)
count-remove x y (z ∷ ys) h =
    ground (arith, eq_iff z x, eq_iff x y, eq_iff z y, count-remove x y ys)

length-remove :
    (x : String) (ys : List String) → 0 < count x ys → length (remove x ys) + 1 ≡ length ys
unfolding remove
length-remove x [] h = absurd (omega arith)
length-remove x (z ∷ ys) h = ground (arith, length-remove x ys)

-- A list that another has, each name as often at least, is not longer.
pub count-length :
    (xs ys : List String) → ((y : String) → count y xs ≤ count y ys) → length xs ≤ length ys
count-length [] ys h = omega arith
count-length (x ∷ xs) ys h =
    let there : 0 < count x ys = ground (arith, h x, eq_iff x x) in
    omega (
      arith,
      length-remove x ys there,
      count-length xs (remove x ys) (λ y. omega (arith, h y, count-remove x y ys there)),
    )
