-- ===== src/Prelude/Suffix.antt =====
-- Taking, dropping and copying at the joint of two lists.
use Prim.Native.Nat.{ℕ, zero, suc, ◌-◌, ◌≤◌}
use mathlib.Core.Path.{◌≡◌, refl, ap, ◌∙◌}
use mathlib.Core.List.{List, [], ◌∷◌, ◌++◌}
use native.Mathlib.Omega.{arith}
use termulaa.Prelude.Lists.{length, drop}
use termulaa.Prelude.Range.{copy_at}

module _ {ℓ} {A : Type ℓ} where
  pub drop-append_ge :
      (xs ys : List A) (n : ℕ) → length xs ≤ n → drop n (xs ++ ys) ≡ drop (n - length xs) ys
  drop-append_ge [] ys n h = ap (λ k. drop k ys) (omega arith)
  drop-append_ge (x ∷ xs) ys zero h = absurd (omega arith)
  drop-append_ge (x ∷ xs) ys (suc n) h =
      drop-append_ge xs ys n (omega arith) ∙ ap (λ k. drop k ys) (omega arith)

  pub drop-append_le :
      (xs ys : List A) (n : ℕ) → n ≤ length xs → drop n (xs ++ ys) ≡ drop n xs ++ ys
  drop-append_le xs ys zero h = refl
  drop-append_le [] ys (suc n) h = absurd (omega arith)
  drop-append_le (x ∷ xs) ys (suc n) h = drop-append_le xs ys n (omega arith)

  -- `copy` to the front: as many as there is room for.
  pub copy_at_front :
      (xs ys : List A) → length ys ≤ length xs → copy_at xs 0 ys ≡ ys ++ drop (length ys) xs
  copy_at_front [] [] h = refl
  copy_at_front [] (y ∷ ys) h = absurd (omega arith)
  copy_at_front (x ∷ xs) [] h = refl
  copy_at_front (x ∷ xs) (y ∷ ys) h = ap (◌∷◌ y) (copy_at_front xs ys (omega arith))

  pub copy_at_append :
      (xs ys zs : List A) (i : ℕ) → i ≡ length xs → copy_at (xs ++ ys) i zs ≡ xs ++ copy_at ys 0 zs
  copy_at_append [] ys zs zero h = refl
  copy_at_append [] ys zs (suc i) h = absurd (omega arith)
  copy_at_append (x ∷ xs) ys zs zero h = absurd (omega arith)
  copy_at_append (x ∷ xs) ys zs (suc i) h = ap (◌∷◌ x) (copy_at_append xs ys zs i (omega arith))
