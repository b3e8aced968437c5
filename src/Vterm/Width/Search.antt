-- ===== src/Vterm/Width/Search.antt =====
-- The binary search of `isWide` against a search of the whole table.
use termulaa.Prelude.{
  ℕ, zero, suc, ◌+◌, ◌-◌, ◌/◌, ◌≤◌, ◌<◌, Bool, true, List, [], ◌∷◌, ◌≡◌, inl, inr, arith, length,
  get_or, ltb, leb, ◌&&◌, refl, Bool-cases,
}
use mathlib.Core.Logic.{◌↔◌}
use termulaa.Vterm.Width.{is_wide_loop, is_wide, wide_ranges}

-- Each range ends before the next begins.
pub record IsSorted (ranges : List (ℕ × ℕ)) : Type 0 where
  pub ordered :
      (i : ℕ) → i < length ranges → (get_or ranges i (0, 0)).0 ≤ (get_or ranges i (0, 0)).1
  pub apart :
      (i j : ℕ)
      → i < j
      → j < length ranges
      → (get_or ranges i (0, 0)).1 < (get_or ranges j (0, 0)).0

-- A range that holds `r`.
pub record Holds (ranges : List (ℕ × ℕ)) (r k : ℕ) : Type 0 where
  pub inside : k < length ranges
  pub low : (get_or ranges k (0, 0)).0 ≤ r
  pub high : r ≤ (get_or ranges k (0, 0)).1

pub is_wide_loop_complete :
    {ranges : List (ℕ × ℕ)} (r fuel lo above k : ℕ)
    → IsSorted ranges
    → Holds ranges r k
    → lo ≤ k
    → k < above
    → above ≤ length ranges
    → above ≤ lo + fuel
    → is_wide_loop ranges r fuel lo above ≡ true
unfolding is_wide_loop
is_wide_loop_complete r zero lo above k s h a b c d = absurd (omega arith)
is_wide_loop_complete {ranges} r (suc fuel) lo above k s h a b c d =
    let mid = (lo + above - 1) / 2 in
    let below = is_wide_loop_complete r fuel lo mid k s h in
    let after = is_wide_loop_complete r fuel (mid + 1) above k s h in
    ground (arith, below, after, h.low, h.high, s.apart mid k, s.apart k mid, s.ordered mid)

pub is_wide_loop_sound :
    (ranges : List (ℕ × ℕ)) (r fuel lo above : ℕ)
    → above ≤ length ranges
    → is_wide_loop ranges r fuel lo above ≡ true
    → (k : ℕ) × Holds ranges r k
unfolding is_wide_loop
is_wide_loop_sound ranges r zero lo above c e = cc
is_wide_loop_sound ranges r (suc fuel) lo above c e =
    let mid = (lo + above - 1) / 2 in
    let below = is_wide_loop_sound ranges r fuel lo mid in
    let after = is_wide_loop_sound ranges r fuel (mid + 1) above in
    elim (Bool-cases (leb above lo)) [
      | inl none ↦ absurd (ground arith)
      | inr some ↦ elim (Bool-cases (ltb r (get_or ranges mid (0, 0)).0)) [
        | inl low ↦ below (ground arith) (ground arith)
        | inr not_low ↦ elim (Bool-cases (ltb (get_or ranges mid (0, 0)).1 r)) [
          | inl high ↦ after c (ground arith)
          | inr here ↦
              (mid, record { inside = ground arith; low = ground arith; high = ground arith })
        ]
      ]
    ]

-- A table whose ranges ascend, all of them above `p`.
abbrev pub ascending : ℕ → List (ℕ × ℕ) → Bool
ascending p [] = true
ascending p ((a, b) ∷ rs) = ltb p a && leb a b && ascending b rs

above-ascending :
    (p : ℕ) (rs : List (ℕ × ℕ)) (i : ℕ)
    → ascending p rs ≡ true
    → i < length rs
    → p < (get_or rs i (0, 0)).0
above-ascending p [] i h k = absurd (omega arith)
above-ascending p ((a, b) ∷ rs) zero h k = ground arith
above-ascending p ((a, b) ∷ rs) (suc i) h k = ground (arith, above-ascending b rs i)

ordered-ascending :
    (p : ℕ) (rs : List (ℕ × ℕ)) (i : ℕ)
    → ascending p rs ≡ true
    → i < length rs
    → (get_or rs i (0, 0)).0 ≤ (get_or rs i (0, 0)).1
ordered-ascending p [] i h k = absurd (omega arith)
ordered-ascending p ((a, b) ∷ rs) zero h k = ground arith
ordered-ascending p ((a, b) ∷ rs) (suc i) h k = ground (arith, ordered-ascending b rs i)

apart-ascending :
    (p : ℕ) (rs : List (ℕ × ℕ)) (i j : ℕ)
    → ascending p rs ≡ true
    → i < j
    → j < length rs
    → (get_or rs i (0, 0)).1 < (get_or rs j (0, 0)).0
apart-ascending p [] i j h k l = absurd (omega arith)
apart-ascending p ((a, b) ∷ rs) i zero h k l = absurd (omega arith)
apart-ascending p ((a, b) ∷ rs) zero (suc j) h k l = ground (arith, above-ascending b rs j)
apart-ascending p ((a, b) ∷ rs) (suc i) (suc j) h k l = ground (arith, apart-ascending b rs i j)

wide_ranges-IsSorted : IsSorted wide_ranges
wide_ranges-IsSorted = record {
  ordered = λ i h. ordered-ascending 0 wide_ranges i refl h;
  apart = λ i j h k. apart-ascending 0 wide_ranges i j refl h k;
}

-- `isWide` finds a rune if and only if one of the ranges of the table holds it.
pub is_wide-Holds : (r : ℕ) → (is_wide r ≡ true) ↔ ((k : ℕ) × Holds wide_ranges r k)
unfolding is_wide
is_wide-Holds r = (
  is_wide_loop_sound wide_ranges r (length wide_ranges) 0 (length wide_ranges) (omega arith),
  λ (k, h).
      is_wide_loop_complete r (length wide_ranges) 0 (length wide_ranges) k wide_ranges-IsSorted h
        (omega arith) h.inside (omega arith) (omega arith),
)
