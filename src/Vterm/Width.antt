-- ===== src/Vterm/Width.antt =====
-- internal/vterm/width.go: the columns that a rune takes.
-- The general categories of `unicode.Is` are the parameter `is_mark` (Mn, Me or Cf).

pub mod Search
use termulaa.Prelude.{
  ℕ, zero, suc, ◌+◌, ◌-◌, ◌/◌, Bool, true, false, ◌&&◌, ◌||◌, List, [], ◌∷◌, ◌==◌, ltb, leb, within,
  length, get_or, if◌then◌else◌,
}

abbrev pub wide_ranges : List (ℕ × ℕ)
wide_ranges =
    (0x1100, 0x115f)
    ∷ (0x231a, 0x231b)
    ∷ (0x2329, 0x232a)
    ∷ (0x23e9, 0x23ec)
    ∷ (0x23f0, 0x23f0)
    ∷ (0x23f3, 0x23f3)
    ∷ (0x25fd, 0x25fe)
    ∷ (0x2614, 0x2615)
    ∷ (0x2648, 0x2653)
    ∷ (0x267f, 0x267f)
    ∷ (0x2693, 0x2693)
    ∷ (0x26a1, 0x26a1)
    ∷ (0x26aa, 0x26ab)
    ∷ (0x26bd, 0x26be)
    ∷ (0x26c4, 0x26c5)
    ∷ (0x26ce, 0x26ce)
    ∷ (0x26d4, 0x26d4)
    ∷ (0x26ea, 0x26ea)
    ∷ (0x26f2, 0x26f3)
    ∷ (0x26f5, 0x26f5)
    ∷ (0x26fa, 0x26fa)
    ∷ (0x26fd, 0x26fd)
    ∷ (0x2705, 0x2705)
    ∷ (0x270a, 0x270b)
    ∷ (0x2728, 0x2728)
    ∷ (0x274c, 0x274c)
    ∷ (0x274e, 0x274e)
    ∷ (0x2753, 0x2755)
    ∷ (0x2757, 0x2757)
    ∷ (0x2795, 0x2797)
    ∷ (0x27b0, 0x27b0)
    ∷ (0x27bf, 0x27bf)
    ∷ (0x2b1b, 0x2b1c)
    ∷ (0x2b50, 0x2b50)
    ∷ (0x2b55, 0x2b55)
    ∷ (0x2e80, 0x303e)
    ∷ (0x3041, 0x33ff)
    ∷ (0x3400, 0x4dbf)
    ∷ (0x4e00, 0x9fff)
    ∷ (0xa000, 0xa4cf)
    ∷ (0xa960, 0xa97f)
    ∷ (0xac00, 0xd7a3)
    ∷ (0xf900, 0xfaff)
    ∷ (0xfe10, 0xfe19)
    ∷ (0xfe30, 0xfe6f)
    ∷ (0xff00, 0xff60)
    ∷ (0xffe0, 0xffe6)
    ∷ (0x16fe0, 0x16fe1)
    ∷ (0x17000, 0x18aff)
    ∷ (0x1b000, 0x1b12f)
    ∷ (0x1f004, 0x1f004)
    ∷ (0x1f0cf, 0x1f0cf)
    ∷ (0x1f18e, 0x1f18e)
    ∷ (0x1f191, 0x1f19a)
    ∷ (0x1f200, 0x1f202)
    ∷ (0x1f210, 0x1f23b)
    ∷ (0x1f240, 0x1f248)
    ∷ (0x1f250, 0x1f251)
    ∷ (0x1f260, 0x1f265)
    ∷ (0x1f300, 0x1f320)
    ∷ (0x1f32d, 0x1f335)
    ∷ (0x1f337, 0x1f37c)
    ∷ (0x1f37e, 0x1f393)
    ∷ (0x1f3a0, 0x1f3ca)
    ∷ (0x1f3cf, 0x1f3d3)
    ∷ (0x1f3e0, 0x1f3f0)
    ∷ (0x1f3f4, 0x1f3f4)
    ∷ (0x1f3f8, 0x1f43e)
    ∷ (0x1f440, 0x1f440)
    ∷ (0x1f442, 0x1f4fc)
    ∷ (0x1f4ff, 0x1f53d)
    ∷ (0x1f54b, 0x1f54e)
    ∷ (0x1f550, 0x1f567)
    ∷ (0x1f57a, 0x1f57a)
    ∷ (0x1f595, 0x1f596)
    ∷ (0x1f5a4, 0x1f5a4)
    ∷ (0x1f5fb, 0x1f64f)
    ∷ (0x1f680, 0x1f6c5)
    ∷ (0x1f6cc, 0x1f6cc)
    ∷ (0x1f6d0, 0x1f6d2)
    ∷ (0x1f6eb, 0x1f6ec)
    ∷ (0x1f6f4, 0x1f6f9)
    ∷ (0x1f910, 0x1f93e)
    ∷ (0x1f940, 0x1f970)
    ∷ (0x1f973, 0x1f976)
    ∷ (0x1f97a, 0x1f97a)
    ∷ (0x1f97c, 0x1f9a2)
    ∷ (0x1f9b0, 0x1f9b9)
    ∷ (0x1f9c0, 0x1f9c2)
    ∷ (0x1f9d0, 0x1f9ff)
    ∷ (0x20000, 0x2fffd)
    ∷ (0x30000, 0x3fffd)
    ∷ []

-- The half-open version of the binary search over [lo, hi]: `above` is `hi + 1`, so that the
-- `hi = -1` of the source is 0, and the midpoint is that of the source. One round of fuel for each
-- element of the table is enough.
unfoldable pub is_wide_loop : List (ℕ × ℕ) → ℕ → ℕ → ℕ → ℕ → Bool
is_wide_loop ranges r zero lo above = false
is_wide_loop ranges r (suc fuel) lo above =
    let mid = (lo + above - 1) / 2 in
    let rg = get_or ranges mid (0, 0) in
    let below = is_wide_loop ranges r fuel lo mid in
    let after = is_wide_loop ranges r fuel (mid + 1) above in
    if leb above lo then false else if ltb r rg.0 then below else if ltb rg.1 r then after else true

unfoldable pub is_wide : ℕ → Bool
unfolding is_wide_loop
is_wide r = is_wide_loop wide_ranges r (length wide_ranges) 0 (length wide_ranges)

module _ (is_mark : ℕ → Bool) where
  unfoldable pub is_zero_width : ℕ → Bool
  is_zero_width r =
      if is_mark r then true else within 0x1160 0x11ff r || within 0xd7b0 0xd7ff r || r == 0x200b

  unfoldable pub rune_width : ℕ → ℕ
  unfolding is_zero_width
  rune_width r =
      if r == 0
      then 0
      else if ltb r 0x20 || (leb 0x7f r && ltb r 0xa0)
      then 0
      else if ltb r 0x300
      then 1
      else if is_zero_width r
      then 0
      else if is_wide r
      then 2
      else 1
