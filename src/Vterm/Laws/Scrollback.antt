-- ===== src/Vterm/Laws/Scrollback.antt =====
-- The scrollback keeps the newest lines, and clearing by a copy is clearing cell by cell.
use termulaa.Prelude.{
  ℕ, zero, suc, ◌+◌, ◌-◌, ◌≤◌, ◌<◌, true, List, [], ◌∷◌, ◌++◌, map, ◌≡◌, refl, sym, ap, ◌∙◌, arith,
  length, take, drop, replicate, copy_at, map_range, append-nil, append_assoc, length-append,
  take-append-drop, length-drop, min, if◌then◌else◌, ltb, ◌/◌,
}
use mathlib.Core.Path.{subst}
use termulaa.Vterm.Cell.{Cell, blank_cell, default_style, Row, new_row, clear, trimmed, erase_style}
use termulaa.Vterm.State.{Terminal}
use termulaa.Vterm.Inv.Scroll.{push_all-kept}
use termulaa.Vterm.Screen.{clamp, drop_excess, push_scrollback, push_all, clear_row}

-- `lines` are the last of `all`.
pub record IsTail (lines all : List Row) : Type 0 where
  pub dropped : List Row
  pub joins : all ≡ dropped ++ lines

IsTail-drop : (n : ℕ) (lines : List Row) → IsTail (drop n lines) lines
IsTail-drop n lines = record { dropped = take n lines; joins = sym (take-append-drop n lines) }

IsTail-append :
    (lines all more : List Row) → IsTail lines all → IsTail (lines ++ more) (all ++ more)
IsTail-append lines all more t = record {
  dropped = t.dropped;
  joins = ap (λ xs. xs ++ more) t.joins ∙ append_assoc t.dropped lines more;
}

IsTail-trans : {lines mid all : List Row} → IsTail lines mid → IsTail mid all → IsTail lines all
IsTail-trans {lines} s t = record {
  dropped = t.dropped ++ s.dropped;
  joins =
      t.joins ∙ ap (λ xs. t.dropped ++ xs) s.joins ∙ sym (append_assoc t.dropped s.dropped lines);
}

drop_excess-IsTail : (limit : ℕ) (lines : List Row) → IsTail (drop_excess limit lines) lines
unfolding drop_excess
drop_excess-IsTail limit lines = ground (
  arith,
  IsTail-drop
      (clamp (if ltb (length lines - limit) (limit / 8) then limit / 8 else length lines - limit)
        (length lines))
      lines,
  IsTail-drop 0 lines,
)

push_scrollback-IsTail :
    (t : Terminal) (lines : List Row) (r : Row)
    → 0 < t.max_scrollback
    → IsTail (push_scrollback t true lines r) (lines ++ trimmed r ∷ [])
unfolding push_scrollback
push_scrollback-IsTail t lines r h =
    ground (arith, drop_excess-IsTail t.max_scrollback (lines ++ trimmed r ∷ []))

push_all-IsTail :
    (t : Terminal) (lines rs : List Row)
    → 0 < t.max_scrollback
    → IsTail (push_all t true lines rs) (lines ++ map trimmed rs)
unfolding push_all
push_all-IsTail t lines [] h = record { dropped = []; joins = append-nil lines }
push_all-IsTail t lines (r ∷ rs) h =
    let kept = push_scrollback t true lines r in
    let more = map trimmed rs in
    let one =
      IsTail-append kept (lines ++ trimmed r ∷ []) more (push_scrollback-IsTail t lines r h) in
    IsTail-trans (push_all-IsTail t kept rs h)
      (subst (λ all. IsTail (kept ++ more) all) (append_assoc lines (trimmed r ∷ []) more) one)

length-drop_excess_ge :
    (limit : ℕ) (lines : List Row)
    → min (length lines) (limit - limit / 8) ≤ length (drop_excess limit lines)
unfolding drop_excess
length-drop_excess_ge limit lines = ground (
  arith,
  length-drop
      (clamp (if ltb (length lines - limit) (limit / 8) then limit / 8 else length lines - limit)
        (length lines))
      lines,
)

length-push_scrollback_ge :
    (t : Terminal) (lines : List Row) (r : Row)
    → 0 < t.max_scrollback
    → min (length lines + 1) (t.max_scrollback - t.max_scrollback / 8)
      ≤ length (push_scrollback t true lines r)
unfolding push_scrollback
length-push_scrollback_ge t lines r h = ground (
  arith,
  length-append lines (trimmed r ∷ []),
  length-drop_excess_ge t.max_scrollback (lines ++ trimmed r ∷ []),
)

-- On the main screen with a limit, a push leaves at least as many lines as there were together with
-- those pushed, or seven eighths of the limit.
pub length-push_all_ge :
    (t : Terminal) (lines rs : List Row)
    → 0 < t.max_scrollback
    → min (length lines + length rs) (t.max_scrollback - t.max_scrollback / 8)
      ≤ length (push_all t true lines rs)
unfolding push_all
length-push_all_ge t lines [] h = omega arith
length-push_all_ge t lines (r ∷ rs) h =
    let kept = push_scrollback t true lines r in
    omega (arith, length-push_all_ge t kept rs h, length-push_scrollback_ge t lines r h)

length-map : (rs : List Row) → length (map trimmed rs) ≡ length rs
length-map [] = refl
length-map (r ∷ rs) = omega (arith, length-map rs)

-- The last of `all`: at least `least` of them when there are as many, and at most `most`.
pub record IsNewest (lines all : List Row) (least most : ℕ) : Type 0 where
  pub is_tail : IsTail lines all
  pub enough : min (length all) least ≤ length lines
  pub bounded : length lines ≤ most

-- On the main screen with a limit, and from a scrollback within it, the scrollback after a push is
-- the last lines of the old ones followed by the pushed rows without their trailing blanks: all of
-- them or at least seven eighths of the limit, and never more than the limit.
pub push_all-IsNewest :
    (t : Terminal) (lines rs : List Row)
    → 0 < t.max_scrollback
    → length lines ≤ t.max_scrollback
    → IsNewest
        (push_all t true lines rs)
        (lines ++ map trimmed rs)
        (t.max_scrollback - t.max_scrollback / 8)
        t.max_scrollback
push_all-IsNewest t lines rs h fits = record {
  is_tail = push_all-IsTail t lines rs h;
  enough =
      omega (
        arith,
        length-push_all_ge t lines rs h,
        length-append lines (map trimmed rs),
        length-map rs,
      );
  bounded = push_all-kept t true lines rs fits;
}

push_scrollback_room :
    (t : Terminal) (lines : List Row) (r : Row)
    → length lines < t.max_scrollback
    → push_scrollback t true lines r ≡ lines ++ trimmed r ∷ []
unfolding push_scrollback drop_excess
push_scrollback_room t lines r h = ground (arith, length-append lines (trimmed r ∷ []))

-- On the main screen a scrollback that has room for the pushed rows keeps every line and gains the
-- rows without their trailing blanks.
pub push_all_room :
    (t : Terminal) (lines rs : List Row)
    → length lines + length rs ≤ t.max_scrollback
    → push_all t true lines rs ≡ lines ++ map trimmed rs
unfolding push_all
push_all_room t lines [] h = sym (append-nil lines)
push_all_room t lines (r ∷ rs) h =
    ap (λ xs. push_all t true xs rs) (push_scrollback_room t lines r (omega arith))
    ∙ push_all_room t (lines ++ trimmed r ∷ []) rs
        (omega (arith, length-append lines (trimmed r ∷ [])))
    ∙ append_assoc lines (trimmed r ∷ []) (map trimmed rs)

module _ {A : Type 0} where
  copy_replicate :
      (xs : List A) (b : A) (from n to : ℕ)
      → from + n ≡ to
      → copy_at xs from (replicate n b) ≡ map_range (λ _. b) from to xs
  copy_replicate [] b from n to e = refl
  copy_replicate (x ∷ xs) b zero zero zero e = refl
  copy_replicate (x ∷ xs) b zero zero (suc to) e = absurd (omega arith)
  copy_replicate (x ∷ xs) b zero (suc n) zero e = absurd (omega arith)
  copy_replicate (x ∷ xs) b zero (suc n) (suc to) e =
      ap (◌∷◌ b) (copy_replicate xs b zero n to (omega arith))
  copy_replicate (x ∷ xs) b (suc from) n zero e = absurd (omega arith)
  copy_replicate (x ∷ xs) b (suc from) n (suc to) e =
      ap (◌∷◌ x) (copy_replicate xs b from n to (omega arith))

  take-replicate : (n m : ℕ) (b : A) → n ≤ m → take n (replicate m b) ≡ replicate n b
  take-replicate zero m b h = refl
  take-replicate (suc n) zero b h = absurd (omega arith)
  take-replicate (suc n) (suc m) b h = ap (◌∷◌ b) (take-replicate n m b (omega arith))

  map_range_past :
      (f : A → A) (from to : ℕ) (xs : List A)
      → length xs ≤ to
      → map_range f from to xs ≡ map_range f from (length xs) xs
  map_range_past f from to [] h = refl
  map_range_past f from zero (x ∷ xs) h = absurd (omega arith)
  map_range_past f zero (suc to) (x ∷ xs) h =
      ap (◌∷◌ (f x)) (map_range_past f zero to xs (omega arith))
  map_range_past f (suc from) (suc to) (x ∷ xs) h =
      ap (◌∷◌ x) (map_range_past f from to xs (omega arith))

  map_range_none : (f : A → A) (from to : ℕ) (xs : List A) → to ≤ from → map_range f from to xs ≡ xs
  map_range_none f from to [] h = refl
  map_range_none f zero zero (x ∷ xs) h = refl
  map_range_none f zero (suc to) (x ∷ xs) h = absurd (omega arith)
  map_range_none f (suc from) zero (x ∷ xs) h = refl
  map_range_none f (suc from) (suc to) (x ∷ xs) h =
      ap (◌∷◌ x) (map_range_none f from to xs (omega arith))

-- The copy from the blank row, on the cells.
copy_blank :
    (b : Cell) (cs : List Cell) (w from to : ℕ)
    → length cs ≤ w
    → (if ltb from (clamp to (length cs))
        then copy_at cs from (take (clamp to (length cs) - from) (replicate w b))
        else cs)
      ≡ map_range (λ _. b) from to cs
copy_blank b cs w from to h =
    let end = clamp to (length cs) in
    ground (
      arith,
      take-replicate (end - from) w b,
      copy_replicate cs b from (end - from) end,
      map_range_past (λ _. b) from to cs,
      map_range_none (λ _. b) from end cs,
    )

-- On a row that is not wider than the terminal, `clearRow`, which copies from a blank row, does what
-- `clear` does cell by cell with the pen.
pub clear_row-eq-clear :
    (t : Terminal) (r : Row) (from to : ℕ)
    → length r.cells ≤ t.w
    → clear_row t r from to ≡ clear r from to t.pen
unfolding clear_row clear new_row erase_style
clear_row-eq-clear t r from to h =
    ground (arith, copy_blank (blank_cell default_style) r.cells t.w from to)
