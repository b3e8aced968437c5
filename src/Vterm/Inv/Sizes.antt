-- ===== src/Vterm/Inv/Sizes.antt =====
-- `Resize` gives a valid terminal of the new size.
use termulaa.Prelude.{
  ℕ, zero, suc, ◌+◌, ◌-◌, ◌≤◌, ◌<◌, Bool, true, false, List, [], ◌∷◌, map, ◌≡◌, ◌∙◌, arith, length,
  take, replicate, All, nil, cons, All-replicate, All-take, All-drop, All-append, length-replicate,
  length-append, length-take, length-drop, if◌then◌else◌, ◌==◌, ==_iff, Bool-cases, inl, inr, sym,
}
use mathlib.Core.Path.{subst}
use termulaa.Vterm.Cell.{Row, new_row, fitted}
use termulaa.Vterm.State.{Screen, Terminal, at_least_one, reset_tab_stops}
use termulaa.Vterm.Resize.{
  drop_blank, shrink, pull_back, grow, refit, fit_width, fit_height, resize_screen, resize,
  last_row,
}
use termulaa.Vterm.Inv.{HasWidth, Grid, Fits, IsValid}
use termulaa.Vterm.Inv.Rows.{length-new_row, length-fitted}
use termulaa.Vterm.Inv.Grids.{length-map}
use termulaa.Vterm.Inv.Scroll.{limit_of, push_all-kept}
use termulaa.Vterm.Inv.Screens.{length-tab_stops_from}

All-fitted : (w : ℕ) (rows : List Row) → All (HasWidth w) (map (λ r. fitted r w) rows)
All-fitted w [] = nil
All-fitted w (r ∷ rows) = cons (length-fitted r w) (All-fitted w rows)

-- The rows that stay and those still to remove make up the rows there were.
record Dropped (w remove n : ℕ) (out : ℕ × List Row) : Type 0 where
  count : length out.1 + remove ≡ n + out.0
  left_in : out.0 ≤ remove
  widths : All (HasWidth w) out.1

drop_blank-Dropped :
    {w : ℕ} (y remove : ℕ) {rows : List Row}
    → All (HasWidth w) rows
    → Dropped w remove (length rows) (drop_blank y remove rows)
unfolding drop_blank
drop_blank-Dropped y zero {rows} a = record {
  count = omega arith;
  left_in = omega arith;
  widths = a;
}
drop_blank-Dropped y (suc remove) {rows} a = ground (
  arith,
  drop_blank-Dropped y remove (All-take (length rows - 1) a),
  length-take (length rows - 1) rows,
)

-- What `resizeScreen` has before it clamps the cursor and resets the margins.
record Sized (w h limit : ℕ) (s : Screen) : Type 0 where
  grid : Grid w h s.rows
  x_in : s.cur.x < w
  kept : length s.scrollback ≤ limit

shrink-Sized :
    (t : Terminal) (is_main : Bool) (w n h remove : ℕ) (s : Screen)
    → Sized w n (limit_of t is_main) s
    → h + remove ≡ n
    → Sized w h (limit_of t is_main) (shrink t is_main remove s)
unfolding shrink
shrink-Sized t is_main w n h remove s v e =
    let d = drop_blank-Dropped s.cur.y remove v.grid.row_lens in
    let out = drop_blank s.cur.y remove s.rows in
    ground (
      arith,
      d,
      length-drop out.0 out.1,
      All-drop {P = HasWidth w} out.0 d.widths,
      push_all-kept t true s.scrollback (take out.0 out.1),
    )

-- The rows pulled back and those still to add make up the rows asked for.
record Pulled (w n limit : ℕ) (out : ℕ × Screen) : Type 0 where
  count : length out.1.rows + out.0 ≡ n
  widths : All (HasWidth w) out.1.rows
  x_in : out.1.cur.x < w
  kept : length out.1.scrollback ≤ limit

pull_back-Pulled :
    (w add n limit : ℕ) (s : Screen)
    → length s.rows + add ≡ n
    → All (HasWidth w) s.rows
    → s.cur.x < w
    → length s.scrollback ≤ limit
    → Pulled w n limit (pull_back w add s)
unfolding pull_back
pull_back-Pulled w zero n limit s e a x k = record {
  count = omega (arith);
  widths = a;
  x_in = x;
  kept = k;
}
pull_back-Pulled w (suc add) n limit s e a x k =
    let len = length s.scrollback in
    let row = fitted (last_row s.scrollback) w in
    let pulled : Screen = record s {
      scrollback = take (len - 1) s.scrollback;
      rows = row ∷ s.rows;
      cur = record (s.cur) { y = s.cur.y + 1 };
      saved = record (s.saved) { y = s.saved.y + 1 };
    } in
    let shorter : length (take (len - 1) s.scrollback) ≤ limit =
      omega (arith, length-take (len - 1) s.scrollback) in
    let rest =
      pull_back-Pulled w add n limit pulled (omega arith)
        (cons (length-fitted (last_row s.scrollback) w) a) x shorter in
    ground (arith, rest)

grow-Sized :
    (is_main : Bool) (w n h add limit : ℕ) (s : Screen)
    → Sized w n limit s
    → n + add ≡ h
    → Sized w h limit (grow is_main w add s)
unfolding grow
grow-Sized is_main w n h add limit s v e =
    let p = pull_back-Pulled w add h limit s (omega arith) v.grid.row_lens v.x_in v.kept in
    let out = if is_main then pull_back w add s else (add, s) in
    let p' : Pulled w h limit out = ground (arith, p) in
    let blank = All-replicate {P = HasWidth w} out.0 (new_row w) (length-new_row w) in
    record {
      grid = record {
        rows_len = omega (
          arith,
          length-append out.1.rows (replicate out.0 (new_row w)),
          length-replicate out.0 (new_row w),
          p'.count,
        );
        row_lens = All-append p'.widths blank;
      };
      x_in = p'.x_in;
      kept = p'.kept;
    }

refit-Sized :
    {w' h limit : ℕ} (w : ℕ) {s : Screen} → 0 < w → Fits w' h limit s → Sized w h limit (refit w s)
unfolding refit
refit-Sized w {s} pos v = record {
  grid = record {
    rows_len = length-map (λ r. fitted r w) s.rows ∙ v.grid.rows_len;
    row_lens = All-fitted w s.rows;
  };
  x_in = ground arith;
  kept = v.kept;
}

fit_width-Sized :
    (t : Terminal) (w : ℕ) {h limit : ℕ} {s : Screen}
    → 0 < w
    → Fits t.w h limit s
    → Sized w h limit (fit_width t w s)
unfolding fit_width
fit_width-Sized t w {h} {limit} {s} pos v = elim (Bool-cases (w == t.w)) [
  | inl same ↦ simp same (subst (λ k. Sized k h limit s) (sym ((==_iff w t.w).0 same)) old)
  | inr other ↦ simp other (refit-Sized w pos v)
]
  where
    old : Sized t.w h limit s
    old = record { grid = v.grid; x_in = v.x_in; kept = v.kept }

fit_height-Sized :
    (t : Terminal) (w n h : ℕ) (is_main : Bool) {s : Screen}
    → Sized w n (limit_of t is_main) s
    → Sized w h (limit_of t is_main) (fit_height t w h is_main s)
unfolding fit_height
fit_height-Sized t w n h is_main {s} v =
    let len = length s.rows in
    ground (
      arith,
      shrink-Sized t is_main w n h (len - h) s v,
      grow-Sized is_main w n h (h - len) (limit_of t is_main) s v,
    )

pub resize_screen-Fits :
    (t : Terminal) (w h : ℕ) (is_main : Bool) {s : Screen}
    → 0 < w
    → 0 < h
    → Fits t.w t.h (limit_of t is_main) s
    → Fits w h (limit_of t is_main) (resize_screen t w h is_main s)
unfolding resize_screen
resize_screen-Fits t w h is_main pw ph v =
    let sized = fit_height-Sized t w t.h h is_main (fit_width-Sized t w pw v) in
    record {
      grid = sized.grid;
      x_in = sized.x_in;
      y_in = ground arith;
      margins = omega arith;
      bot_in = omega arith;
      kept = sized.kept;
    }

-- A valid terminal that has met no fault is valid after a resize to any size.
pub resize-IsValid : (w h : ℕ) {t : Terminal} → IsValid t → t.fault ≡ false → IsValid (resize w h t)
unfolding resize reset_tab_stops
resize-IsValid w h {t} v ok =
    let w' = at_least_one w in
    let h' = at_least_one h in
    let pw : 0 < w' = ground arith in
    let ph : 0 < h' = ground arith in
    ground (
      arith,
      resize_screen-Fits t w' h' true pw ph v.main_fits,
      resize_screen-Fits t w' h' false pw ph v.alt_fits,
      length-tab_stops_from 0 w',
    )
