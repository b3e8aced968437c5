-- ===== src/Vterm/Inv/Scroll.antt =====
-- The scrollback stays within its limit, and scrolling keeps the shape of the screen.
use termulaa.Prelude.{
  ℕ, ◌+◌, ◌-◌, ◌≤◌, Bool, true, not, List, [], ◌∷◌, ◌++◌, refl, ◌∙◌, arith, length, slice,
  length-drop, if◌then◌else◌,
}
use termulaa.Vterm.Cell.{Row, unwrap, trimmed}
use termulaa.Vterm.State.{Screen, Terminal, at, unpend}
use termulaa.Vterm.Screen.{
  drop_excess, push_scrollback, push_all, clear_row, fresh_row, scroll, scroll_down, line_feed,
  reverse_index, wrap_to_next_line, clamp,
}
use termulaa.Vterm.Inv.{HasWidth, FitsIn, limit}
use termulaa.Vterm.Inv.Rows.{length-clear_row, length-fresh_row}
use termulaa.Vterm.Inv.Grids.{
  All-slice, All-map, Grid-copy_at, Grid-modify, Grid-map_range, on_row-Fits,
}

pub length-drop_excess : (limit : ℕ) (lines : List Row) → length (drop_excess limit lines) ≤ limit
unfolding drop_excess
length-drop_excess limit lines = grind (arith, length-drop)

-- What may be kept: nothing on a screen that is not the main one.
abbrev pub limit_of : Terminal → Bool → ℕ
limit_of t is_main = if is_main then t.max_scrollback else 0

pub push_scrollback-kept :
    (t : Terminal) (is_main : Bool) (lines : List Row) (r : Row)
    → length lines ≤ limit_of t is_main
    → length (push_scrollback t is_main lines r) ≤ limit_of t is_main
unfolding push_scrollback
push_scrollback-kept t is_main lines r h =
    ground (arith, length-drop_excess t.max_scrollback (lines ++ trimmed r ∷ []))

-- Pushing rows keeps the scrollback within what its screen may keep: the limit on the main screen,
-- nothing on the alternate one.
pub push_all-kept :
    (t : Terminal) (is_main : Bool) (lines rs : List Row)
    → length lines ≤ limit_of t is_main
    → length (push_all t is_main lines rs) ≤ limit_of t is_main
unfolding push_all
push_all-kept t is_main lines [] h = h
push_all-kept t is_main lines (r ∷ rs) h =
    push_all-kept t is_main (push_scrollback t is_main lines r) rs
      (push_scrollback-kept t is_main lines r h)

module _ (t : Terminal) where
  unwrapped_clear : (r : Row) → HasWidth t.w r → HasWidth t.w (unwrap (clear_row t r 0 t.w))
  unwrapped_clear r p = length-clear_row t r 0 t.w ∙ p

  pub scroll-Fits : (n : ℕ) (keep : Bool) {s : Screen} → FitsIn t s → FitsIn t (scroll n keep t s)
  unfolding scroll
  scroll-Fits n keep {s} v =
      let rows = v.grid.row_lens in
      let m = clamp n (s.bot - s.top + 1) in
      let recycled = slice s.rows s.top (s.top + m) in
      let shifted = Grid-copy_at v.grid s.top (All-slice (s.top + m) (s.bot + 1) rows) in
      let filled = Grid-copy_at shifted (s.bot + 1 - m) (
        All-map (λ r. unwrap (clear_row t r 0 t.w)) unwrapped_clear
          (All-slice s.top (s.top + m) rows)) in
      ground (
        arith,
        filled,
        Grid-modify filled s.top unwrap (λ r. refl),
        push_all-kept t (not t.alt_active) s.scrollback recycled,
      )

  pub scroll_down-Fits : (n : ℕ) {s : Screen} → FitsIn t s → FitsIn t (scroll_down n t s)
  unfolding scroll_down
  scroll_down-Fits n {s} v =
      let m = clamp n (s.bot - s.top + 1) in
      let shifted =
        Grid-copy_at v.grid (s.top + m) (All-slice s.top (s.bot + 1 - m) v.grid.row_lens) in
      ground (
        arith,
        Grid-map_range shifted (λ _. fresh_row t) s.top (s.top + m) (λ _ _. length-fresh_row t),
      )

  pub line_feed-Fits : {s : Screen} → FitsIn t s → FitsIn t (line_feed t s)
  unfolding line_feed
  line_feed-Fits {s} v = ground (arith, scroll-Fits 1 true {s = unpend s})

  pub reverse_index-Fits : {s : Screen} → FitsIn t s → FitsIn t (reverse_index t s)
  unfolding reverse_index
  reverse_index-Fits {s} v = ground (arith, scroll_down-Fits 1 {s = unpend s})

  pub wrap_to_next_line-Fits : {s : Screen} → FitsIn t s → FitsIn t (wrap_to_next_line t s)
  unfolding wrap_to_next_line
  wrap_to_next_line-Fits {s} v =
      let start : Screen = record s { cur = at s.cur 0 s.cur.y } in
      let v' : FitsIn t start = ground arith in
      on_row-Fits (λ r. record r { wrapped = true }) (λ r. refl) (line_feed-Fits v')
