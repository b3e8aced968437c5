-- ===== src/Vterm/Laws/Printing.antt =====
-- Where printing writes.
use termulaa.Prelude.{set, ℕ, ◌+◌, ◌≤◌, ◌<◌, Bool, true, ◌≡◌, ◌⊎◌, arith}
use termulaa.Vterm.Cell.{with_cells, blank_cell, erase_style}
use termulaa.Vterm.State.{Screen, Terminal, at}
use termulaa.Vterm.Screen.{scroll, line_feed, wrap_to_next_line, on_row}
use termulaa.Vterm.Print.{settle, make_room}
use termulaa.Vterm.Inv.{FitsIn}

scroll-cur : (n : ℕ) (keep : Bool) (t : Terminal) (s : Screen) → (scroll n keep t s).cur ≡ s.cur
unfolding scroll
scroll-cur n keep t s = ground arith

x-line_feed : (t : Terminal) (s : Screen) → (line_feed t s).cur.x ≡ s.cur.x
unfolding line_feed
x-line_feed t s = ground (arith, scroll-cur 1 true t)

x-wrap_to_next_line : (t : Terminal) (s : Screen) → (wrap_to_next_line t s).cur.x ≡ 0
unfolding wrap_to_next_line
x-wrap_to_next_line t s = x-line_feed t (record s { cur = at s.cur 0 s.cur.y })

x-settle : (t : Terminal) {s : Screen} → FitsIn t s → (settle t s).cur.x < t.w
unfolding settle
x-settle t {s} v = ground (arith, x-wrap_to_next_line t s)

-- On a screen that fits a terminal of two columns or more, after the wrapping that comes first there
-- is room in the row for a glyph of one or two columns at the cursor.
pub make_room-in_row :
    (t : Terminal) (width : ℕ) {s : Screen}
    → FitsIn t s
    → 2 ≤ t.w
    → (width ≡ 1) ⊎ (width ≡ 2)
    → (make_room width t (settle t s)).cur.x + width ≤ t.w
unfolding make_room
make_room-in_row t width {s} v wide w =
    let blank = λ (u : Screen).
      on_row (λ r. with_cells r (set r.cells u.cur.x (blank_cell (erase_style t.pen)))) u in
    ground (arith, x-settle t v, x-wrap_to_next_line t (blank (settle t s)))
