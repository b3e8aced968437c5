-- ===== src/Vterm/Screen.antt =====
-- internal/vterm/term.go: scrollback, scrolling, and the erasing, inserting and deleting of cells
-- and lines on the active screen `s` of terminal `t`. Columns, rows and counts are never negative
-- here; where the source clamps below at 0, subtraction stops at 0.
use termulaa.Prelude.{
  ℕ, ◌+◌, ◌-◌, ◌/◌, Bool, true, false, not, ◌&&◌, ◌||◌, List, [], ◌∷◌, ◌++◌, map, ◌==◌, ltb, leb,
  length, get_or, take, drop, slice, copy_at, map_range, modify, if◌then◌else◌,
}
use termulaa.Vterm.Cell.{
  Cell, blank_cell, default_style, Row, with_cells, unwrap, new_row, erase_style, clear, trimmed,
}
use termulaa.Vterm.State.{Screen, Terminal, set_rows, unpend, at}

-- if n > limit { n = limit }
abbrev pub clamp : ℕ → ℕ → ℕ
clamp n limit = if ltb limit n then limit else n

-- What `pushScrollback` leaves of the lines when they exceed the limit: the oldest go, an eighth
-- of the limit at a time.
unfoldable pub drop_excess : ℕ → List Row → List Row
drop_excess limit lines =
    let over = length lines - limit in
    let batch = if ltb over (limit / 8) then limit / 8 else over in
    if ltb limit (length lines) then drop (clamp batch (length lines)) lines else lines

-- The scrollback of a screen after a row is pushed; `is_main` is `s == &t.main`.
unfoldable pub push_scrollback : Terminal → Bool → List Row → Row → List Row
unfolding drop_excess trimmed
push_scrollback t is_main lines r =
    if t.max_scrollback == 0 || not is_main
    then lines
    else drop_excess t.max_scrollback (lines ++ trimmed r ∷ [])

unfoldable pub push_all : Terminal → Bool → List Row → List Row → List Row
unfolding push_scrollback
push_all t is_main lines [] = lines
push_all t is_main lines (r ∷ rs) = push_all t is_main (push_scrollback t is_main lines r) rs

unfoldable pub trim_scrollback : Terminal → Terminal
trim_scrollback t =
    let n = length t.main.scrollback in
    if ltb t.max_scrollback n
    then record t {
      main = record (t.main) { scrollback = drop (n - t.max_scrollback) t.main.scrollback };
    }
    else t

unfoldable pub set_max_scrollback : Terminal → ℕ → Terminal
unfolding trim_scrollback
set_max_scrollback t n = trim_scrollback (record t { max_scrollback = n })

-- With no background the cells come from a blank row, in one copy.
unfoldable pub clear_row : Terminal → Row → ℕ → ℕ → Row
unfolding clear new_row
clear_row t r from to =
    let end = clamp to (length r.cells) in
    if not (t.pen.bg == 0)
    then clear r from to t.pen
    else if ltb from end
    then with_cells r (copy_at r.cells from (take (end - from) (new_row t.w).cells))
    else r

-- The rows that enter a scrolled region at the bottom are those that left it, cleared.
unfoldable pub scroll : ℕ → Bool → Terminal → Screen → Screen
unfolding push_all clear_row
scroll n keep t s =
    let m = clamp n (s.bot - s.top + 1) in
    let recycled = slice s.rows s.top (s.top + m) in
    let pushed =
      if keep && s.top == 0
      then push_all t (not t.alt_active) s.scrollback recycled
      else s.scrollback in
    let shifted = copy_at s.rows s.top (slice s.rows (s.top + m) (s.bot + 1)) in
    let entered = map (λ r. unwrap (clear_row t r 0 t.w)) recycled in
    let filled = copy_at shifted (s.bot + 1 - m) entered in
    if n == 0 then s else record s {
      rows = if ltb s.top t.h && leb s.top s.bot then modify s.top unwrap filled else filled;
      scrollback = pushed;
    }

abbrev pub scroll_up : ℕ → Terminal → Screen → Screen
scroll_up n = scroll n false

-- `newRow` followed by `clear` with the pen.
unfoldable pub fresh_row : Terminal → Row
unfolding clear new_row
fresh_row t = clear (new_row t.w) 0 t.w t.pen

unfoldable pub scroll_down : ℕ → Terminal → Screen → Screen
unfolding fresh_row
scroll_down n t s =
    let m = clamp n (s.bot - s.top + 1) in
    let shifted = copy_at s.rows (s.top + m) (slice s.rows s.top (s.bot + 1 - m)) in
    if n == 0 then s else set_rows s (map_range (λ _. fresh_row t) s.top (s.top + m) shifted)

unfoldable pub line_feed : Terminal → Screen → Screen
unfolding scroll
line_feed t s =
    let c = s.cur in
    if c.y == s.bot
    then scroll 1 true t (unpend s)
    else if ltb c.y (t.h - 1)
    then record s { cur = at c c.x (c.y + 1) }
    else unpend s

unfoldable pub reverse_index : Terminal → Screen → Screen
unfolding scroll_down
reverse_index t s =
    let c = s.cur in
    if c.y == s.top
    then scroll_down 1 t (unpend s)
    else if ltb 0 c.y
    then record s { cur = at c c.x (c.y - 1) }
    else unpend s

unfoldable pub wrap_to_next_line : Terminal → Screen → Screen
unfolding line_feed
wrap_to_next_line t s =
    let s' = line_feed t (record s { cur = at s.cur 0 s.cur.y }) in
    set_rows s' (modify s'.cur.y (λ r. record r { wrapped = true }) s'.rows)

abbrev pub on_row : (Row → Row) → Screen → Screen
on_row f s = set_rows s (modify s.cur.y f s.rows)

abbrev pub zero_width_at : List Cell → ℕ → Bool
zero_width_at cs x = (get_or cs x (blank_cell default_style)).width == 0

unfoldable pub erase_row : ℕ → Terminal → ℕ → Row → Row
unfolding clear_row
erase_row mode t x r =
    let end = if ltb (x + 1) t.w && zero_width_at r.cells (x + 1) then x + 2 else x + 1 in
    if mode == 0
    then clear_row t r x t.w
    else if mode == 1
    then clear r 0 end t.pen
    else if mode == 2
    then clear_row t r 0 t.w
    else r

unfoldable pub erase_in_line : ℕ → Terminal → Screen → Screen
unfolding erase_row
erase_in_line mode t s = on_row (erase_row mode t s.cur.x) s

unfoldable pub wipe : Terminal → Row → Row
unfolding clear
wipe t r = unwrap (clear r 0 t.w t.pen)

unfoldable pub erase_in_display : ℕ → Terminal → Screen → Screen
unfolding erase_in_line wipe
erase_in_display mode t s =
    let below = erase_in_line 0 t s in
    let above = set_rows s (map_range (wipe t) 0 s.cur.y s.rows) in
    if mode == 0
    then set_rows below (map_range (wipe t) (s.cur.y + 1) t.h below.rows)
    else if mode == 1
    then erase_in_line 1 t above
    else if mode == 2
    then set_rows s (map_range (λ r. unwrap (clear_row t r 0 t.w)) 0 t.h s.rows)
    else if mode == 3
    then record s { scrollback = [] }
    else s

unfoldable pub erase_chars : ℕ → Terminal → Screen → Screen
unfolding clear
erase_chars n t s = unpend (on_row (λ r. clear r s.cur.x (clamp (s.cur.x + n) t.w) t.pen) s)

unfoldable pub delete_row_chars : ℕ → Terminal → ℕ → Row → Row
unfolding clear
delete_row_chars n t x r =
    let m = clamp n (t.w - x) in
    clear (with_cells r (copy_at r.cells x (drop (x + m) r.cells))) (t.w - m) t.w t.pen

unfoldable pub delete_chars : ℕ → Terminal → Screen → Screen
unfolding delete_row_chars
delete_chars n t s = unpend (on_row (delete_row_chars n t s.cur.x) s)

-- A wide character whose second half was pushed over the edge becomes a blank.
abbrev pub uncut_erased : Cell → Cell
uncut_erased c = if c.width == 2 then blank_cell (erase_style c.style) else c

unfoldable pub insert_row_cells : ℕ → Terminal → ℕ → Row → Row
unfolding clear
insert_row_cells n t x r =
    let m = clamp n (t.w - x) in
    let shifted = copy_at r.cells (x + m) (slice r.cells x (t.w - m)) in
    let blanked = map_range (λ _. blank_cell (erase_style t.pen)) x (x + m) shifted in
    with_cells r (modify (t.w - 1) uncut_erased blanked)

unfoldable pub insert_cells : ℕ → Terminal → Screen → Screen
unfolding insert_row_cells
insert_cells n t s = on_row (insert_row_cells n t s.cur.x) s

abbrev outside_region : Screen → Bool
outside_region s = ltb s.cur.y s.top || ltb s.bot s.cur.y

unfoldable pub insert_lines : ℕ → Terminal → Screen → Screen
unfolding fresh_row
insert_lines n t s =
    let y = s.cur.y in
    let m = clamp n (s.bot - y + 1) in
    let shifted = copy_at s.rows (y + m) (slice s.rows y (s.bot + 1 - m)) in
    if outside_region s
    then s
    else record s { rows = map_range (λ _. fresh_row t) y (y + m) shifted; cur = at s.cur 0 y }

unfoldable pub delete_lines : ℕ → Terminal → Screen → Screen
unfolding fresh_row
delete_lines n t s =
    let y = s.cur.y in
    let m = clamp n (s.bot - y + 1) in
    let shifted = copy_at s.rows y (slice s.rows (y + m) (s.bot + 1)) in
    if outside_region s then s else record s {
      rows = map_range (λ _. fresh_row t) (s.bot + 1 - m) (s.bot + 1) shifted;
      cur = at s.cur 0 y;
    }
