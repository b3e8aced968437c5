-- ===== src/Vterm/Resize.antt =====
-- internal/vterm/term.go: `Resize`.
use termulaa.Prelude.{
  ℕ, zero, suc, ◌+◌, ◌-◌, Bool, true, false, ◌&&◌, List, [], ◌∷◌, ◌++◌, map, ◌==◌, ltb, length,
  get_or, take, drop, replicate, if◌then◌else◌,
}
use termulaa.Vterm.Cell.{Row, new_row, fitted, last_visible}
use termulaa.Vterm.State.{Screen, Terminal, at_least_one, reset_tab_stops, set_rows}
use termulaa.Vterm.Screen.{clamp, push_all}

abbrev pub last_row : List Row → Row
last_row rows = get_or rows (length rows - 1) (record { cells = []; wrapped = false })

-- Blank rows below the cursor disappear first: the rows, and how many are still to remove.
unfoldable pub drop_blank : ℕ → ℕ → List Row → ℕ × List Row
unfolding last_visible
drop_blank y zero rows = (0, rows)
drop_blank y (suc remove) rows =
    let rest = drop_blank y remove (take (length rows - 1) rows) in
    if ltb y (length rows - 1) && last_visible (last_row rows) == 0
    then rest
    else (suc remove, rows)

-- Then rows scroll off the top.
unfoldable pub shrink : Terminal → Bool → ℕ → Screen → Screen
unfolding drop_blank push_all
shrink t use_scrollback remove s =
    let (left, rows) = drop_blank s.cur.y remove s.rows in
    let pushed = push_all t true s.scrollback (take left rows) in
    if left == 0 then set_rows s rows else record s {
      rows = drop left rows;
      cur = record (s.cur) { y = s.cur.y - left };
      saved = record (s.saved) { y = s.saved.y - left };
      scrollback = if use_scrollback then pushed else s.scrollback;
    }

-- Lines that scrolled off come back while the cursor is in the last row: the screen, and how many
-- rows are still to add.
unfoldable pub pull_back : ℕ → ℕ → Screen → ℕ × Screen
unfolding fitted
pull_back w zero s = (0, s)
pull_back w (suc add) s =
    let n = length s.scrollback in
    let rest = pull_back w add (record s {
      scrollback = take (n - 1) s.scrollback;
      rows = fitted (last_row s.scrollback) w ∷ s.rows;
      cur = record (s.cur) { y = s.cur.y + 1 };
      saved = record (s.saved) { y = s.saved.y + 1 };
    }) in
    if ltb 0 n && s.cur.y == length s.rows - 1 then rest else (suc add, s)

unfoldable pub grow : Bool → ℕ → ℕ → Screen → Screen
unfolding pull_back new_row
grow use_scrollback w add s =
    let (left, s') = if use_scrollback then pull_back w add s else (add, s) in
    set_rows s' (s'.rows ++ replicate left (new_row w))

-- The columns, when the width changes.
unfoldable pub refit : ℕ → Screen → Screen
unfolding fitted
refit w s = record s {
  rows = map (λ r. fitted r w) s.rows;
  cur = record (s.cur) { x = clamp s.cur.x (w - 1) };
  saved = record (s.saved) { x = clamp s.saved.x (w - 1) };
}

unfoldable pub fit_width : Terminal → ℕ → Screen → Screen
fit_width t w s = if w == t.w then s else refit w s

-- The rows, when the height changes.
unfoldable pub fit_height : Terminal → ℕ → ℕ → Bool → Screen → Screen
fit_height t w h use_scrollback s =
    let old_h = length s.rows in
    if ltb h old_h
    then shrink t use_scrollback (old_h - h) s
    else if ltb old_h h
    then grow use_scrollback w (h - old_h) s
    else s

unfoldable pub resize_screen : Terminal → ℕ → ℕ → Bool → Screen → Screen
resize_screen t w h use_scrollback s =
    let sized = fit_height t w h use_scrollback (fit_width t w s) in
    record sized {
      cur = record (sized.cur) { y = clamp sized.cur.y (h - 1); pending_wrap = false };
      saved = record (sized.saved) { y = clamp sized.saved.y (h - 1) };
      top = 0;
      bot = h - 1;
    }

unfoldable pub resize : ℕ → ℕ → Terminal → Terminal
resize w h t =
    let w' = at_least_one w in
    let h' = at_least_one h in
    let resized = record t {
      main = resize_screen t w' h' true t.main;
      alt = resize_screen t w' h' false t.alt;
      w = w';
      h = h';
    } in
    if w' == t.w && h' == t.h then t else reset_tab_stops resized
