-- ===== src/Vterm/Cursor.antt =====
-- internal/vterm/term.go: tab stops, cursor movement, and the saved cursor.
use termulaa.Prelude.{
  ℕ, zero, suc, ◌+◌, ◌-◌, Bool, true, false, not, List, [], ltb, leb, get_or, if◌then◌else◌,
}
use termulaa.Vterm.Cell.{default_style}
use termulaa.Vterm.State.{Screen, Terminal, set_x, unpend, at, active, put}
use termulaa.Vterm.Screen.{clamp}

unfoldable pub iterate {ℓ} : {A : Type ℓ} → ℕ → (A → A) → A → A
iterate zero f a = a
iterate (suc n) f a = iterate n f (f a)

-- `for x < t.w && !t.tabStops[x] { x++ }`; `n` is the number of columns left, `t.w - x`.
unfoldable pub next_stop : List Bool → ℕ → ℕ → ℕ
next_stop stops x zero = x
next_stop stops x (suc n) =
    let further = next_stop stops (x + 1) n in if get_or stops x false then x else further

-- `for x > 0 && !t.tabStops[x] { x-- }`
unfoldable pub prev_stop : List Bool → ℕ → ℕ
prev_stop stops zero = zero
prev_stop stops (suc x) =
    let further = prev_stop stops x in if get_or stops (suc x) false then suc x else further

unfoldable pub tab_forward_once : Terminal → Screen → Screen
unfolding next_stop
tab_forward_once t s =
    let x = next_stop t.tab_stops (s.cur.x + 1) (t.w - (s.cur.x + 1)) in
    set_x s (if leb t.w x then t.w - 1 else x)

unfoldable pub tab_forward : ℕ → Terminal → Screen → Screen
unfolding tab_forward_once iterate
tab_forward n t s = iterate n (tab_forward_once t) (unpend s)

unfoldable pub tab_backward_once : Terminal → Screen → Screen
unfolding prev_stop
tab_backward_once t s = set_x s (prev_stop t.tab_stops (s.cur.x - 1))

unfoldable pub tab_backward : ℕ → Terminal → Screen → Screen
unfolding tab_backward_once iterate
tab_backward n t s = iterate n (tab_backward_once t) (unpend s)

unfoldable pub move_cursor : ℕ → ℕ → Terminal → Screen → Screen
move_cursor x y t s =
    let min_y = if t.origin then s.top else 0 in
    let max_y = if t.origin then s.bot else t.h - 1 in
    let low = if ltb y min_y then min_y else y in
    record s { cur = at s.cur (clamp x (t.w - 1)) (clamp low max_y) }

unfoldable pub cursor_up : ℕ → Terminal → Screen → Screen
cursor_up n t s =
    let limit = if leb s.top s.cur.y then s.top else 0 in
    let y = s.cur.y - n in record s { cur = at s.cur s.cur.x (if ltb y limit then limit else y) }

unfoldable pub cursor_down : ℕ → Terminal → Screen → Screen
cursor_down n t s =
    let limit = if leb s.cur.y s.bot then s.bot else t.h - 1 in
    record s { cur = at s.cur s.cur.x (clamp (s.cur.y + n) limit) }

unfoldable pub save_cursor : Terminal → Screen → Screen
save_cursor t s = record s {
  saved = record {
    x = s.cur.x;
    y = s.cur.y;
    pen = t.pen;
    link = t.link;
    charset = t.gl_index;
    g = t.charsets;
    origin = t.origin;
    valid = true;
  };
}

-- The cursor that `restoreCursor` takes from a valid saved one.
unfoldable pub recall : Terminal → Screen → Screen
recall t s = record s { cur = at s.cur (clamp s.saved.x (t.w - 1)) (clamp s.saved.y (t.h - 1)) }

unfoldable pub restore_cursor : Terminal → Terminal
restore_cursor t =
    let s = active t in
    let v = s.saved in
    if not v.valid
    then record (put t (move_cursor 0 0 t s)) { pen = default_style; link = [] }
    else record (put t (recall t s)) {
      pen = v.pen;
      link = v.link;
      gl_index = v.charset;
      charsets = v.g;
      origin = v.origin;
    }
