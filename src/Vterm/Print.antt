-- ===== src/Vterm/Print.antt =====
-- internal/vterm/term.go: printing a rune, combining marks, and the C0 controls.
use termulaa.Prelude.{
  ℕ, zero, suc, length, ◌+◌, ◌-◌, Bool, true, false, not, ◌&&◌, ◌||◌, List, [], ◌∷◌, ◌++◌, ◌==◌,
  ltb, leb, get_or, set, modify, if◌then◌else◌,
}
use termulaa.Vterm.Cell.{Row, Cell, blank_cell, default_style, with_cells, erase_style, is_empty}
use termulaa.Vterm.Width.{rune_width}
use termulaa.Vterm.State.{
  Screen, Terminal, Charset, charset_ascii, charset_dec_graphics, active, put, on_active, set_x,
  to_x, at,
}
use termulaa.Vterm.Screen.{on_row, zero_width_at, wrap_to_next_line, insert_cells, line_feed}
use termulaa.Vterm.Cursor.{tab_forward}

-- `decGraphics[r]` for the runes '`' to '~'
abbrev pub dec_graphics_runes : List ℕ
dec_graphics_runes =
    0x25c6 ∷ 0x2592 ∷ 0x2409 ∷ 0x240c ∷ 0x240d ∷ 0x240a ∷ 0xb0 ∷ 0xb1 ∷ 0x2424 ∷ 0x240b ∷ 0x2518
    ∷ 0x2510 ∷ 0x250c ∷ 0x2514 ∷ 0x253c ∷ 0x23ba ∷ 0x23bb ∷ 0x2500 ∷ 0x23bc ∷ 0x23bd ∷ 0x251c
    ∷ 0x2524 ∷ 0x2534 ∷ 0x252c ∷ 0x2502 ∷ 0x2264 ∷ 0x2265 ∷ 0x3c0 ∷ 0x2260 ∷ 0xa3 ∷ 0xb7 ∷ []

abbrev pub dec_graphics : ℕ → ℕ
dec_graphics r = if leb 0x60 r && leb r 0x7e then get_or dec_graphics_runes (r - 0x60) r else r

abbrev pub gl_charset : Terminal → Charset
gl_charset t = if t.gl_index == 0 then t.charsets.g0 else t.charsets.g1

abbrev is_graphics : Charset → Bool
is_graphics charset_ascii = false
is_graphics charset_dec_graphics = true

unfoldable pub translate : Terminal → ℕ → ℕ
translate t r = if is_graphics (gl_charset t) then dec_graphics r else r

abbrev pub blank_styled : Cell → Cell
blank_styled c = blank_cell (erase_style c.style)

abbrev pub cell_width : List Cell → ℕ → ℕ
cell_width cs i = (get_or cs i (blank_cell default_style)).width

-- Overwriting half of a wide character blanks its other half: on the left, where column `x` holds
-- the placeholder,
unfoldable pub mend_left : ℕ → List Cell → List Cell
unfolding erase_style
mend_left x cells =
    if cell_width cells x == 0 && ltb 0 x then modify (x - 1) blank_styled cells else cells

-- on the right, where a narrow glyph replaces a wide one,
unfoldable pub mend_right : Terminal → ℕ → ℕ → List Cell → List Cell
unfolding erase_style
mend_right t width x cells =
    if width == 1 && ltb (x + 1) t.w && cell_width cells x == 2
    then modify (x + 1) blank_styled cells
    else cells

-- and where the second column of a wide glyph replaces the first of another.
unfoldable pub mend_next : Terminal → ℕ → List Cell → List Cell
unfolding erase_style
mend_next t x cells =
    if ltb (x + 2) t.w && cell_width cells (x + 1) == 2
    then modify (x + 2) blank_styled cells
    else cells

abbrev pub glyph_cell : Terminal → List ℕ → ℕ → Cell
glyph_cell t ch width = record { ch = ch; width = width; style = t.pen; link = t.link }

-- A printed space is a blank cell.
unfoldable pub put_glyph : Terminal → ℕ → ℕ → ℕ → List Cell → List Cell
unfolding mend_left mend_right
put_glyph t r width x cells =
    set (mend_right t width x (mend_left x cells)) x
      (glyph_cell t (if r == b' ' then [] else r ∷ []) width)

-- The glyph `r` of `width` 1 or 2 at column `x`.
unfoldable pub write_glyph : Terminal → ℕ → ℕ → ℕ → List Cell → List Cell
unfolding put_glyph mend_next
write_glyph t r width x cells =
    let written = put_glyph t r width x cells in
    if width == 2 then set (mend_next t x written) (x + 1) (glyph_cell t [] 0) else written

-- The cursor after a glyph of `width` columns.
unfoldable pub advance : Terminal → ℕ → Screen → Screen
advance t width s =
    let x = s.cur.x + width in
    if leb t.w x
    then record s { cur = record (s.cur) { x = t.w - 1; pending_wrap = true } }
    else set_x s x

-- The part of `print` behind the wrapping: the glyph goes to the cursor.
unfoldable pub place : ℕ → ℕ → Terminal → Screen → Screen
place r width t s =
    let s' = if t.insert then insert_cells width t s else s in
    advance t width (on_row (λ row. with_cells row (write_glyph t r width s.cur.x row.cells)) s')

-- A wrap that is due from the last glyph.
unfoldable pub settle : Terminal → Screen → Screen
settle t s =
    if not s.cur.pending_wrap
    then s
    else if t.autowrap
    then wrap_to_next_line t s
    else record s { cur = at s.cur (t.w - 1) s.cur.y }

-- A wide character that does not fit wraps whole, or moves left.
unfoldable pub make_room : ℕ → Terminal → Screen → Screen
make_room width t s =
    let blanked =
      on_row (λ r. with_cells r (set r.cells s.cur.x (blank_cell (erase_style t.pen)))) s in
    if width == 2 && s.cur.x == t.w - 1
    then (if t.autowrap then wrap_to_next_line t blanked else set_x s (t.w - 2))
    else s

-- `combine` on the row of the cursor; `x` is the column it attaches to.
unfoldable pub attach : ℕ → ℕ → List Cell → List Cell
attach r x cells =
    let x' = if zero_width_at cells x && ltb 0 x then x - 1 else x in
    modify x'
      (λ c.
        if is_empty c.ch
        then (if not (c.width == 1) then c else record c { ch = b' ' ∷ r ∷ [] })
        else record c { ch = c.ch ++ r ∷ [] })
      cells

unfoldable pub combine : ℕ → Terminal → Screen → Screen
unfolding attach
combine r t s =
    let onto = λ (x : ℕ). on_row (λ row. with_cells row (attach r x row.cells)) s in
    if s.cur.pending_wrap then onto (t.w - 1) else if ltb 0 s.cur.x then onto (s.cur.x - 1) else s

-- Whether `rows[y].cells[x]` is out of range.
unfoldable pub lacks_cell : List Row → ℕ → ℕ → Bool
lacks_cell [] y x = true
lacks_cell (r ∷ rs) zero x = not (ltb x (length r.cells))
lacks_cell (r ∷ rs) (suc y) x = lacks_cell rs y x

-- Whether printing a glyph, with no wrap due any more, indexes a cell that is not there, or leaves the
-- cursor in column -1: the last cell of the row when a wide glyph does not fit, then the cell or the
-- two that the glyph takes.
unfoldable pub index_fails : ℕ → Terminal → Screen → Bool
unfolding make_room
index_fails width t s =
    let placed = make_room width t s in
    let moves = if t.autowrap then lacks_cell s.rows s.cur.y s.cur.x else ltb t.w 2 in
    (width == 2 && s.cur.x == t.w - 1 && moves)
    || lacks_cell placed.rows placed.cur.y (placed.cur.x + width - 1)

module _ (is_mark : ℕ → Bool) where
  unfoldable pub print : ℕ → Terminal → Terminal
  print r t =
      let g = translate t r in
      let width = rune_width is_mark g in
      let t' = record t { last_printed = g } in
      if width == 0
      then on_active (combine g) t
      else if index_fails width t' (settle t' (active t'))
      then record t' { fault = true }
      else on_active (λ u s. place g width u (make_room width u (settle u s))) t'

-- A byte below 0x20, or DEL.
unfoldable pub execute : ℕ → Terminal → Terminal
execute b t =
    let s = active t in
    let fed = line_feed t s in
    if b == 0x08
    then put t (to_x s (s.cur.x - 1))
    else if b == 0x09
    then on_active (tab_forward 1) t
    else if b == 0x0a || b == 0x0b || b == 0x0c
    then put t (if t.line_feed_newline then set_x fed 0 else fed)
    else if b == 0x0d
    then put t (to_x s 0)
    else if b == 0x0e
    then record t { gl_index = 1 }
    else if b == 0x0f
    then record t { gl_index = 0 }
    else t
