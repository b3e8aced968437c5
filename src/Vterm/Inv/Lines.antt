-- ===== src/Vterm/Inv/Lines.antt =====
-- Erasing, inserting and deleting keep the shape of the screen.
use termulaa.Prelude.{ℕ, ◌+◌, ◌-◌, ◌∙◌, arith}
use termulaa.Vterm.Cell.{Row, clear, unwrap}
use termulaa.Vterm.State.{Screen, Terminal, unpend}
use termulaa.Vterm.Screen.{
  clear_row, fresh_row, erase_row, delete_row_chars, insert_row_cells, wipe, clamp, erase_in_line,
  erase_in_display, erase_chars, delete_chars, insert_cells, insert_lines, delete_lines,
}
use termulaa.Vterm.Inv.{HasWidth, FitsIn}
use termulaa.Vterm.Inv.Rows.{
  length-clear, length-clear_row, length-fresh_row, length-wipe, length-erase_row,
  length-delete_row_chars, length-insert_row_cells,
}
use termulaa.Vterm.Inv.Grids.{All-slice, Grid-copy_at, Grid-map_range, on_row-Fits, with_rows}

module _ (t : Terminal) where
  pub unpend-Fits : {s : Screen} → FitsIn t s → FitsIn t (unpend s)
  unpend-Fits v = ground arith

  pub erase_in_line-Fits : (mode : ℕ) {s : Screen} → FitsIn t s → FitsIn t (erase_in_line mode t s)
  unfolding erase_in_line
  erase_in_line-Fits mode {s} v =
      on_row-Fits (erase_row mode t s.cur.x) (length-erase_row mode t s.cur.x) v

  wipe_keeps : (r : Row) → HasWidth t.w r → HasWidth t.w (wipe t r)
  wipe_keeps r p = length-wipe t r ∙ p

  pub erase_in_display-Fits :
      (mode : ℕ) {s : Screen} → FitsIn t s → FitsIn t (erase_in_display mode t s)
  unfolding erase_in_display
  erase_in_display-Fits mode {s} v =
      let above = with_rows _ (Grid-map_range v.grid (wipe t) 0 s.cur.y wipe_keeps) v in
      let line = erase_in_line-Fits 0 v in
      let below = Grid-map_range line.grid (wipe t) (s.cur.y + 1) t.h wipe_keeps in
      let whole =
        Grid-map_range v.grid (λ r. unwrap (clear_row t r 0 t.w)) 0 t.h
          (λ r p. length-clear_row t r 0 t.w ∙ p) in
      ground (arith, above, line, below, whole, erase_in_line-Fits 1 above)

  pub erase_chars-Fits : (n : ℕ) {s : Screen} → FitsIn t s → FitsIn t (erase_chars n t s)
  unfolding erase_chars
  erase_chars-Fits n {s} v = unpend-Fits (
      on_row-Fits (λ r. clear r s.cur.x (clamp (s.cur.x + n) t.w) t.pen) (λ r. length-clear r _ _ _)
        v)

  pub delete_chars-Fits : (n : ℕ) {s : Screen} → FitsIn t s → FitsIn t (delete_chars n t s)
  unfolding delete_chars
  delete_chars-Fits n {s} v =
      unpend-Fits
        (on_row-Fits (delete_row_chars n t s.cur.x) (length-delete_row_chars n t s.cur.x) v)

  pub insert_cells-Fits : (n : ℕ) {s : Screen} → FitsIn t s → FitsIn t (insert_cells n t s)
  unfolding insert_cells
  insert_cells-Fits n {s} v =
      on_row-Fits (insert_row_cells n t s.cur.x) (length-insert_row_cells n t s.cur.x) v

  pub insert_lines-Fits : (n : ℕ) {s : Screen} → FitsIn t s → FitsIn t (insert_lines n t s)
  unfolding insert_lines
  insert_lines-Fits n {s} v =
      let y = s.cur.y in
      let m = clamp n (s.bot - y + 1) in
      let shifted = Grid-copy_at v.grid (y + m) (All-slice y (s.bot + 1 - m) v.grid.row_lens) in
      ground
        (arith, Grid-map_range shifted (λ _. fresh_row t) y (y + m) (λ _ _. length-fresh_row t))

  pub delete_lines-Fits : (n : ℕ) {s : Screen} → FitsIn t s → FitsIn t (delete_lines n t s)
  unfolding delete_lines
  delete_lines-Fits n {s} v =
      let y = s.cur.y in
      let m = clamp n (s.bot - y + 1) in
      let shifted = Grid-copy_at v.grid y (All-slice (y + m) (s.bot + 1) v.grid.row_lens) in
      ground (
        arith,
        Grid-map_range shifted (λ _. fresh_row t) (s.bot + 1 - m) (s.bot + 1)
            (λ _ _. length-fresh_row t),
      )
