-- ===== src/Vterm/Inv/Prints.antt =====
-- Printing and the C0 controls keep the shape of the terminal.
use termulaa.Vterm.Laws.Printing.{make_room-in_row}
use termulaa.Prelude.{
  zero, suc, ◌+◌, ◌<◌, ◌≤◌, ◌⊎◌, ◌≡◌, ◌==◌, false, List, [], ◌∷◌, length, All, nil, cons,
  Bool-cases, inl, inr, ℕ, ◌-◌, Bool, arith, set, if◌then◌else◌, length-set,
}
use termulaa.Vterm.Cell.{Row, with_cells, blank_cell, erase_style}
use termulaa.Vterm.Width.{rune_width}
use termulaa.Vterm.State.{Screen, Terminal, active, set_x, to_x}
use termulaa.Vterm.Screen.{line_feed, insert_cells}
use termulaa.Vterm.Cursor.{tab_forward}
use termulaa.Vterm.Print.{
  write_glyph, advance, place, settle, make_room, attach, combine, print, execute, translate,
  lacks_cell, index_fails,
}
use termulaa.Vterm.Inv.{HasWidth, FitsIn, IsValid}
use termulaa.Vterm.Inv.Active.{active-Fits, put-IsValid, on_active-IsValid}
use termulaa.Vterm.Inv.Rows.{length-write_glyph, length-attach}
use termulaa.Vterm.Inv.Grids.{on_row-Fits}
use termulaa.Vterm.Inv.Scroll.{line_feed-Fits, wrap_to_next_line-Fits}
use termulaa.Vterm.Inv.Lines.{insert_cells-Fits}
use termulaa.Vterm.Inv.Cursors.{tab_forward-Fits}

module _ (t : Terminal) where
  advance-Fits : (width : ℕ) {s : Screen} → FitsIn t s → FitsIn t (advance t width s)
  unfolding advance
  advance-Fits width v = ground arith

  place-Fits : (r width : ℕ) {s : Screen} → FitsIn t s → FitsIn t (place r width t s)
  unfolding place
  place-Fits r width {s} v =
      let s' = if t.insert then insert_cells width t s else s in
      let v' : FitsIn t s' = ground (arith, insert_cells-Fits t width v) in
      let glyph = λ (row : Row). with_cells row (write_glyph t r width s.cur.x row.cells) in
      advance-Fits width
        (on_row-Fits glyph (λ row. length-write_glyph t r width s.cur.x row.cells) v')

  pub settle-Fits : {s : Screen} → FitsIn t s → FitsIn t (settle t s)
  unfolding settle
  settle-Fits {s} v = ground (arith, wrap_to_next_line-Fits t v)

  pub make_room-Fits : (width : ℕ) {s : Screen} → FitsIn t s → FitsIn t (make_room width t s)
  unfolding make_room
  make_room-Fits width {s} v =
      let blank = blank_cell (erase_style t.pen) in
      let blanked =
        on_row-Fits (λ r. with_cells r (set r.cells s.cur.x blank))
          (λ r. length-set r.cells s.cur.x blank) v in
      ground (arith, wrap_to_next_line-Fits t blanked)

  combine-Fits : (r : ℕ) {s : Screen} → FitsIn t s → FitsIn t (combine r t s)
  unfolding combine
  combine-Fits r {s} v =
      let onto = λ (x : ℕ).
        on_row-Fits (λ row. with_cells row (attach r x row.cells))
          (λ row. length-attach r x row.cells) v in
      ground (arith, onto (t.w - 1), onto (s.cur.x - 1))

  pub print_at-Fits :
      (g width : ℕ) {s : Screen}
      → FitsIn t s
      → FitsIn t (place g width t (make_room width t (settle t s)))
  print_at-Fits g width v = place-Fits g width (make_room-Fits width (settle-Fits v))

has_cell :
    {w : ℕ} (rows : List Row) (y x : ℕ)
    → All (HasWidth w) rows
    → y < length rows
    → x < w
    → lacks_cell rows y x ≡ false
unfolding lacks_cell
has_cell [] y x nil in_rows in_row = absurd (omega arith)
has_cell (r ∷ rs) zero x (cons h hs) in_rows in_row = ground (arith, h)
has_cell (r ∷ rs) (suc y) x (cons h hs) in_rows in_row = has_cell rs y x hs (omega arith) in_row

pub has_cell-Fits :
    (t : Terminal) (x : ℕ) {s : Screen} → FitsIn t s → x < t.w → lacks_cell s.rows s.cur.y x ≡ false
has_cell-Fits t x {s} v h =
    has_cell s.rows s.cur.y x v.grid.row_lens (omega (arith, v.grid.rows_len, v.y_in)) h

-- On a screen that fits a terminal of two columns or more, printing a glyph indexes only cells that
-- are there.
pub index_fails_never :
    (t : Terminal) (width : ℕ) {s : Screen}
    → FitsIn t s
    → 2 ≤ t.w
    → (width ≡ 1) ⊎ (width ≡ 2)
    → index_fails width t (settle t s) ≡ false
unfolding index_fails
index_fails_never t width {s} v wide w =
    let settled = settle-Fits t v in
    let placed = make_room width t (settle t s) in
    let room = make_room-in_row t width v wide w in
    let there =
      has_cell-Fits t (placed.cur.x + width - 1) (make_room-Fits t width settled) (omega arith) in
    let last = has_cell-Fits t (settle t s).cur.x settled settled.x_in in
    ground (arith, there, last)

pub rune_width_le : (is_mark : ℕ → Bool) (r : ℕ) → rune_width is_mark r ≤ 2
unfolding rune_width
rune_width_le is_mark r = ground arith

module _ (is_mark : ℕ → Bool) where
  pub print-IsValid : (r : ℕ) {t : Terminal} → IsValid t → IsValid (print is_mark r t)
  unfolding print
  print-IsValid r {t} v =
      let g = translate t r in
      let t' : Terminal = record t { last_printed = g } in
      let v' : IsValid t' = ground arith in
      let combined = on_active-IsValid {t = t} (combine g) v (λ s f. combine-Fits t g f) in
      let printed = λ (width : ℕ).
        on_active-IsValid {t = t'} (λ u s. place g width u (make_room width u (settle u s))) v'
          (λ s f. print_at-Fits t' g width f) in
      let width = rune_width is_mark g in
      let small = rune_width_le is_mark g in
      elim (Bool-cases (width == 0)) [
        | inl none ↦ rw none combined
        | inr some_wide ↦ elim (Bool-cases (index_fails width t' (settle t' (active t')))) [
          | inr fine ↦ rw (some_wide, fine) (printed width)
          | inl fails ↦
              let narrow : t.w < 2 =
                ground (arith, fails, index_fails_never t' width (active-Fits v')) in
              rw (some_wide, fails)
                (record {
                  main_fits = v.main_fits;
                  alt_fits = v.alt_fits;
                  stops_len = v.stops_len;
                  parser_fits = v.parser_fits;
                  no_fault = inl narrow;
                })
        ]
      ]

pub execute-IsValid : (b : ℕ) {t : Terminal} → IsValid t → IsValid (execute b t)
unfolding execute
execute-IsValid b {t} v =
    let f = active-Fits v in
    let fed = line_feed-Fits t f in
    let back : FitsIn t (to_x (active t) ((active t).cur.x - 1)) = ground arith in
    let home : FitsIn t (to_x (active t) 0) = ground arith in
    let newline : FitsIn t (set_x (line_feed t (active t)) 0) = ground arith in
    let tabbed = on_active-IsValid {t = t} (tab_forward 1) v (λ s g. tab_forward-Fits t 1 g) in
    ground (
      arith,
      put-IsValid _ v fed,
      put-IsValid _ v back,
      put-IsValid _ v home,
      put-IsValid _ v newline,
      tabbed,
    )
