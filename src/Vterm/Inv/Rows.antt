-- ===== src/Vterm/Inv/Rows.antt =====
-- The row operations keep the number of cells, and a grid keeps its shape.
use termulaa.Prelude.{
  ℕ, ◌-◌, List, ◌≡◌, ◌∙◌, arith, length, length-copy_at, length-map_range, length-modify,
  length-replicate, length-set,
}
use termulaa.Vterm.Cell.{Style, Cell, Row, new_row, clear, fitted}
use termulaa.Vterm.State.{Terminal}
use termulaa.Vterm.Screen.{
  clear_row, fresh_row, erase_row, delete_row_chars, insert_row_cells, wipe,
}
use termulaa.Vterm.Print.{mend_left, mend_right, mend_next, put_glyph, write_glyph, attach}

pub length-new_row : (w : ℕ) → length (new_row w).cells ≡ w
unfolding new_row
length-new_row w = length-replicate w _

pub length-clear :
    (r : Row) (from to : ℕ) (st : Style) → length (clear r from to st).cells ≡ length r.cells
unfolding clear
length-clear r from to st = length-map_range _ from to r.cells

pub length-clear_row :
    (t : Terminal) (r : Row) (from to : ℕ) → length (clear_row t r from to).cells ≡ length r.cells
unfolding clear_row
length-clear_row t r from to = grind (arith, length-copy_at, length-clear)

pub length-fresh_row : (t : Terminal) → length (fresh_row t).cells ≡ t.w
unfolding fresh_row
length-fresh_row t = length-clear (new_row t.w) 0 t.w t.pen ∙ length-new_row t.w

pub length-wipe : (t : Terminal) (r : Row) → length (wipe t r).cells ≡ length r.cells
unfolding wipe
length-wipe t r = length-clear r 0 t.w t.pen

pub length-erase_row :
    (mode : ℕ) (t : Terminal) (x : ℕ) (r : Row)
    → length (erase_row mode t x r).cells ≡ length r.cells
unfolding erase_row
length-erase_row mode t x r = grind (arith, length-clear_row, length-clear)

pub length-delete_row_chars :
    (n : ℕ) (t : Terminal) (x : ℕ) (r : Row)
    → length (delete_row_chars n t x r).cells ≡ length r.cells
unfolding delete_row_chars
length-delete_row_chars n t x r = length-map_range _ _ _ _ ∙ length-copy_at r.cells x _

pub length-insert_row_cells :
    (n : ℕ) (t : Terminal) (x : ℕ) (r : Row)
    → length (insert_row_cells n t x r).cells ≡ length r.cells
unfolding insert_row_cells
length-insert_row_cells n t x r =
    length-modify (t.w - 1) _ _ ∙ length-map_range _ x _ _ ∙ length-copy_at r.cells _ _

pub length-fitted : (r : Row) (w : ℕ) → length (fitted r w).cells ≡ w
unfolding fitted
length-fitted r w = grind (arith, length-modify, length-copy_at, length-replicate)

pub length-attach : (r x : ℕ) (cs : List Cell) → length (attach r x cs) ≡ length cs
unfolding attach
length-attach r x cs = length-modify _ _ cs

length-mend_left : (x : ℕ) (cs : List Cell) → length (mend_left x cs) ≡ length cs
unfolding mend_left
length-mend_left x cs = grind (arith, length-modify)

length-mend_right :
    (t : Terminal) (width x : ℕ) (cs : List Cell) → length (mend_right t width x cs) ≡ length cs
unfolding mend_right
length-mend_right t width x cs = grind (arith, length-modify)

length-mend_next : (t : Terminal) (x : ℕ) (cs : List Cell) → length (mend_next t x cs) ≡ length cs
unfolding mend_next
length-mend_next t x cs = grind (arith, length-modify)

length-put_glyph :
    (t : Terminal) (r width x : ℕ) (cs : List Cell) → length (put_glyph t r width x cs) ≡ length cs
unfolding put_glyph
length-put_glyph t r width x cs =
    length-set _ x _ ∙ length-mend_right t width x _ ∙ length-mend_left x cs

pub length-write_glyph :
    (t : Terminal) (r width x : ℕ) (cs : List Cell)
    → length (write_glyph t r width x cs) ≡ length cs
unfolding write_glyph
length-write_glyph t r width x cs = grind (arith, length-set, length-mend_next, length-put_glyph)
