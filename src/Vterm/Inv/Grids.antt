-- ===== src/Vterm/Inv/Grids.antt =====
-- A grid keeps its shape under the loops and copies over its rows.
use termulaa.Prelude.{
  ℕ, suc, List, [], ◌∷◌, map, ◌≡◌, refl, ◌∙◌, ap, length, slice, copy_at, map_range, modify, All,
  nil, cons, All-take, All-drop, All-copy_at, All-map_range, All-modify, length-copy_at,
  length-map_range, length-modify,
}
use termulaa.Vterm.Cell.{Row}
use termulaa.Vterm.State.{Screen}
use termulaa.Vterm.Screen.{on_row}
use termulaa.Vterm.Inv.{HasWidth, Grid, Fits}

-- A row operation that keeps the number of cells.
abbrev pub KeepsWidth : (Row → Row) → Type 0
KeepsWidth f = (r : Row) → length (f r).cells ≡ length r.cells

pub All-slice {ℓ κ} :
    {A : Type ℓ} {P : A → Type κ} (a b : ℕ) {xs : List A} → All P xs → All P (slice xs a b)
All-slice a b h = All-drop a (All-take b h)

pub All-map :
    {w : ℕ} (f : Row → Row) {rows : List Row}
    → ((r : Row) → HasWidth w r → HasWidth w (f r))
    → All (HasWidth w) rows
    → All (HasWidth w) (map f rows)
All-map f k nil = nil
All-map f k (cons {x} p h) = cons (k x p) (All-map f k h)

pub length-map : (f : Row → Row) (rows : List Row) → length (map f rows) ≡ length rows
length-map f [] = refl
length-map f (r ∷ rows) = ap suc (length-map f rows)

module _ {w h : ℕ} {rows : List Row} (g : Grid w h rows) where
  pub Grid-modify : (i : ℕ) (f : Row → Row) → KeepsWidth f → Grid w h (modify i f rows)
  Grid-modify i f k = record {
    rows_len = length-modify i f rows ∙ g.rows_len;
    row_lens = All-modify i f (λ r p. k r ∙ p) g.row_lens;
  }

  pub Grid-map_range :
      (f : Row → Row) (a b : ℕ)
      → ((r : Row) → HasWidth w r → HasWidth w (f r))
      → Grid w h (map_range f a b rows)
  Grid-map_range f a b k = record {
    rows_len = length-map_range f a b rows ∙ g.rows_len;
    row_lens = All-map_range f a b k g.row_lens;
  }

  pub Grid-map :
      (f : Row → Row) → ((r : Row) → HasWidth w r → HasWidth w (f r)) → Grid w h (map f rows)
  Grid-map f k = record {
    rows_len = length-map f rows ∙ g.rows_len;
    row_lens = All-map f k g.row_lens;
  }

  pub Grid-copy_at : (i : ℕ) {ys : List Row} → All (HasWidth w) ys → Grid w h (copy_at rows i ys)
  Grid-copy_at i {ys} k = record {
    rows_len = length-copy_at rows i ys ∙ g.rows_len;
    row_lens = All-copy_at i g.row_lens k;
  }

-- An operation on the row of the cursor.
pub on_row-Fits :
    {w h limit : ℕ} {s : Screen} (f : Row → Row)
    → KeepsWidth f
    → Fits w h limit s
    → Fits w h limit (on_row f s)
on_row-Fits {s} f k v = record {
  grid = Grid-modify v.grid s.cur.y f k;
  x_in = v.x_in;
  y_in = v.y_in;
  margins = v.margins;
  bot_in = v.bot_in;
  kept = v.kept;
}

pub with_rows :
    {w h limit : ℕ} {s : Screen} (rows : List Row)
    → Grid w h rows
    → Fits w h limit s
    → Fits w h limit (record s { rows = rows })
with_rows rows g v = record {
  grid = g;
  x_in = v.x_in;
  y_in = v.y_in;
  margins = v.margins;
  bot_in = v.bot_in;
  kept = v.kept;
}
