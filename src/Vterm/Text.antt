-- ===== src/Vterm/Text.antt =====
-- internal/vterm/term.go: the accessors, and the text of rows and screens as code points.
use termulaa.Prelude.{
  ℕ, zero, suc, false, ◌&&◌, ◌||◌, List, [], ◌∷◌, ◌++◌, ◌≡◌, refl, ap, ◌∙◌, ◌==◌, leb, length, take,
  get_or, if◌then◌else◌, Bool-cases, inl, inr,
}
use termulaa.Vterm.Cell.{
  Cell, Row, default_style, is_empty, is_blank, last_visible_in, last_visible, trimmed,
}
use termulaa.Vterm.State.{Terminal, active}

unfoldable pub size : Terminal → ℕ × ℕ
size t = (t.w, t.h)

unfoldable pub cursor : Terminal → ℕ × ℕ
unfolding active
cursor t = ((active t).cur.x, (active t).cur.y)

unfoldable pub scrollback_len : Terminal → ℕ
scrollback_len t = length t.main.scrollback

abbrev cell_text : Cell → List ℕ
cell_text c = if c.width == 0 then [] else if is_empty c.ch then b' ' ∷ [] else c.ch

unfoldable pub cells_text : List Cell → List ℕ
cells_text [] = []
cells_text (c ∷ cs) = cell_text c ++ cells_text cs

-- `strings.TrimRight(s, " ")`
unfoldable pub trim_blanks : List ℕ → List ℕ
trim_blanks [] = []
trim_blanks (b ∷ bs) =
    let rest = trim_blanks bs in if is_empty rest && b == b' ' then [] else b ∷ rest

unfoldable pub row_text : Row → List ℕ
unfolding cells_text trim_blanks last_visible
row_text r = trim_blanks (cells_text (take (last_visible r) r.cells))

abbrev no_row : Row
no_row = record { cells = []; wrapped = false }

-- An index is not negative.
unfoldable pub line : Terminal → ℕ → List ℕ
unfolding row_text active
line t y = if leb t.h y then [] else row_text (get_or (active t).rows y no_row)

unfoldable pub scrollback_line : Terminal → ℕ → List ℕ
unfolding row_text
scrollback_line t i =
    if leb (length t.main.scrollback) i then [] else row_text (get_or t.main.scrollback i no_row)

-- The first rows, with a line feed between two.
unfoldable pub rows_text : ℕ → List Row → List ℕ
unfolding row_text
rows_text zero rs = []
rows_text (suc n) [] = []
rows_text (suc zero) (r ∷ rs) = row_text r
rows_text (suc (suc n)) (r ∷ rs) = row_text r ++ 0x0a ∷ rows_text (suc n) rs

unfoldable pub screen_text : Terminal → List ℕ
unfolding rows_text active
screen_text t = rows_text t.h (active t).rows

abbrev zero_cell : Cell
zero_cell = record { ch = []; width = 0; style = default_style; link = [] }

unfoldable pub cell_at : Terminal → ℕ → ℕ → Cell
unfolding active
cell_at t x y =
    if leb t.h y || leb t.w x
    then zero_cell
    else get_or (get_or (active t).rows y no_row).cells x zero_cell

visible_again :
    (cs : List Cell) → last_visible_in (take (last_visible_in cs) cs) ≡ last_visible_in cs
unfolding last_visible_in
visible_again [] = refl
visible_again (c ∷ cs) = elim (Bool-cases (last_visible_in cs == 0)) [
  | inl none_seen ↦ elim (Bool-cases (is_blank c)) [
    | inl blank ↦ rw (none_seen, blank) refl
    | inr shown ↦ rw (none_seen, shown) (ap (λ b. if b then 0 else 1) shown)
  ]
  | inr some_seen ↦ rw some_seen (
      ap (λ m. if m == 0 then (if is_blank c then 0 else 1) else suc m) (visible_again cs)
      ∙ rw some_seen refl)
]

take-take : (n : ℕ) (cs : List Cell) → take n (take n cs) ≡ take n cs
take-take zero cs = refl
take-take (suc n) [] = refl
take-take (suc n) (c ∷ cs) = ap (◌∷◌ c) (take-take n cs)

-- A row that goes to the scrollback without its trailing blanks keeps its text.
pub row_text-trimmed : (r : Row) → row_text (trimmed r) ≡ row_text r
unfolding row_text trimmed last_visible
row_text-trimmed r =
    ap (λ n. trim_blanks (cells_text (take n (take (last_visible_in r.cells) r.cells))))
      (visible_again r.cells)
    ∙ ap (λ cs. trim_blanks (cells_text cs)) (take-take (last_visible_in r.cells) r.cells)
