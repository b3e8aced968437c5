-- ===== src/Vterm/Cell.antt =====
-- internal/vterm/cell.go: colours, attributes, cells and rows.
-- A colour is the packed 32-bit number; its fields do not overlap, so `|` and `<<` are sums and
-- products. The attribute set has one Boolean for each flag. A string is its list of code points
-- (`ch`) or of bytes (`link`).

use termulaa.Prelude.{
  ℕ, suc, ◌+◌, ◌-◌, ◌*◌, ◌^◌, Bool, true, false, not, ◌&&◌, ◌||◌, List, [], ◌∷◌, ◌==◌, take,
  replicate, copy_at, map_range, modify, ltb, if◌then◌else◌,
}

abbrev pub Color : Type 0
Color = ℕ

abbrev pub color_kind_indexed : Color
color_kind_indexed = 2 ^ 24

abbrev pub color_kind_rgb : Color
color_kind_rgb = 2 * 2 ^ 24

abbrev pub indexed_color : ℕ → Color
indexed_color i = color_kind_indexed + i

abbrev pub rgb_color : ℕ → ℕ → ℕ → Color
rgb_color r g b = color_kind_rgb + r * 2 ^ 16 + g * 2 ^ 8 + b

abbrev pub color_is_default : Color → Bool
color_is_default c = c == 0

pub record Attr : Type 0 where
  pub bold : Bool
  pub dim : Bool
  pub italic : Bool
  pub blink : Bool
  pub inverse : Bool
  pub hidden : Bool
  pub strike : Bool

abbrev pub no_attrs : Attr
no_attrs = record {
  bold = false;
  dim = false;
  italic = false;
  blink = false;
  inverse = false;
  hidden = false;
  strike = false;
}

pub data Underline : Type 0 where
  underline_none underline_single underline_double : Underline
  underline_curly underline_dotted underline_dashed : Underline

pub record Style : Type 0 where
  pub fg : Color
  pub bg : Color
  pub ul : Color
  pub attrs : Attr
  pub underline : Underline

-- `Style{}`
abbrev pub default_style : Style
default_style = record { fg = 0; bg = 0; ul = 0; attrs = no_attrs; underline = underline_none }

abbrev pub is_none : Underline → Bool
is_none underline_none = true
is_none _ = false

abbrev any_attr : Attr → Bool
any_attr a = a.bold || a.dim || a.italic || a.blink || a.inverse || a.hidden || a.strike

unfoldable pub style_is_zero : Style → Bool
style_is_zero s =
    s.fg == 0 && s.bg == 0 && s.ul == 0 && not (any_attr s.attrs) && is_none s.underline

pub record Cell : Type 0 where
  pub ch : List ℕ
  pub width : ℕ
  pub style : Style
  pub link : List ℕ

-- `Cell{Width: 1, Style: st}`
abbrev pub blank_cell : Style → Cell
blank_cell st = record { ch = []; width = 1; style = st; link = [] }

-- c.Ch == "" || c.Ch == " "
abbrev pub ch_is_blank : List ℕ → Bool
ch_is_blank [] = true
ch_is_blank (c ∷ []) = c == b' '
ch_is_blank (c ∷ d ∷ cs) = false

abbrev pub is_empty {ℓ} : {A : Type ℓ} → List A → Bool
is_empty [] = true
is_empty (x ∷ xs) = false

unfoldable pub is_blank : Cell → Bool
unfolding style_is_zero
is_blank c = ch_is_blank c.ch && not (c.width == 0) && style_is_zero c.style && is_empty c.link

pub record Row : Type 0 where
  pub cells : List Cell
  pub wrapped : Bool

abbrev pub with_cells : Row → List Cell → Row
with_cells r cs = record r { cells = cs }

abbrev pub unwrap : Row → Row
unwrap r = record r { wrapped = false }

unfoldable pub new_row : ℕ → Row
new_row w = record { cells = replicate w (blank_cell default_style); wrapped = false }

unfoldable pub erase_style : Style → Style
erase_style st = record default_style { bg = st.bg }

-- Both bounds are clamped to the row: `map_range` stays inside it, and an index is never negative.
unfoldable pub clear : Row → ℕ → ℕ → Style → Row
clear r from to st = with_cells r (map_range (λ _. blank_cell (erase_style st)) from to r.cells)

-- The loop from the last cell down, as a recursion from the front: the index just past the last
-- cell that is not blank.
unfoldable pub last_visible_in : List Cell → ℕ
unfolding is_blank
last_visible_in [] = 0
last_visible_in (c ∷ cs) =
    let n = last_visible_in cs in if n == 0 then (if is_blank c then 0 else 1) else suc n

unfoldable pub last_visible : Row → ℕ
unfolding last_visible_in
last_visible r = last_visible_in r.cells

unfoldable pub trimmed : Row → Row
unfolding last_visible
trimmed r = with_cells r (take (last_visible r) r.cells)

-- A wide character cut at the right edge becomes a blank.
abbrev pub uncut : Cell → Cell
uncut c = if c.width == 2 then blank_cell default_style else c

unfoldable pub fitted : Row → ℕ → Row
fitted r w =
    let padded = copy_at (replicate w (blank_cell default_style)) 0 r.cells in
    with_cells r (if ltb 0 w then modify (w - 1) uncut padded else padded)
