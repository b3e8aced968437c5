-- ===== src/Vterm/Sgr.antt =====
-- internal/vterm/dispatch.go: `sgr` and `extendedColor`.
pub mod Fuel
use termulaa.Prelude.{
  ℕ, zero, suc, ◌+◌, ◌-◌, Bool, true, false, not, ◌&&◌, ◌||◌, none, some, ◌==◌, ltb, leb, within,
  get_or, if◌then◌else◌,
}
use termulaa.Vterm.Cell.{
  Color, indexed_color, rgb_color, Attr, Style, default_style, Underline, underline_none,
  underline_single, underline_double, underline_curly, underline_dotted, underline_dashed,
}
use termulaa.Vterm.State.{Parser, Terminal}
use termulaa.Vterm.Params.{raw_param?, raw_param}

abbrev pub sub_at : Parser → ℕ → Bool
sub_at p i = get_or p.is_sub i false

-- Mode 5: `5;n`
unfoldable pub palette_color : Parser → ℕ → Color × ℕ
unfolding raw_param
palette_color p i =
    let n = raw_param p (i + 2) 0 in
    if leb p.n_params (i + 2) then (0, 0) else if ltb 255 n then (0, 0) else (indexed_color n, 2)

-- Mode 2 with its components from `start` on.
unfoldable pub true_color : Parser → ℕ → ℕ → Color × ℕ
unfolding raw_param
true_color p start used =
    let r = raw_param p start 0 in
    let g = raw_param p (start + 1) 0 in
    let b = raw_param p (start + 2) 0 in
    if leb p.n_params (start + 2)
    then (0, 0)
    else if ltb 255 r || ltb 255 g || ltb 255 b
    then (0, 0)
    else (rgb_color r g b, used)

unfoldable pub extended_color : Parser → ℕ → Color × ℕ
unfolding palette_color true_color raw_param?
extended_color p i =
    let sub = ltb (i + 1) p.n_params && sub_at p (i + 1) in
    let spaced =
      sub && ltb (i + 5) p.n_params && sub_at p (i + 5) && not (get_or p.has_value (i + 2) false) in
    elim (raw_param? p (i + 1)) [
      | none ↦ (0, 0)
      | some mode ↦
          if mode == 5
          then palette_color p i
          else if mode == 2
          then (if spaced then true_color p (i + 3) 5 else true_color p (i + 2) 4)
          else (0, 0)
    ]

abbrev pub underline_of : ℕ → Underline
underline_of n =
    if n == 0
    then underline_none
    else if n == 2
    then underline_double
    else if n == 3
    then underline_curly
    else if n == 4
    then underline_dotted
    else if n == 5
    then underline_dashed
    else underline_single

abbrev with_attrs : Style → Attr → Style
with_attrs st a = record st { attrs = a }

abbrev with_underline : Style → Underline → Style
with_underline st u = record st { underline = u }

-- The flags: 1 to 9 set one, 22 to 29 clear them.
unfoldable pub sgr_attr : ℕ → Style → Style
sgr_attr v st =
    let a = st.attrs in
    if v == 1
    then with_attrs st (record a { bold = true })
    else if v == 2
    then with_attrs st (record a { dim = true })
    else if v == 3
    then with_attrs st (record a { italic = true })
    else if v == 5 || v == 6
    then with_attrs st (record a { blink = true })
    else if v == 7
    then with_attrs st (record a { inverse = true })
    else if v == 8
    then with_attrs st (record a { hidden = true })
    else if v == 9
    then with_attrs st (record a { strike = true })
    else if v == 22
    then with_attrs st (record a { bold = false; dim = false })
    else if v == 23
    then with_attrs st (record a { italic = false })
    else if v == 25
    then with_attrs st (record a { blink = false })
    else if v == 27
    then with_attrs st (record a { inverse = false })
    else if v == 28
    then with_attrs st (record a { hidden = false })
    else if v == 29
    then with_attrs st (record a { strike = false })
    else st

-- The underline and the colours that take one parameter.
unfoldable pub sgr_color : ℕ → Style → Style
unfolding sgr_attr
sgr_color v st =
    if v == 21
    then with_underline st underline_double
    else if v == 24
    then with_underline st underline_none
    else if within 30 37 v
    then record st { fg = indexed_color (v - 30) }
    else if v == 39
    then record st { fg = 0 }
    else if within 40 47 v
    then record st { bg = indexed_color (v - 40) }
    else if v == 49
    then record st { bg = 0 }
    else if v == 59
    then record st { ul = 0 }
    else if within 90 97 v
    then record st { fg = indexed_color (v - 90 + 8) }
    else if within 100 107 v
    then record st { bg = indexed_color (v - 100 + 8) }
    else sgr_attr v st

-- `pen.X = c; i += used` where parameters were consumed.
abbrev pub take_color : Style → (Color → Style) → Color × ℕ → Style × ℕ
take_color st assign (c, used) = if ltb 0 used then (assign c, used) else (st, 0)

-- One round of the loop at parameter `i`: the pen, and how many parameters more were consumed.
unfoldable pub sgr_at : Parser → ℕ → Style → Style × ℕ
unfolding sgr_color extended_color raw_param
sgr_at p i st =
    let v = raw_param p i 0 in
    let styled =
      if ltb (i + 1) p.n_params && sub_at p (i + 1)
      then underline_of (raw_param p (i + 1) 1)
      else underline_single in
    if sub_at p i
    then (st, 0)
    else if v == 0
    then (default_style, 0)
    else if v == 4
    then (with_underline st styled, 0)
    else if v == 38
    then take_color st (λ c. record st { fg = c }) (extended_color p i)
    else if v == 48
    then take_color st (λ c. record st { bg = c }) (extended_color p i)
    else if v == 58
    then take_color st (λ c. record st { ul = c }) (extended_color p i)
    else (sgr_color v st, 0)

-- `fuel` bounds the rounds; `n_params` are enough, since `i` grows in each.
unfoldable pub sgr_loop : Parser → ℕ → ℕ → Style → Style
unfolding sgr_at
sgr_loop p zero i st = st
sgr_loop p (suc fuel) i st =
    let next = sgr_at p i st in
    let rest = sgr_loop p fuel (i + next.1 + 1) next.0 in if ltb i p.n_params then rest else st

unfoldable pub sgr : Terminal → Terminal
unfolding sgr_loop
sgr t =
    if t.p.n_params == 0
    then record t { pen = default_style }
    else record t { pen = sgr_loop t.p t.p.n_params 0 t.pen }
