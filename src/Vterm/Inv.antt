-- ===== src/Vterm/Inv.antt =====
-- The shape that every operation of internal/vterm keeps: rows and columns of the two screens, the
-- cursor and the margins inside them, the scrollback within its limit, and the parser's arrays.
pub mod Rows
pub mod Grids
pub mod Scroll
pub mod Lines
pub mod Cursors
pub mod Active
pub mod Prints
pub mod Screens
pub mod Sizes
pub mod Parsing
pub mod Dispatching
pub mod Feeding
use termulaa.Prelude.{
  ℕ, ◌+◌, ◌*◌, ◌≤◌, ◌<◌, ◌⊎◌, Bool, true, false, List, ◌≡◌, length, All, if◌then◌else◌,
}
use termulaa.Vterm.Cell.{Row}
use termulaa.Vterm.State.{Screen, Parser, Terminal, active, put, max_params, max_osc_bytes}
use termulaa.Vterm.Params.{max_value}

abbrev pub HasWidth : ℕ → Row → Type 0
HasWidth w r = length r.cells ≡ w

-- `h` rows of `w` cells.
pub record Grid (w h : ℕ) (rows : List Row) : Type 0 where
  pub rows_len : length rows ≡ h
  pub row_lens : All (HasWidth w) rows

-- A screen of `w` columns and `h` rows that may keep `limit` lines of scrollback.
pub record Fits (w h limit : ℕ) (s : Screen) : Type 0 where
  pub grid : Grid w h s.rows
  pub x_in : s.cur.x < w
  pub y_in : s.cur.y < h
  pub margins : s.top ≤ s.bot
  pub bot_in : s.bot < h
  pub kept : length s.scrollback ≤ limit

-- What the active screen may keep: the alternate one keeps nothing.
abbrev pub limit : Terminal → ℕ
limit t = if t.alt_active then 0 else t.max_scrollback

abbrev pub FitsIn : Terminal → Screen → Type 0
FitsIn t s = Fits t.w t.h (limit t) s

pub record ParserFits (p : Parser) : Type 0 where
  pub params_len : length p.params ≡ max_params
  pub has_value_len : length p.has_value ≡ max_params
  pub is_sub_len : length p.is_sub ≡ max_params
  pub n_params_in : p.n_params ≤ max_params
  pub params_small : All (λ v. v ≤ max_value) p.params
  pub osc_small : length p.osc ≤ max_osc_bytes + 3
  pub partial_small : length p.partial ≤ 4

pub record IsValid (t : Terminal) : Type 0 where
  pub main_fits : Fits t.w t.h t.max_scrollback t.main
  pub alt_fits : Fits t.w t.h 0 t.alt
  pub stops_len : length t.tab_stops ≡ t.w
  pub parser_fits : ParserFits t.p
  -- A terminal of two columns or more has met no fault.
  pub no_fault : (t.w < 2) ⊎ (t.fault ≡ false)
