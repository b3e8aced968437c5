-- ===== src/Vterm/State.antt =====
-- internal/vterm/term.go: the state of the emulator and its initial value.
-- The pointer `t.s` is `main` or `alt` by `alt_active`; `put` writes through it. The cached
-- `blankRow` has no field: it holds what `newRow` gives and is never written to. `fault` marks a
-- state that the record cannot hold, behind an index panic or with a cursor column of -1. It is set
-- where the indexes of `print` leave the grid; elsewhere `set` and `modify` do nothing out of range.
use termulaa.Prelude.{
  ℕ, zero, suc, ◌+◌, ◌-◌, ◌%◌, Bool, true, false, ◌&&◌, List, [], ◌∷◌, ◌==◌, ltb, leb, replicate,
  if◌then◌else◌,
}
use termulaa.Vterm.Cell.{Style, default_style, Row, new_row}

pub record Cursor : Type 0 where
  pub x : ℕ
  pub y : ℕ
  pub pending_wrap : Bool

pub data Charset : Type 0 where
  charset_ascii charset_dec_graphics : Charset

-- `[2]charset`
pub record Charsets : Type 0 where
  pub g0 : Charset
  pub g1 : Charset

abbrev pub ascii_charsets : Charsets
ascii_charsets = record { g0 = charset_ascii; g1 = charset_ascii }

pub record SavedCursor : Type 0 where
  pub x : ℕ
  pub y : ℕ
  pub pen : Style
  pub link : List ℕ
  pub charset : ℕ
  pub g : Charsets
  pub origin : Bool
  pub valid : Bool

abbrev pub no_saved : SavedCursor
no_saved = record {
  x = 0;
  y = 0;
  pen = default_style;
  link = [];
  charset = 0;
  g = ascii_charsets;
  origin = false;
  valid = false;
}

pub record Screen : Type 0 where
  pub rows : List Row
  pub cur : Cursor
  pub saved : SavedCursor
  pub top : ℕ
  pub bot : ℕ
  pub scrollback : List Row

pub data ParserState : Type 0 where
  ground escape escape_intermediate csi_entry csi_param csi_intermediate csi_ignore : ParserState
  osc_string osc_escape string_payload string_escape : ParserState

abbrev pub max_params : ℕ
max_params = 32

abbrev pub max_osc_bytes : ℕ
max_osc_bytes = 4096

pub record Parser : Type 0 where
  pub state : ParserState
  pub params : List ℕ
  pub has_value : List Bool
  pub is_sub : List Bool
  pub n_params : ℕ
  pub intermediate : ℕ
  pub private : ℕ
  pub overflow : Bool
  pub osc : List ℕ
  -- the first `nPart` bytes of the array `partial`
  pub partial : List ℕ

-- `parser{}`
unfoldable pub new_parser : Parser
new_parser = record {
  state = ground;
  params = replicate max_params 0;
  has_value = replicate max_params false;
  is_sub = replicate max_params false;
  n_params = 0;
  intermediate = 0;
  private = 0;
  overflow = false;
  osc = [];
  partial = [];
}

pub record Terminal : Type 0 where
  pub w : ℕ
  pub h : ℕ
  pub main : Screen
  pub alt : Screen
  pub alt_active : Bool
  pub max_scrollback : ℕ
  pub pen : Style
  pub link : List ℕ
  pub last_printed : ℕ
  pub cursor_keys : Bool
  pub origin : Bool
  pub autowrap : Bool
  pub cursor_visible : Bool
  pub insert : Bool
  pub line_feed_newline : Bool
  pub bracketed_paste : Bool
  pub focus_events : Bool
  pub mouse : ℕ
  pub mouse_enc : ℕ
  pub cursor_style : ℕ
  pub title : List ℕ
  pub charsets : Charsets
  pub gl_index : ℕ
  pub tab_stops : List Bool
  pub p : Parser
  pub fault : Bool

unfoldable pub active : Terminal → Screen
active t = if t.alt_active then t.alt else t.main

unfoldable pub put : Terminal → Screen → Terminal
put t s = if t.alt_active then record t { alt = s } else record t { main = s }

-- An operation on the active screen that reads the rest of the terminal.
unfoldable pub on_active : (Terminal → Screen → Screen) → Terminal → Terminal
unfolding active put
on_active op t = put t (op t (active t))

abbrev pub at : Cursor → ℕ → ℕ → Cursor
at c x' y' = record c { x = x'; y = y'; pending_wrap = false }

abbrev pub set_x : Screen → ℕ → Screen
set_x s v = record s { cur = record (s.cur) { x = v } }

-- s.cur.x = v; s.cur.pendingWrap = false
abbrev pub to_x : Screen → ℕ → Screen
to_x s v = record s { cur = at s.cur v s.cur.y }

abbrev pub unpend : Screen → Screen
unpend s = record s { cur = record (s.cur) { pending_wrap = false } }

abbrev pub set_rows : Screen → List Row → Screen
set_rows s rs = record s { rows = rs }

-- Columns 8, 16, …: the stops from column `i` on, for `n` columns.
unfoldable pub tab_stops_from : ℕ → ℕ → List Bool
tab_stops_from i zero = []
tab_stops_from i (suc n) = (leb 8 i && i % 8 == 0) ∷ tab_stops_from (i + 1) n

unfoldable pub reset_tab_stops : Terminal → Terminal
unfolding tab_stops_from
reset_tab_stops t = record t { tab_stops = tab_stops_from 0 t.w }

unfoldable pub new_screen : ℕ → ℕ → Screen
unfolding new_row
new_screen w h = record {
  rows = replicate h (new_row w);
  cur = record { x = 0; y = 0; pending_wrap = false };
  saved = no_saved;
  top = 0;
  bot = h - 1;
  scrollback = [];
}

abbrev pub at_least_one : ℕ → ℕ
at_least_one n = if ltb n 1 then 1 else n

-- `title`, `maxScrollback` and `lastPrinted` keep their values.
unfoldable pub init : Terminal → ℕ → ℕ → Terminal
unfolding new_screen new_parser tab_stops_from
init t w h =
    let w' = at_least_one w in
    let h' = at_least_one h in
    record t {
      w = w';
      h = h';
      main = new_screen w' h';
      alt = new_screen w' h';
      alt_active = false;
      pen = default_style;
      link = [];
      cursor_keys = false;
      origin = false;
      autowrap = true;
      cursor_visible = true;
      insert = false;
      line_feed_newline = false;
      bracketed_paste = false;
      focus_events = false;
      mouse = 0;
      mouse_enc = 0;
      cursor_style = 0;
      charsets = ascii_charsets;
      gl_index = 0;
      tab_stops = tab_stops_from 0 w';
      p = new_parser;
    }

abbrev pub default_scrollback : ℕ
default_scrollback = 2000

-- `&Terminal{maxScrollback: DefaultScrollback}`
unfoldable pub zero_terminal : Terminal
unfolding new_parser
zero_terminal =
    let none_yet : Screen = record {
      rows = [];
      cur = record { x = 0; y = 0; pending_wrap = false };
      saved = no_saved;
      top = 0;
      bot = 0;
      scrollback = [];
    } in
    record {
      w = 0;
      h = 0;
      main = none_yet;
      alt = none_yet;
      alt_active = false;
      max_scrollback = default_scrollback;
      pen = default_style;
      link = [];
      last_printed = 0;
      cursor_keys = false;
      origin = false;
      autowrap = false;
      cursor_visible = false;
      insert = false;
      line_feed_newline = false;
      bracketed_paste = false;
      focus_events = false;
      mouse = 0;
      mouse_enc = 0;
      cursor_style = 0;
      title = [];
      charsets = ascii_charsets;
      gl_index = 0;
      tab_stops = [];
      p = new_parser;
      fault = false;
    }

-- `New`
unfoldable pub new : ℕ → ℕ → Terminal
unfolding init zero_terminal
new w h = init zero_terminal w h
