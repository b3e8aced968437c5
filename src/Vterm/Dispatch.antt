-- ===== src/Vterm/Dispatch.antt =====
-- internal/vterm/dispatch.go: escape, CSI and OSC sequences.
use termulaa.Prelude.{
  ℕ, zero, suc, ◌+◌, ◌-◌, ◌*◌, Bool, true, false, not, ◌&&◌, ◌||◌, List, [], ◌∷◌, Option, none,
  some, ◌==◌, ltb, within, set, map, map_range, if◌then◌else◌,
}
use termulaa.Vterm.Cell.{Cell, default_style, Row}
use termulaa.Vterm.State.{
  Charset, charset_ascii, charset_dec_graphics, Screen, Parser, Terminal, active, on_active, set_x,
  to_x, unpend,
}
use termulaa.Vterm.Screen.{
  clamp, line_feed, reverse_index, insert_cells, erase_in_display, erase_in_line, insert_lines,
  delete_lines, delete_chars, scroll, scroll_down, erase_chars,
}
use termulaa.Vterm.Cursor.{
  iterate, move_cursor, cursor_up, cursor_down, tab_forward, tab_backward, save_cursor,
  restore_cursor,
}
use termulaa.Vterm.Print.{print}
use termulaa.Vterm.Modes.{enter_alt_screen, leave_alt_screen, soft_reset, full_reset}
use termulaa.Vterm.Params.{param, raw_param, raw_param?}
use termulaa.Vterm.Sgr.{sgr}

abbrev pub designate : ℕ → Charset
designate final = if final == b'0' then charset_dec_graphics else charset_ascii

abbrev pub e_cell : Cell
e_cell = record { ch = b'E' ∷ []; width = 1; style = default_style; link = [] }

unfoldable pub aligned_row : ℕ → Row → Row
aligned_row w r = record { cells = map_range (λ _. e_cell) 0 w r.cells; wrapped = false }

-- DECALN
unfoldable pub screen_alignment : Terminal → Screen → Screen
screen_alignment t s =
    let filled = map_range (aligned_row t.w) 0 t.h s.rows in
    move_cursor 0 0 t (record s { rows = filled; top = 0; bot = t.h - 1 })

-- Escapes with no intermediate byte.
unfoldable pub esc_plain : ℕ → Terminal → Terminal
esc_plain final t =
    if final == b'7'
    then on_active save_cursor t
    else if final == b'8'
    then restore_cursor t
    else if final == b'D'
    then on_active line_feed t
    else if final == b'E'
    then on_active (λ u s. set_x (line_feed u s) 0) t
    else if final == b'H'
    then record t { tab_stops = set t.tab_stops (active t).cur.x true }
    else if final == b'M'
    then on_active reverse_index t
    else if final == b'c'
    then full_reset t
    else t

unfoldable pub esc_dispatch : ℕ → ℕ → Terminal → Terminal
esc_dispatch inter final t =
    if inter == 0
    then esc_plain final t
    else if inter == b'('
    then record t { charsets = record (t.charsets) { g0 = designate final } }
    else if inter == b')'
    then record t { charsets = record (t.charsets) { g1 = designate final } }
    else if inter == b'#' && final == b'8'
    then on_active screen_alignment t
    else t

-- The loops of `setModes` and `setPrivateModes`: parameters `i` to `i + n - 1`, in order.
unfoldable pub for_params : (Option ℕ → Terminal → Terminal) → Parser → ℕ → ℕ → Terminal → Terminal
for_params f p zero i t = t
for_params f p (suc n) i t = for_params f p n (i + 1) (f (raw_param? p i) t)

unfoldable pub set_mode : Bool → Option ℕ → Terminal → Terminal
set_mode on none t = t
set_mode on (some v) t =
    if v == 4
    then record t { insert = on }
    else if v == 20
    then record t { line_feed_newline = on }
    else t

unfoldable pub set_modes : Bool → Terminal → Terminal
set_modes on t = for_params (set_mode on) t.p t.p.n_params 0 t

-- `field = v` when on, and back to 0 when off if it is `v`.
abbrev pub toggled : Bool → ℕ → ℕ → ℕ
toggled on v old = if on then v else if old == v then 0 else old

-- The modes that are one field.
unfoldable pub set_private_flag : Bool → ℕ → Terminal → Terminal
set_private_flag on v t =
    if v == 1
    then record t { cursor_keys = on }
    else if v == 7
    then record t { autowrap = on }
    else if v == 25
    then record t { cursor_visible = on }
    else if v == 9 || v == 1000 || v == 1002 || v == 1003
    then record t { mouse = toggled on v t.mouse }
    else if v == 1005 || v == 1006 || v == 1015
    then record t { mouse_enc = toggled on v t.mouse_enc }
    else if v == 1004
    then record t { focus_events = on }
    else if v == 2004
    then record t { bracketed_paste = on }
    else t

unfoldable pub set_private_mode : Bool → Option ℕ → Terminal → Terminal
set_private_mode on none t = t
set_private_mode on (some v) t =
    if v == 6
    then on_active (move_cursor 0 0) (record t { origin = on })
    else if v == 47 || v == 1047
    then (if on then enter_alt_screen false t else leave_alt_screen false t)
    else if v == 1049
    then (if on then enter_alt_screen true t else leave_alt_screen true t)
    else set_private_flag on v t

unfoldable pub set_private_modes : Bool → Terminal → Terminal
set_private_modes on t = for_params (set_private_mode on) t.p t.p.n_params 0 t

-- CUP, HVP and VPA add the top margin in origin mode.
abbrev pub from_origin : Terminal → Screen → ℕ → ℕ
from_origin t s y = if t.origin then y + s.top else y

-- The finals that move the cursor; any other leaves the screen.
unfoldable pub csi_move : ℕ → Terminal → Screen → Screen
csi_move final t s =
    let n = param t.p 0 1 in
    if final == b'A'
    then cursor_up n t s
    else if final == b'B' || final == b'e'
    then cursor_down n t s
    else if final == b'C' || final == b'a'
    then to_x s (clamp (s.cur.x + n) (t.w - 1))
    else if final == b'D'
    then to_x s (s.cur.x - n)
    else if final == b'E'
    then set_x (cursor_down n t s) 0
    else if final == b'F'
    then set_x (cursor_up n t s) 0
    else if final == b'G' || final == b'`'
    then to_x s (clamp (n - 1) (t.w - 1))
    else if final == b'H' || final == b'f'
    then move_cursor (param t.p 1 1 - 1) (from_origin t s (n - 1)) t s
    else if final == b'I'
    then tab_forward n t s
    else if final == b'Z'
    then tab_backward n t s
    else if final == b'd'
    then move_cursor s.cur.x (from_origin t s (n - 1)) t s
    else s

-- DECSTBM
unfoldable pub set_margins : Terminal → Screen → Screen
set_margins t s =
    let top = param t.p 0 1 - 1 in
    let bot = clamp (param t.p 1 t.h - 1) (t.h - 1) in
    if ltb top bot then move_cursor 0 0 t (record s { top = top; bot = bot }) else s

-- The finals that change cells or lines; any other moves the cursor.
unfoldable pub csi_screen : ℕ → Terminal → Screen → Screen
csi_screen final t s =
    let n = param t.p 0 1 in
    if final == b'@'
    then unpend (insert_cells n t s)
    else if final == b'J'
    then erase_in_display (raw_param t.p 0 0) t s
    else if final == b'K'
    then erase_in_line (raw_param t.p 0 0) t s
    else if final == b'L'
    then insert_lines n t s
    else if final == b'M'
    then delete_lines n t s
    else if final == b'P'
    then delete_chars n t s
    else if final == b'S'
    then scroll n false t s
    else if final == b'T'
    then scroll_down n t s
    else if final == b'X'
    then erase_chars n t s
    else if final == b'r'
    then set_margins t s
    else if final == b's'
    then save_cursor t s
    else csi_move final t s

-- TBC
unfoldable pub clear_tabs : Terminal → Terminal
clear_tabs t =
    let mode = raw_param t.p 0 0 in
    if mode == 0
    then record t { tab_stops = set t.tab_stops (active t).cur.x false }
    else if mode == 3
    then record t { tab_stops = map (λ _. false) t.tab_stops }
    else t

module _ (is_mark : ℕ → Bool) where
  -- REP
  unfoldable pub repeat_last : Terminal → Terminal
  repeat_last t =
      if t.last_printed == 0 then t else iterate (param t.p 0 1) (print is_mark t.last_printed) t

  -- A sequence with no intermediate and no private byte.
  unfoldable pub csi_plain : ℕ → Terminal → Terminal
  csi_plain final t =
      if final == b'b'
      then repeat_last t
      else if final == b'g'
      then clear_tabs t
      else if final == b'h'
      then set_modes true t
      else if final == b'l'
      then set_modes false t
      else if final == b'm'
      then sgr t
      else if final == b'u'
      then restore_cursor t
      else on_active (csi_screen final) t

  unfoldable pub csi_dispatch : ℕ → Terminal → Terminal
  csi_dispatch final t =
      let p = t.p in
      if not (p.intermediate == 0)
      then (if p.intermediate == b' ' && final == b'q'
          then record t { cursor_style = raw_param p 0 0 }
          else if p.intermediate == b'!' && final == b'p'
          then soft_reset t
          else t)
      else if p.private == b'?'
      then (if final == b'h'
          then set_private_modes true t
          else if final == b'l'
          then set_private_modes false t
          else t)
      else if p.private == b'>' || p.private == b'<' || p.private == b'='
      then t
      else csi_plain final t

-- What stands before and behind the first `;`.
unfoldable pub split_semicolon : List ℕ → Option (List ℕ × List ℕ)
split_semicolon [] = none
split_semicolon (b ∷ bs) =
    let rest = split_semicolon bs in
    if b == b';'
    then some ([], bs)
    else elim rest [ none ↦ none | some (before, after) ↦ some (b ∷ before, after) ]

unfoldable pub digits_value : ℕ → List ℕ → Option ℕ
digits_value acc [] = some acc
digits_value acc (b ∷ bs) =
    let rest = digits_value (acc * 10 + (b - b'0')) bs in if within b'0' b'9' b then rest else none

-- `strconv.Atoi` as far as the commands 0, 2 and 8 go: a sign is accepted, and a number below 0
-- names no command, as none beyond the range of `int` does.
unfoldable pub atoi : List ℕ → Option ℕ
unfolding digits_value
atoi [] = none
atoi (b ∷ []) = digits_value 0 (b ∷ [])
atoi (b ∷ c ∷ bs) =
    let v = digits_value 0 (c ∷ bs) in
    if b == b'+'
    then v
    else if b == b'-'
    then elim v [ none ↦ none | some n ↦ (if n == 0 then some 0 else none) ]
    else digits_value 0 (b ∷ c ∷ bs)

unfoldable pub osc_command : ℕ → List ℕ → Terminal → Terminal
osc_command code arg t =
    if code == 0 || code == 2
    then record t { title = arg }
    else if code == 8
    then elim (split_semicolon arg) [ none ↦ t | some (params, uri) ↦ record t { link = uri } ]
    else t

unfoldable pub osc_numbered : Option ℕ → List ℕ → Terminal → Terminal
osc_numbered none arg t = t
osc_numbered (some code) arg t = osc_command code arg t

unfoldable pub osc_split : Option (List ℕ × List ℕ) → Terminal → Terminal
osc_split none t = t
osc_split (some (number, arg)) t = osc_numbered (atoi number) arg t

unfoldable pub dispatch_osc : Terminal → Terminal
dispatch_osc t = osc_split (split_semicolon t.p.osc) t
