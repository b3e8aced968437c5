-- ===== src/Vterm/Inv/Screens.antt =====
-- Screen switches, resets, construction and `Resize` keep the terminal valid.
use termulaa.Prelude.{
  ℕ, zero, suc, ◌+◌, ◌-◌, ◌<◌, ◌⊎◌, inr, Bool, false, ◌≡◌, refl, ◌∙◌, arith, length, All-replicate,
  length-replicate, length-drop, if◌then◌else◌,
}
use termulaa.Vterm.Cell.{new_row}
use termulaa.Vterm.State.{
  Screen, Terminal, active, on_active, new_parser, new_screen, tab_stops_from, init, new,
  zero_terminal, at_least_one, max_params, no_saved,
}
use termulaa.Vterm.Screen.{wipe, set_max_scrollback}
use termulaa.Vterm.Cursor.{save_cursor, restore_cursor}
use termulaa.Vterm.Modes.{activate_alt, enter_alt_screen, leave_alt_screen, soft_reset, full_reset}
use termulaa.Vterm.Inv.{Fits, FitsIn, ParserFits, IsValid}
use termulaa.Vterm.Inv.Rows.{length-new_row, length-wipe}
use termulaa.Vterm.Inv.Grids.{Grid-map}
use termulaa.Vterm.Inv.Active.{active-Fits, put-IsValid, on_active-IsValid}
use termulaa.Vterm.Inv.Cursors.{move_cursor-Fits, recall-Fits, save_cursor-Fits}

new_parser-ParserFits : ParserFits new_parser
unfolding new_parser
new_parser-ParserFits = record {
  params_len = refl;
  has_value_len = refl;
  is_sub_len = refl;
  n_params_in = omega arith;
  params_small = All-replicate max_params 0 (omega arith);
  osc_small = omega arith;
  partial_small = omega arith;
}

pub new_screen-Fits : (w h limit : ℕ) → 0 < w → 0 < h → Fits w h limit (new_screen w h)
unfolding new_screen
new_screen-Fits w h limit pw ph = record {
  grid = record {
    rows_len = length-replicate h _;
    row_lens = All-replicate h (new_row w) (length-new_row w);
  };
  x_in = pw;
  y_in = ph;
  margins = omega arith;
  bot_in = omega arith;
  kept = omega arith;
}

pub length-tab_stops_from : (i n : ℕ) → length (tab_stops_from i n) ≡ n
unfolding tab_stops_from
length-tab_stops_from i zero = refl
length-tab_stops_from i (suc n) = omega (arith, length-tab_stops_from (i + 1) n)

pub init-IsValid :
    (t : Terminal) (w h : ℕ) → (at_least_one w < 2) ⊎ (t.fault ≡ false) → IsValid (init t w h)
unfolding init
init-IsValid t w h sound =
    let w' = at_least_one w in
    let h' = at_least_one h in
    let pw : 0 < w' = ground arith in
    let ph : 0 < h' = ground arith in
    record {
      main_fits = new_screen-Fits w' h' t.max_scrollback pw ph;
      alt_fits = new_screen-Fits w' h' 0 pw ph;
      stops_len = length-tab_stops_from 0 w';
      parser_fits = new_parser-ParserFits;
      no_fault = sound;
    }

-- `New` makes a valid terminal of any width and height asked for, 0 included.
pub new-IsValid : (w h : ℕ) → IsValid (new w h)
unfolding new zero_terminal
new-IsValid w h = init-IsValid zero_terminal w h (inr refl)

pub restore_cursor-IsValid : {t : Terminal} → IsValid t → IsValid (restore_cursor t)
unfolding restore_cursor
restore_cursor-IsValid {t} v =
    let f = active-Fits v in
    let home = put-IsValid _ v (move_cursor-Fits t 0 0 f) in
    let back = put-IsValid _ v (recall-Fits t f) in ground (arith, home, back)

pub soft_reset-IsValid : {t : Terminal} → IsValid t → IsValid (soft_reset t)
unfolding soft_reset
soft_reset-IsValid {t} v =
    let s = active t in
    let f = active-Fits v in
    let s' : Screen = record s {
      top = 0;
      bot = t.h - 1;
      saved = no_saved;
      cur = record (s.cur) { pending_wrap = false };
    } in
    let f' : FitsIn t s' = ground arith in ground (arith, put-IsValid s' v f')

max_scrollback-init : (t : Terminal) (w h : ℕ) → (init t w h).max_scrollback ≡ t.max_scrollback
unfolding init
max_scrollback-init t w h = refl

-- A valid terminal is valid after the full reset.
pub full_reset-IsValid : {t : Terminal} → IsValid t → IsValid (full_reset t)
unfolding full_reset
full_reset-IsValid {t} v = ground (arith, init-IsValid t t.w t.h, max_scrollback-init t t.w t.h)

activate_alt-Fits : {t : Terminal} → IsValid t → Fits t.w t.h 0 (activate_alt t)
unfolding activate_alt
activate_alt-Fits {t} v =
    ground (arith, Grid-map v.alt_fits.grid (wipe t) (λ r p. length-wipe t r ∙ p))

pub enter_alt_screen-IsValid :
    (save : Bool) {t : Terminal} → IsValid t → IsValid (enter_alt_screen save t)
unfolding enter_alt_screen
enter_alt_screen-IsValid save {t} v =
    let t' = if save then on_active save_cursor t else t in
    let saved = on_active-IsValid {t = t} save_cursor v (λ s f. save_cursor-Fits t f) in
    let v' : IsValid t' = ground (arith, saved) in ground (arith, v', activate_alt-Fits v')

pub leave_alt_screen-IsValid :
    (restore : Bool) {t : Terminal} → IsValid t → IsValid (leave_alt_screen restore t)
unfolding leave_alt_screen
leave_alt_screen-IsValid restore {t} v =
    let t' : Terminal = record t {
      alt_active = false;
      main = record (t.main) {
        cur = record { x = t.alt.cur.x; y = t.alt.cur.y; pending_wrap = false };
      };
    } in
    let v' : IsValid t' = ground arith in ground (arith, v', restore_cursor-IsValid v')

-- A valid terminal is valid after its scrollback limit is set to any number of lines.
pub set_max_scrollback-IsValid :
    (n : ℕ) {t : Terminal} → IsValid t → IsValid (set_max_scrollback t n)
unfolding set_max_scrollback
set_max_scrollback-IsValid n {t} v =
    ground (arith, length-drop (length t.main.scrollback - n) t.main.scrollback)
