-- ===== src/Vterm/Inv/Dispatching.antt =====
-- Escape, CSI and OSC sequences keep the terminal valid.
use termulaa.Prelude.{
  ℕ, zero, suc, ◌+◌, ◌-◌, Bool, true, false, List, [], ◌∷◌, Option, none, some, ◌≡◌, refl, ◌∙◌,
  arith, length, map, map_range, length-set, length-map_range,
}
use termulaa.Vterm.State.{Screen, Parser, Terminal, active, set_x}
use termulaa.Vterm.Screen.{clamp, line_feed, reverse_index}
use termulaa.Vterm.Cursor.{move_cursor, save_cursor}
use termulaa.Vterm.Print.{print}
use termulaa.Vterm.Params.{param, raw_param, raw_param?}
use termulaa.Vterm.Sgr.{sgr}
use termulaa.Vterm.Dispatch.{
  aligned_row, screen_alignment, esc_plain, esc_dispatch, for_params, set_mode, set_modes,
  set_private_flag, set_private_mode, set_private_modes, csi_move, set_margins, csi_screen,
  clear_tabs, repeat_last, csi_plain, csi_dispatch, osc_command, osc_numbered, osc_split,
  dispatch_osc, atoi, split_semicolon, from_origin,
}
use termulaa.Vterm.Inv.{FitsIn, IsValid}
use termulaa.Vterm.Inv.Grids.{Grid-map_range}
use termulaa.Vterm.Inv.Active.{on_active-IsValid}
use termulaa.Vterm.Inv.Scroll.{scroll-Fits, scroll_down-Fits, line_feed-Fits, reverse_index-Fits}
use termulaa.Vterm.Inv.Lines.{
  unpend-Fits, erase_in_line-Fits, erase_in_display-Fits, erase_chars-Fits, delete_chars-Fits,
  insert_cells-Fits, insert_lines-Fits, delete_lines-Fits,
}
use termulaa.Vterm.Inv.Cursors.{
  iterate_inv, move_cursor-Fits, cursor_up-Fits, cursor_down-Fits, tab_forward-Fits,
  tab_backward-Fits, save_cursor-Fits,
}
use termulaa.Vterm.Inv.Prints.{print-IsValid}
use termulaa.Vterm.Inv.Screens.{
  restore_cursor-IsValid, full_reset-IsValid, soft_reset-IsValid, enter_alt_screen-IsValid,
  leave_alt_screen-IsValid,
}

module _ (t : Terminal) where
  set_x-Fits : {s : Screen} → FitsIn t s → FitsIn t (set_x s 0)
  set_x-Fits v = ground arith

  screen_alignment-Fits : {s : Screen} → FitsIn t s → FitsIn t (screen_alignment t s)
  unfolding screen_alignment aligned_row
  screen_alignment-Fits {s} v =
      let rows = map_range (aligned_row t.w) 0 t.h s.rows in
      let grid =
        Grid-map_range v.grid (aligned_row t.w) 0 t.h
          (λ r p. length-map_range _ 0 t.w r.cells ∙ p) in
      let filled : Screen = record s { rows = rows; top = 0; bot = t.h - 1 } in
      let v' : FitsIn t filled = ground (arith, grid) in move_cursor-Fits t 0 0 v'

  csi_move-Fits : (final : ℕ) {s : Screen} → FitsIn t s → FitsIn t (csi_move final t s)
  unfolding csi_move
  csi_move-Fits final {s} v =
      let n = param t.p 0 1 in
      let y = from_origin t s (n - 1) in
      ground (
        arith,
        cursor_up-Fits t n v,
        cursor_down-Fits t n v,
        move_cursor-Fits t (param t.p 1 1 - 1) y v,
        move_cursor-Fits t s.cur.x y v,
        tab_forward-Fits t n v,
        tab_backward-Fits t n v,
      )

  set_margins-Fits : {s : Screen} → FitsIn t s → FitsIn t (set_margins t s)
  unfolding set_margins
  set_margins-Fits {s} v =
      let top = param t.p 0 1 - 1 in
      let bot = clamp (param t.p 1 t.h - 1) (t.h - 1) in
      let s' : Screen = record s { top = top; bot = bot } in
      ground (arith, λ (f : FitsIn t s'). move_cursor-Fits t 0 0 f)

  csi_screen-Fits : (final : ℕ) {s : Screen} → FitsIn t s → FitsIn t (csi_screen final t s)
  unfolding csi_screen
  csi_screen-Fits final {s} v =
      let n = param t.p 0 1 in
      let mode = raw_param t.p 0 0 in
      ground (
        arith,
        unpend-Fits t (insert_cells-Fits t n v),
        erase_in_display-Fits t mode v,
        erase_in_line-Fits t mode v,
        insert_lines-Fits t n v,
        delete_lines-Fits t n v,
        delete_chars-Fits t n v,
        scroll-Fits t n false v,
        scroll_down-Fits t n v,
        erase_chars-Fits t n v,
        set_margins-Fits v,
        save_cursor-Fits t v,
        csi_move-Fits final v,
      )

esc_plain-IsValid : (final : ℕ) {t : Terminal} → IsValid t → IsValid (esc_plain final t)
unfolding esc_plain
esc_plain-IsValid final {t} v = ground (
  arith,
  on_active-IsValid {t = t} save_cursor v (λ s f. save_cursor-Fits t f),
  restore_cursor-IsValid v,
  on_active-IsValid {t = t} line_feed v (λ s f. line_feed-Fits t f),
  on_active-IsValid {t = t} (λ u s. set_x (line_feed u s) 0) v
      (λ s f. set_x-Fits t (line_feed-Fits t f)),
  length-set t.tab_stops (active t).cur.x true,
  on_active-IsValid {t = t} reverse_index v (λ s f. reverse_index-Fits t f),
  full_reset-IsValid v,
)

pub esc_dispatch-IsValid :
    (inter final : ℕ) {t : Terminal} → IsValid t → IsValid (esc_dispatch inter final t)
unfolding esc_dispatch
esc_dispatch-IsValid inter final {t} v = ground (
  arith,
  esc_plain-IsValid final v,
  on_active-IsValid {t = t} screen_alignment v (λ s f. screen_alignment-Fits t f),
)

for_params_inv :
    (f : Option ℕ → Terminal → Terminal) (p : Parser) (n i : ℕ) (t : Terminal)
    → ((o : Option ℕ) (u : Terminal) → IsValid u → IsValid (f o u))
    → IsValid t
    → IsValid (for_params f p n i t)
unfolding for_params
for_params_inv f p zero i t k v = v
for_params_inv f p (suc n) i t k v =
    for_params_inv f p n (i + 1) (f (raw_param? p i) t) k (k (raw_param? p i) t v)

set_mode-IsValid : (on : Bool) (o : Option ℕ) (t : Terminal) → IsValid t → IsValid (set_mode on o t)
unfolding set_mode
set_mode-IsValid on none t v = v
set_mode-IsValid on (some m) t v = ground arith

set_private_flag-IsValid :
    (on : Bool) (m : ℕ) {t : Terminal} → IsValid t → IsValid (set_private_flag on m t)
unfolding set_private_flag
set_private_flag-IsValid on m v = ground arith

set_private_mode-IsValid :
    (on : Bool) (o : Option ℕ) (t : Terminal) → IsValid t → IsValid (set_private_mode on o t)
unfolding set_private_mode
set_private_mode-IsValid on none t v = v
set_private_mode-IsValid on (some m) t v =
    let t' : Terminal = record t { origin = on } in
    let v' : IsValid t' = ground arith in
    ground (
      arith,
      on_active-IsValid {t = t'} (move_cursor 0 0) v' (λ s f. move_cursor-Fits t' 0 0 f),
      enter_alt_screen-IsValid false v,
      enter_alt_screen-IsValid true v,
      leave_alt_screen-IsValid false v,
      leave_alt_screen-IsValid true v,
      set_private_flag-IsValid on m v,
    )

set_modes-IsValid : (on : Bool) {t : Terminal} → IsValid t → IsValid (set_modes on t)
unfolding set_modes
set_modes-IsValid on {t} v =
    for_params_inv (set_mode on) t.p t.p.n_params 0 t (set_mode-IsValid on) v

set_private_modes-IsValid :
    (on : Bool) {t : Terminal} → IsValid t → IsValid (set_private_modes on t)
unfolding set_private_modes
set_private_modes-IsValid on {t} v =
    for_params_inv (set_private_mode on) t.p t.p.n_params 0 t (set_private_mode-IsValid on) v

length-all_false : (bs : List Bool) → length (map (λ (b : Bool). false) bs) ≡ length bs
length-all_false [] = refl
length-all_false (b ∷ bs) = omega (arith, length-all_false bs)

clear_tabs-IsValid : {t : Terminal} → IsValid t → IsValid (clear_tabs t)
unfolding clear_tabs
clear_tabs-IsValid {t} v =
    ground (arith, length-set t.tab_stops (active t).cur.x false, length-all_false t.tab_stops)

sgr-IsValid : {t : Terminal} → IsValid t → IsValid (sgr t)
unfolding sgr
sgr-IsValid {t} v = ground arith

module _ (is_mark : ℕ → Bool) where
  repeat_last-IsValid : {t : Terminal} → IsValid t → IsValid (repeat_last is_mark t)
  unfolding repeat_last
  repeat_last-IsValid {t} v =
      let printed =
        iterate_inv IsValid (param t.p 0 1) (print is_mark t.last_printed) t
          (λ u k. print-IsValid is_mark t.last_printed k) v in
      ground (arith, printed)

  csi_plain-IsValid : (final : ℕ) {t : Terminal} → IsValid t → IsValid (csi_plain is_mark final t)
  unfolding csi_plain
  csi_plain-IsValid final {t} v = ground (
    arith,
    repeat_last-IsValid v,
    clear_tabs-IsValid v,
    set_modes-IsValid true v,
    set_modes-IsValid false v,
    sgr-IsValid v,
    restore_cursor-IsValid v,
    on_active-IsValid {t = t} (csi_screen final) v (λ s f. csi_screen-Fits t final f),
  )

  pub csi_dispatch-IsValid :
      (final : ℕ) {t : Terminal} → IsValid t → IsValid (csi_dispatch is_mark final t)
  unfolding csi_dispatch
  csi_dispatch-IsValid final {t} v = ground (
    arith,
    soft_reset-IsValid v,
    set_private_modes-IsValid true v,
    set_private_modes-IsValid false v,
    csi_plain-IsValid final v,
  )

osc_command-IsValid :
    (code : ℕ) (arg : List ℕ) {t : Terminal} → IsValid t → IsValid (osc_command code arg t)
unfolding osc_command
osc_command-IsValid code arg {t} v = ground arith

osc_numbered-IsValid :
    (code : Option ℕ) (arg : List ℕ) {t : Terminal} → IsValid t → IsValid (osc_numbered code arg t)
unfolding osc_numbered
osc_numbered-IsValid none arg v = v
osc_numbered-IsValid (some code) arg v = osc_command-IsValid code arg v

osc_split-IsValid :
    (parts : Option (List ℕ × List ℕ)) {t : Terminal} → IsValid t → IsValid (osc_split parts t)
unfolding osc_split
osc_split-IsValid none v = v
osc_split-IsValid (some (number, arg)) v = osc_numbered-IsValid (atoi number) arg v

pub dispatch_osc-IsValid : {t : Terminal} → IsValid t → IsValid (dispatch_osc t)
unfolding dispatch_osc
dispatch_osc-IsValid {t} v = osc_split-IsValid (split_semicolon t.p.osc) v
