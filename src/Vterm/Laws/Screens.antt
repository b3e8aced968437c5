-- ===== src/Vterm/Laws/Screens.antt =====
-- The alternate screen comes and goes, and the reset.
use termulaa.Prelude.{true, false, ◌≡◌, arith}
use termulaa.Vterm.State.{Terminal, on_active}
use termulaa.Vterm.Cursor.{save_cursor, restore_cursor, recall}
use termulaa.Vterm.Modes.{enter_alt_screen, leave_alt_screen}
use termulaa.Vterm.Inv.{IsValid}

-- `u` shows the main screen of `t` again, with what a saved cursor holds.
pub record Restored (t u : Terminal) : Type 0 where
  pub main_again : u.alt_active ≡ false
  pub rows : u.main.rows ≡ t.main.rows
  pub scrollback : u.main.scrollback ≡ t.main.scrollback
  pub margins : (u.main.top ≡ t.main.top) × (u.main.bot ≡ t.main.bot)
  pub position : (u.main.cur.x ≡ t.main.cur.x) × (u.main.cur.y ≡ t.main.cur.y)
  pub pen : u.pen ≡ t.pen
  pub link : u.link ≡ t.link
  pub charsets : (u.charsets ≡ t.charsets) × (u.gl_index ≡ t.gl_index)
  pub origin : u.origin ≡ t.origin

-- Let `t` be a valid terminal on the main screen, and `u` one on the alternate screen, of the same
-- size, whose main screen is as DECSET 1049 left that of `t`. Leaving by DECRST 1049 restores the
-- main screen's rows, margins and scrollback, the position of the cursor, the pen, the link, the
-- character sets and the origin mode of `t`.
pub leave-enter_alt_screen :
    (t u : Terminal)
    → IsValid t
    → t.alt_active ≡ false
    → u.main ≡ (enter_alt_screen true t).main
    → u.alt_active ≡ true
    → u.w ≡ t.w
    → u.h ≡ t.h
    → Restored t (leave_alt_screen true u)
unfolding enter_alt_screen leave_alt_screen restore_cursor on_active save_cursor recall
leave-enter_alt_screen t u v off same on ew eh = ground arith
