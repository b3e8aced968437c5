-- ===== src/Vterm/Modes.antt =====
-- internal/vterm/term.go: the alternate screen and the resets.
use termulaa.Prelude.{◌-◌, Bool, true, false, [], map, if◌then◌else◌}
use termulaa.Vterm.Cell.{default_style}
use termulaa.Vterm.State.{Screen, Terminal, active, put, on_active, ascii_charsets, no_saved, init}
use termulaa.Vterm.Screen.{wipe}
use termulaa.Vterm.Cursor.{save_cursor, restore_cursor}

-- The alternate screen as an activation leaves it: cleared, with the cursor of the main one.
unfoldable pub activate_alt : Terminal → Screen
unfolding wipe
activate_alt t = record (t.alt) {
  rows = map (wipe t) t.alt.rows;
  top = 0;
  bot = t.h - 1;
  cur = record { x = t.main.cur.x; y = t.main.cur.y; pending_wrap = false };
}

unfoldable pub enter_alt_screen : Bool → Terminal → Terminal
enter_alt_screen save t =
    let t' = if save then on_active save_cursor t else t in
    if t.alt_active then t else record t' { alt_active = true; alt = activate_alt t' }

unfoldable pub leave_alt_screen : Bool → Terminal → Terminal
leave_alt_screen restore t =
    let t' = record t {
      alt_active = false;
      main = record (t.main) {
        cur = record { x = t.alt.cur.x; y = t.alt.cur.y; pending_wrap = false };
      };
    } in
    if t.alt_active then (if restore then restore_cursor t' else t') else t

-- DECSTR
unfoldable pub soft_reset : Terminal → Terminal
soft_reset t =
    let s = active t in
    record (put t (record s {
      top = 0;
      bot = t.h - 1;
      saved = no_saved;
      cur = record (s.cur) { pending_wrap = false };
    })) {
      cursor_visible = true;
      origin = false;
      autowrap = true;
      insert = false;
      cursor_keys = false;
      pen = default_style;
      link = [];
      charsets = ascii_charsets;
      gl_index = 0;
    }

-- RIS. The scrollback and the title survive.
unfoldable pub full_reset : Terminal → Terminal
full_reset t =
    let t' = init t t.w t.h in
    record t' { main = record (t'.main) { scrollback = t.main.scrollback }; title = t.title }
