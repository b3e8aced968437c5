-- ===== src/Tests/Screens.antt =====
-- internal/vterm: rows, scrollback and glyphs on small terminals.
use termulaa.Vterm.Width.{rune_width, is_zero_width, is_wide, is_wide_loop}
use termulaa.Vterm.Print.{translate}
use termulaa.Prelude.{
  ◌==◌, ◌&&◌, ℕ, ◌+◌, ◌-◌, ◌/◌, ◌≤◌, ◌<◌, Bool, true, false, List, [], ◌∷◌, ◌++◌, map, ◌≡◌, refl,
  arith, length,
}
use termulaa.Vterm.Cell.{Row, new_row, trimmed}
use termulaa.Vterm.Width.{wide_ranges}
use mathlib.Core.Logic.{◌↔◌}
use termulaa.Vterm.Width.Search.{Holds, is_wide-Holds}
use termulaa.Vterm.State.{Terminal, new_screen, on_active, new, init, zero_terminal, active}
use termulaa.Vterm.Screen.{push_all}
use termulaa.Vterm.Modes.{enter_alt_screen, leave_alt_screen}
use termulaa.Vterm.Resize.{resize}
use termulaa.Vterm.Inv.{IsValid}
use termulaa.Vterm.Inv.Screens.{new-IsValid}
use termulaa.Vterm.Inv.Sizes.{resize-IsValid}
use termulaa.Vterm.Laws.Scrollback.{IsNewest, push_all-IsNewest}
use termulaa.Vterm.Laws.Screens.{Restored, leave-enter_alt_screen}

abbrev no_marks : ℕ → Bool
no_marks r = false

abbrev small : Terminal
small = new 4 2

abbrev three_rows : List Row
three_rows = new_row 4 ∷ new_row 4 ∷ new_row 4 ∷ []

small_keeps : small.max_scrollback ≡ 2000
unfolding new init zero_terminal
small_keeps = refl

no_fault_yet : small.fault ≡ false
unfolding new init zero_terminal
no_fault_yet = refl

resize-IsValid_example : IsValid (resize 7 1 small)
resize-IsValid_example = resize-IsValid 7 1 (new-IsValid 4 2) no_fault_yet

leave-enter_alt_screen_example :
    Restored small (leave_alt_screen true (enter_alt_screen true small))
unfolding new init zero_terminal enter_alt_screen on_active
leave-enter_alt_screen_example =
    leave-enter_alt_screen small (enter_alt_screen true small) (new-IsValid 4 2) refl refl refl refl
      refl

-- A scrollback of two lines, onto which three are pushed.
abbrev two_kept : Terminal
two_kept = record small { max_scrollback = 2 }

push_all-IsNewest_example :
    IsNewest (push_all two_kept true [] three_rows) ([] ++ map trimmed three_rows) (2 - 2 / 8) 2
push_all-IsNewest_example = push_all-IsNewest two_kept [] three_rows (omega arith) (omega arith)

fits : length (new_row 4).cells ≤ small.w
unfolding new init zero_terminal new_row
fits = omega arith

wide : 2 ≤ small.w
unfolding new init zero_terminal
wide = omega arith

-- The rune is wide.
really_wide : (rune_width no_marks (translate (new 1 2) 0x4f60) == 2 && (new 1 2).w == 1) ≡ true
unfolding new init zero_terminal translate rune_width is_zero_width is_wide is_wide_loop
really_wide = refl

abbrev wide_terminal : Terminal
wide_terminal = new 20 2

room_for_a_tab : (active wide_terminal).cur.x + 1 < wide_terminal.w
unfolding new init zero_terminal active new_screen
room_for_a_tab = omega arith

is_wide-Holds_example : (is_wide 0x4f60 ≡ true) ↔ ((k : ℕ) × Holds wide_ranges 0x4f60 k)
is_wide-Holds_example = is_wide-Holds 0x4f60
