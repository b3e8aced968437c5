-- ===== src/Tests/Terminals.antt =====
-- internal/vterm: streams of bytes written to small terminals.
use termulaa.Prelude.{ℕ, Bool, false, [], ◌∷◌, ◌++◌, ◌≡◌, refl, arith}
use termulaa.Vterm.State.{
  Terminal, new, init, zero_terminal, new_parser, ground as in_ground, escape,
}
use termulaa.Vterm.Params.{reset_csi}
use termulaa.Vterm.Utf8.{Bytes, decode_rune, full_rune}
use termulaa.Vterm.Feed.{
  write, write_loop, feed_byte, feed_control, run_control, feed_printable, feed_escape,
}
use termulaa.Vterm.Feed.Chunks.{write_append, write_loop-fuel}
use termulaa.Vterm.Feed.Cut.{write_cut-loses-escape}
use termulaa.Vterm.Inv.{IsValid}
use termulaa.Vterm.Inv.Screens.{new-IsValid}
use termulaa.Vterm.Inv.Feeding.{write-IsValid}

abbrev no_marks : ℕ → Bool
no_marks r = false

abbrev small : Terminal
small = new 4 2

-- A wide rune, a coloured letter and a new line.
abbrev stream : Bytes
stream = 0xe4 ∷ 0xbd ∷ 0xa0 ∷ 0x1b ∷ b'[' ∷ b'3' ∷ b'1' ∷ b'm' ∷ b'X' ∷ 0x0d ∷ 0x0a ∷ []

write-IsValid_example : IsValid (write no_marks stream small)
write-IsValid_example = write-IsValid no_marks stream (new-IsValid 4 2)

abbrev head : Bytes
head = 0x1b ∷ b'[' ∷ []

abbrev rest : Bytes
rest = b'3' ∷ b'1' ∷ b'm' ∷ b'X' ∷ []

fresh : small.p.partial ≡ []
unfolding new init zero_terminal new_parser
fresh = refl

in_sequence : (write no_marks head small).p.partial ≡ []
unfolding new init zero_terminal new_parser write write_loop feed_byte feed_control run_control
    feed_printable feed_escape decode_rune full_rune reset_csi
in_sequence = refl

write_append_example :
    write no_marks (head ++ rest) small ≡ write no_marks rest (write no_marks head small)
write_append_example = write_append no_marks head rest small fresh in_sequence

write_loop-fuel_example : write_loop no_marks 11 stream small ≡ write_loop no_marks 50 stream small
write_loop-fuel_example = write_loop-fuel no_marks 11 50 stream small (omega arith) (omega arith)

at_ground : small.p.state ≡ in_ground
unfolding new init zero_terminal new_parser
at_ground = refl

write_cut-loses-escape_example :
    ((write no_marks (0xe4 ∷ 0x1b ∷ []) small).p.state ≡ escape)
    × ((write no_marks (0x1b ∷ []) (write no_marks (0xe4 ∷ []) small)).p.state ≡ in_ground)
write_cut-loses-escape_example = write_cut-loses-escape no_marks 0xe4 small refl at_ground fresh
