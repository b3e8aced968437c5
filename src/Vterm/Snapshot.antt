-- ===== src/Vterm/Snapshot.antt =====
-- internal/vterm/snapshot.go: the terminal as a stream of bytes that paints it.
pub mod Digits
pub mod Reading
use Prim.Native.String.{String}
use termulaa.Prelude.{
  ascii, ℕ, zero, suc, ◌+◌, ◌-◌, ◌/◌, ◌%◌, ◌^◌, Bool, true, false, not, ◌&&◌, ◌||◌, List, [], ◌∷◌,
  ◌++◌, ◌==◌, ltb, leb, length, take, get_or, if◌then◌else◌,
}
use termulaa.Vterm.Cell.{
  Color, color_is_default, Attr, Underline, underline_none, underline_single, underline_double,
  underline_curly, underline_dotted, underline_dashed, Style, default_style, style_is_zero, Cell,
  blank_cell, is_empty, Row, last_visible,
}
use termulaa.Vterm.State.{
  Charset, charset_ascii, charset_dec_graphics, SavedCursor, Screen, Terminal,
}
use termulaa.Vterm.Utf8.{Bytes, encode_rune}

abbrev pub when : Bool → Bytes → Bytes
when b bs = if b then bs else []

-- "\x1b" followed by `s`
abbrev pub esc : String → Bytes
esc s = 0x1b ∷ ascii s

-- `strconv.Itoa`; a number has fewer digits than `n + 1`.
unfoldable pub digits : ℕ → ℕ → Bytes
digits zero n = []
digits (suc fuel) n =
    let front = digits fuel (n / 10) in
    if ltb n 10 then (b'0' + n) ∷ [] else front ++ (b'0' + n % 10) ∷ []

unfoldable pub itoa : ℕ → Bytes
unfolding digits
itoa n = digits (suc n) n

unfoldable pub cup : ℕ → ℕ → Bytes
unfolding itoa
cup x y = esc "[" ++ (itoa (y + 1) ++ (ascii ";" ++ (itoa (x + 1) ++ ascii "H")))

-- `appendColor`: the parts that select `c`. `base` and `bright` are 0 where there is no short form.
unfoldable pub color_parts : Color → ℕ → ℕ → ℕ → List Bytes
unfolding itoa
color_parts c ext base bright =
    let kind = c / 2 ^ 24 % 2 ^ 8 in
    let i = c % 256 in
    if kind == 1
    then (if not (base == 0) && ltb i 8
        then itoa (base + i) ∷ []
        else if not (bright == 0) && leb 8 i && ltb i 16
        then itoa (bright + i - 8) ∷ []
        else (itoa ext ++ (ascii ";5;" ++ itoa i)) ∷ [])
    else if kind == 2
    then (itoa ext
        ++ (ascii ";2;"
            ++ (itoa (c / 2 ^ 16 % 256)
                ++ (ascii ";" ++ (itoa (c / 2 ^ 8 % 256) ++ (ascii ";" ++ itoa i))))))
      ∷ []
    else []

abbrev pub part_if : Bool → String → List Bytes
part_if b s = if b then ascii s ∷ [] else []

abbrev pub underline_parts : Underline → List Bytes
underline_parts underline_none = []
underline_parts underline_single = ascii "4" ∷ []
underline_parts underline_double = ascii "21" ∷ []
underline_parts underline_curly = ascii "4:3" ∷ []
underline_parts underline_dotted = ascii "4:4" ∷ []
underline_parts underline_dashed = ascii "4:5" ∷ []

-- `strings.Join(parts, ";")`
unfoldable pub join : List Bytes → Bytes
join [] = []
join (p ∷ []) = p
join (p ∷ q ∷ ps) = p ++ (b';' ∷ join (q ∷ ps))

unfoldable pub style_parts : Style → List Bytes
unfolding color_parts
style_parts st =
    let a = st.attrs in
    ascii "0"
    ∷ (part_if a.bold "1"
        ++ (part_if a.dim "2"
            ++ (part_if a.italic "3"
                ++ (underline_parts st.underline
                    ++ (part_if a.blink "5"
                        ++ (part_if a.inverse "7"
                            ++ (part_if a.hidden "8"
                                ++ (part_if a.strike "9"
                                    ++ (color_parts st.fg 38 30 90
                                        ++ (color_parts st.bg 48 40 100
                                            ++ (if color_is_default st.ul
                                                then []
                                                else color_parts st.ul 58 0 0)))))))))))

unfoldable pub sgr_sequence : Style → Bytes
unfolding style_is_zero join style_parts
sgr_sequence st =
    if style_is_zero st then esc "[0m" else esc "[" ++ (join (style_parts st) ++ ascii "m")

abbrev pub same_flag : Bool → Bool → Bool
same_flag true b = b
same_flag false b = not b

abbrev pub same_attrs : Attr → Attr → Bool
same_attrs a b =
    same_flag a.bold b.bold
    && same_flag a.dim b.dim
    && same_flag a.italic b.italic
    && same_flag a.blink b.blink
    && same_flag a.inverse b.inverse
    && same_flag a.hidden b.hidden
    && same_flag a.strike b.strike

abbrev pub underline_number : Underline → ℕ
underline_number underline_none = 0
underline_number underline_single = 1
underline_number underline_double = 2
underline_number underline_curly = 3
underline_number underline_dotted = 4
underline_number underline_dashed = 5

-- `==` on styles
unfoldable pub same_style : Style → Style → Bool
same_style s u =
    s.fg == u.fg
    && s.bg == u.bg
    && s.ul == u.ul
    && same_attrs s.attrs u.attrs
    && underline_number s.underline == underline_number u.underline

unfoldable pub same_bytes : Bytes → Bytes → Bool
same_bytes [] [] = true
same_bytes [] (c ∷ cs) = false
same_bytes (b ∷ bs) [] = false
same_bytes (b ∷ bs) (c ∷ cs) = b == c && same_bytes bs cs

-- What the loops over cells carry: the bytes written, and the pen and the link that they leave.
pub record Painter : Type 0 where
  pub out : Bytes
  pub pen : Style
  pub link : Bytes

abbrev pub emit : Bytes → Painter → Painter
emit bs p = record p { out = p.out ++ bs }

abbrev pub link_sequence : Bytes → Bytes
link_sequence uri = esc "]8;;" ++ (uri ++ esc "\\")

unfoldable pub encode_runes : List ℕ → Bytes
encode_runes [] = []
encode_runes (r ∷ rs) = encode_rune r ++ encode_runes rs

unfoldable pub paint_cell : Cell → Painter → Painter
unfolding sgr_sequence same_style same_bytes encode_runes
paint_cell c p =
    let styled =
      if same_style c.style p.pen
      then p
      else record (emit (sgr_sequence c.style) p) { pen = c.style } in
    let linked =
      if same_bytes c.link styled.link
      then styled
      else record (emit (link_sequence c.link) styled) { link = c.link } in
    if c.width == 0 then p else emit (if is_empty c.ch then b' ' ∷ [] else encode_runes c.ch) linked

unfoldable pub paint_cells : List Cell → Painter → Painter
unfolding paint_cell
paint_cells [] p = p
paint_cells (c ∷ cs) p = paint_cells cs (paint_cell c p)

-- `writeRow`. Its parameter `w` is not read.
unfoldable pub write_row : Row → Bool → Painter → Painter
unfolding paint_cells last_visible
write_row r full p = paint_cells (take (if full then length r.cells else last_visible r) r.cells) p

abbrev pub crlf : Bytes
crlf = 0x0d ∷ 0x0a ∷ []

-- The lines of the scrollback; `next` tells whether the first row of the screen continues the last.
unfoldable pub write_scrollback : List Row → Bool → Painter → Painter
unfolding write_row
write_scrollback [] next p = p
write_scrollback (r ∷ []) next p = let p' = write_row r next p in if next then p' else emit crlf p'
write_scrollback (r ∷ s ∷ rs) next p =
    let p' = write_row r s.wrapped p in
    write_scrollback (s ∷ rs) next (if s.wrapped then p' else emit crlf p')

unfoldable pub write_rows : List Row → Painter → Painter
unfolding write_row
write_rows [] p = p
write_rows (r ∷ []) p = write_row r false p
write_rows (r ∷ s ∷ rs) p =
    let p' = write_row r s.wrapped p in write_rows (s ∷ rs) (if s.wrapped then p' else emit crlf p')

abbrev pub first_wrapped : List Row → Bool
first_wrapped [] = false
first_wrapped (r ∷ rs) = r.wrapped

-- DECSC for the saved cursor of the screen.
unfoldable pub write_saved : SavedCursor → Bytes
unfolding sgr_sequence cup
write_saved v = when v.valid (sgr_sequence v.pen ++ (cup v.x v.y ++ (esc "7" ++ esc "[0m")))

unfoldable pub write_margins : Terminal → Screen → Bytes
unfolding itoa
write_margins t s =
    when (not (s.top == 0) || not (s.bot == t.h - 1))
      (esc "[" ++ (itoa (s.top + 1) ++ (ascii ";" ++ (itoa (s.bot + 1) ++ ascii "r"))))

-- The last cell of the cursor's row is written again, so that the receiver has a wrap due too.
unfoldable pub write_pending : Terminal → Screen → Bytes
unfolding sgr_sequence encode_runes
write_pending t s =
    let row = get_or s.rows s.cur.y (record { cells = []; wrapped = false }) in
    let last = get_or row.cells (t.w - 1) (blank_cell default_style) in
    when (s.cur.pending_wrap && (last.width == 1 && not (is_empty last.ch)))
      (sgr_sequence last.style ++ (encode_runes last.ch ++ esc "[0m"))

-- `cup` below the top margin in origin mode. An active cursor above the margin has a row of 0 or
-- less, which is written with its sign: `origin_row` is that number as text.
unfoldable pub origin_row : ℕ → ℕ → Bytes
unfolding itoa
origin_row y top =
    if leb top y
    then itoa (y - top + 1)
    else if leb top (y + 1)
    then itoa 0
    else b'-' ∷ itoa (top - y - 1)

unfoldable pub write_cursor : Terminal → Screen → Bool → Bytes
unfolding cup origin_row
write_cursor t s is_active =
    if t.origin && is_active
    then esc "[?6h"
      ++ (esc "[" ++ (origin_row s.cur.y s.top ++ (ascii ";" ++ (itoa (s.cur.x + 1) ++ ascii "H"))))
    else cup s.cur.x s.cur.y

-- `writeScreen`. `is_main` stands for `withScrollback`, and with the flag of the terminal says
-- whether the screen is the active one.
unfoldable pub write_screen : Terminal → Screen → Bool → Bytes
unfolding write_scrollback write_rows style_is_zero write_saved write_margins write_cursor
    write_pending
write_screen t s is_main =
    let start : Painter = record { out = []; pen = default_style; link = [] } in
    let history =
      if is_main then write_scrollback s.scrollback (first_wrapped s.rows) start else start in
    let p = write_rows s.rows history in
    p.out
    ++ (when (not (style_is_zero p.pen)) (esc "[0m")
        ++ (when (not (is_empty p.link)) (link_sequence [])
            ++ (write_saved s.saved
                ++ (write_margins t s
                    ++ (write_cursor t s (if is_main then not t.alt_active else t.alt_active)
                        ++ write_pending t s)))))

abbrev pub is_graphics : Charset → Bool
is_graphics charset_ascii = false
is_graphics charset_dec_graphics = true

-- The pen, the link and the modes.
unfoldable pub write_modes : Terminal → Bytes
unfolding sgr_sequence itoa
write_modes t =
    sgr_sequence t.pen
    ++ (when (not (is_empty t.link)) (link_sequence t.link)
        ++ (when (is_graphics t.charsets.g0) (esc "(0")
            ++ (when (is_graphics t.charsets.g1) (esc ")0")
                ++ (when (t.gl_index == 1) (0x0e ∷ [])
                    ++ (when t.insert (esc "[4h")
                        ++ (when t.line_feed_newline (esc "[20h")
                            ++ (when t.cursor_keys (esc "[?1h")
                                ++ (when (not t.autowrap) (esc "[?7l")
                                    ++ (when t.bracketed_paste (esc "[?2004h")
                                        ++ (when t.focus_events (esc "[?1004h")
                                            ++ (when (not (t.mouse == 0))
                                                  (esc "[?" ++ (itoa t.mouse ++ ascii "h"))
                                                ++ (when (not (t.mouse_enc == 0))
                                                      (esc "[?" ++ (itoa t.mouse_enc ++ ascii "h"))
                                                    ++ (when (not (t.cursor_style == 0)) (
                                                          esc "["
                                                          ++ (itoa t.cursor_style ++ ascii " q"))
                                                        ++ (when (not (is_empty t.title))
                                                            (esc "]0;" ++ (t.title ++ esc "\\"))
                                                            ++ when t.cursor_visible
                                                            (esc "[?25h")))))))))))))))

unfoldable pub snapshot : Terminal → Bytes
unfolding write_screen write_modes
snapshot t =
    esc "[0m"
    ++ (esc "[?7h"
        ++ (esc "[?6l"
            ++ (esc "[?25l"
                ++ (write_screen t t.main true
                    ++ (when t.alt_active (esc "[?1049h" ++ write_screen t t.alt false)
                        ++ write_modes t)))))
