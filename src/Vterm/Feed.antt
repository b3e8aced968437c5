-- ===== src/Vterm/Feed.antt =====
-- internal/vterm/parser.go: the state machine on bytes and runes, and `Write`.
pub mod Chunks
pub mod Cut
use termulaa.Prelude.{
  ℕ, zero, suc, ◌+◌, ◌-◌, Bool, true, false, not, ◌&&◌, ◌||◌, List, [], ◌∷◌, ◌++◌, ◌==◌, ltb, leb,
  within, length, take, drop, if◌then◌else◌,
}
use termulaa.Vterm.Cell.{is_empty}
use termulaa.Vterm.State.{
  ParserState, ground, escape, escape_intermediate, csi_entry, csi_param, csi_intermediate,
  csi_ignore, osc_string, osc_escape, string_payload, string_escape, Parser, Terminal,
  max_osc_bytes,
}
use termulaa.Vterm.Print.{print, execute}
use termulaa.Vterm.Params.{with_state, reset_csi, push_digit, next_param}
use termulaa.Vterm.Dispatch.{esc_dispatch, csi_dispatch, dispatch_osc}
use termulaa.Vterm.Utf8.{Bytes, decode_rune, full_rune, encode_rune, rune_error}

abbrev pub enter : ParserState → Terminal → Terminal
enter s t = record t { p = with_state t.p s }

abbrev pub begin_escape : Terminal → Terminal
begin_escape t = record t { p = with_state (reset_csi t.p) escape }

-- b < 0x20 || b == 0x7f
abbrev pub is_control : ℕ → Bool
is_control b = ltb b 0x20 || b == 0x7f

-- A control outside the string states.
unfoldable pub run_control : ℕ → Terminal → Terminal
run_control b t =
    if b == 0x1b
    then begin_escape t
    else if b == 0x18 || b == 0x1a
    then enter ground t
    else execute b t

unfoldable pub feed_control : ParserState → ℕ → Terminal → Terminal
feed_control osc_string b t =
    if b == 0x07 then enter ground (dispatch_osc t) else if b == 0x1b then enter osc_escape t else t
feed_control string_payload b t = if b == 0x1b then enter string_escape t else t
feed_control osc_escape b t = run_control b (enter ground t)
feed_control string_escape b t = run_control b (enter ground t)
feed_control _ b t = run_control b t

abbrev pub is_intermediate : ℕ → Bool
is_intermediate = within 0x20 0x2f

-- p.intermediate = b; p.state = s
abbrev pub collect : ℕ → ParserState → Terminal → Terminal
collect b s t = record t { p = record (t.p) { intermediate = b; state = s } }

-- `stateEscape`
unfoldable pub feed_escape : ℕ → Terminal → Terminal
feed_escape b t =
    if is_intermediate b
    then collect b escape_intermediate t
    else if b == b'['
    then enter csi_entry t
    else if b == b']'
    then record t { p = record (t.p) { osc = []; state = osc_string } }
    else if b == b'P' || b == b'X' || b == b'^' || b == b'_'
    then enter string_payload t
    else esc_dispatch 0 b (enter ground t)

abbrev pub push_osc : Bytes → Terminal → Terminal
push_osc bs t =
    if ltb (length t.p.osc) max_osc_bytes
    then record t { p = record (t.p) { osc = t.p.osc ++ bs } }
    else t

-- Runes are decoded in the ground, OSC and string states alone.
abbrev pub takes_runes : ParserState → Bool
takes_runes ground = true
takes_runes osc_string = true
takes_runes string_payload = true
takes_runes _ = false

abbrev pub with_partial : Bytes → Terminal → Terminal
with_partial bs t = record t { p = record (t.p) { partial = bs } }

-- The bytes of the cut rune completed from the data, and the data left.
unfoldable pub fill_partial : Bytes → Bytes → Bytes × Bytes
fill_partial part [] = (part, [])
fill_partial part (b ∷ bs) =
    let more = part ++ b ∷ [] in
    let rest = fill_partial more bs in
    if ltb (length part) 4 then (if full_rune more then (more, bs) else rest) else (part, b ∷ bs)

module _ (is_mark : ℕ → Bool) where
  abbrev pub finish_csi : ℕ → Terminal → Terminal
  finish_csi b t = csi_dispatch is_mark b (enter ground t)

  -- `stateCSIParam`
  unfoldable pub feed_param : ℕ → Terminal → Terminal
  feed_param b t =
      if within b'0' b'9' b
      then record t { p = push_digit b t.p }
      else if b == b';'
      then record t { p = next_param false t.p }
      else if b == b':'
      then record t { p = next_param true t.p }
      else if within 0x3c 0x3f b
      then enter csi_ignore t
      else if is_intermediate b
      then collect b csi_intermediate t
      else finish_csi b t

  -- The bytes that are no controls. The recursive calls of the source are those of the states
  -- entered: `stateCSIParam` and `stateEscape`.
  unfoldable pub feed_printable : ParserState → ℕ → Terminal → Terminal
  feed_printable ground b t = print is_mark b t
  feed_printable escape b t = feed_escape b t
  feed_printable escape_intermediate b t =
      if is_intermediate b
      then collect b escape_intermediate t
      else esc_dispatch t.p.intermediate b (enter ground t)
  feed_printable csi_entry b t =
      if within 0x30 0x3b b
      then feed_param b (enter csi_param t)
      else if within 0x3c 0x3f b
      then record t { p = record (t.p) { private = b; state = csi_param } }
      else if is_intermediate b
      then collect b csi_intermediate t
      else finish_csi b t
  feed_printable csi_param b t = feed_param b t
  feed_printable csi_intermediate b t =
      if is_intermediate b
      then collect b csi_intermediate t
      else if within 0x30 0x3f b
      then enter csi_ignore t
      else finish_csi b t
  feed_printable csi_ignore b t = if within 0x40 0x7e b then enter ground t else t
  feed_printable osc_string b t = push_osc (b ∷ []) t
  feed_printable osc_escape b t =
      if b == b'\\' then dispatch_osc (enter ground t) else feed_escape b (begin_escape t)
  feed_printable string_payload b t = t
  feed_printable string_escape b t =
      if b == b'\\' then enter ground t else feed_escape b (begin_escape t)

  unfoldable pub feed_byte : ℕ → Terminal → Terminal
  feed_byte b t = if is_control b then feed_control t.p.state b t else feed_printable t.p.state b t

  unfoldable pub feed_rune_in : ParserState → ℕ → Terminal → Terminal
  feed_rune_in ground r t = print is_mark r t
  feed_rune_in osc_string r t = push_osc (encode_rune r) t
  feed_rune_in _ r t = t

  unfoldable pub feed_rune : ℕ → Terminal → Terminal
  feed_rune r t = feed_rune_in t.p.state r t

  -- The main loop of `Write`. Each round takes a byte at least, so `length` rounds are enough.
  unfoldable pub write_loop : ℕ → Bytes → Terminal → Terminal
  write_loop zero bs t = t
  write_loop (suc fuel) [] t = t
  write_loop (suc fuel) (b ∷ bs) t =
      let (r, size) = decode_rune (b ∷ bs) in
      let fed = write_loop fuel bs (feed_byte b t) in
      let skipped = write_loop fuel bs t in
      let printed = write_loop fuel (drop size (b ∷ bs)) (feed_rune r t) in
      if ltb b 0x80 || not (takes_runes t.p.state)
      then fed
      else if r == rune_error && size == 1
      then (if full_rune (b ∷ bs) then skipped else with_partial (take 4 (b ∷ bs)) t)
      else printed

  -- The bytes pulled in behind the rune that the last `Write` cut. At most four.
  unfoldable pub feed_rest : ℕ → Bytes → Terminal → Terminal
  feed_rest zero bs t = t
  feed_rest (suc fuel) [] t = t
  feed_rest (suc fuel) (b ∷ bs) t =
      let (r, size) = decode_rune (b ∷ bs) in feed_rest fuel (drop size (b ∷ bs)) (feed_rune r t)

  -- `Write`; it always takes the whole of `bs`.
  unfoldable pub write : Bytes → Terminal → Terminal
  write bs t =
      let (part, left) = fill_partial t.p.partial bs in
      let (r, size) = decode_rune part in
      let cut = feed_rest 4 (drop size part) (feed_rune r (with_partial [] t)) in
      if is_empty t.p.partial
      then write_loop (length bs) bs t
      else if not (full_rune part)
      then with_partial part t
      else write_loop (length left) left cut
