-- ===== src/Vterm/Inv/Feeding.antt =====
-- Every byte and every rune keeps the terminal valid, and so does `Write`.
use termulaa.Prelude.{
  ℕ, zero, suc, ◌≤◌, Bool, true, false, [], ◌∷◌, ◌++◌, arith, length, take, drop, length-append,
  length-take, if◌then◌else◌, ltb, not, ◌||◌, ◌&&◌, ◌==◌,
}
use termulaa.Vterm.Cell.{is_empty}
use termulaa.Vterm.State.{
  ParserState, ground as in_ground, escape, escape_intermediate, csi_entry, csi_param,
  csi_intermediate, csi_ignore, osc_string, osc_escape, string_payload, string_escape, Parser,
  Terminal,
}
use termulaa.Vterm.Utf8.{Bytes, decode_rune, full_rune, encode_rune, rune_error}
use termulaa.Vterm.Feed.{
  enter, begin_escape, run_control, feed_control, collect, feed_escape, push_osc, finish_csi,
  feed_param, feed_printable, feed_byte, feed_rune_in, feed_rune, with_partial, takes_runes,
  write_loop, feed_rest, fill_partial, write,
}
use termulaa.Vterm.Inv.{ParserFits, IsValid}
use termulaa.Vterm.Inv.Parsing.{
  reset_csi-ParserFits, push_digit-ParserFits, next_param-ParserFits, length-encode_rune,
}
use termulaa.Vterm.Inv.Prints.{print-IsValid, execute-IsValid}
use termulaa.Vterm.Inv.Dispatching.{
  esc_dispatch-IsValid, csi_dispatch-IsValid, dispatch_osc-IsValid,
}

-- A new parser of the same shape.
with_parser-IsValid :
    {t : Terminal} (p : Parser) → IsValid t → ParserFits p → IsValid (record t { p = p })
with_parser-IsValid p v f = record {
  main_fits = v.main_fits;
  alt_fits = v.alt_fits;
  stops_len = v.stops_len;
  parser_fits = f;
  no_fault = v.no_fault;
}

enter-IsValid : {t : Terminal} (s : ParserState) → IsValid t → IsValid (enter s t)
enter-IsValid {t} s v = with_parser-IsValid _ v (ground arith)

begin_escape-IsValid : {t : Terminal} → IsValid t → IsValid (begin_escape t)
begin_escape-IsValid {t} v =
    let f = reset_csi-ParserFits v.parser_fits in with_parser-IsValid _ v (ground (arith, f))

collect-IsValid : {t : Terminal} (b : ℕ) (s : ParserState) → IsValid t → IsValid (collect b s t)
collect-IsValid b s v = with_parser-IsValid _ v (ground arith)

run_control-IsValid : (b : ℕ) {t : Terminal} → IsValid t → IsValid (run_control b t)
unfolding run_control
run_control-IsValid b {t} v =
    ground (arith, begin_escape-IsValid v, enter-IsValid in_ground v, execute-IsValid b v)

feed_control-IsValid :
    (s : ParserState) (b : ℕ) {t : Terminal} → IsValid t → IsValid (feed_control s b t)
unfolding feed_control
feed_control-IsValid osc_string b {t} v =
    ground (arith, enter-IsValid in_ground (dispatch_osc-IsValid v), enter-IsValid osc_escape v)
feed_control-IsValid string_payload b {t} v = ground (arith, enter-IsValid string_escape v)
feed_control-IsValid osc_escape b v = run_control-IsValid b (enter-IsValid in_ground v)
feed_control-IsValid string_escape b v = run_control-IsValid b (enter-IsValid in_ground v)
feed_control-IsValid _ b v = run_control-IsValid b v

feed_escape-IsValid : (b : ℕ) {t : Terminal} → IsValid t → IsValid (feed_escape b t)
unfolding feed_escape
feed_escape-IsValid b {t} v =
    let cleared : IsValid (record t { p = record (t.p) { osc = []; state = osc_string } }) =
      with_parser-IsValid _ v (ground arith) in
    ground (
      arith,
      collect-IsValid b escape_intermediate v,
      enter-IsValid csi_entry v,
      cleared,
      enter-IsValid string_payload v,
      esc_dispatch-IsValid 0 b (enter-IsValid in_ground v),
    )

push_osc-IsValid : (bs : Bytes) {t : Terminal} → length bs ≤ 4 → IsValid t → IsValid (push_osc bs t)
push_osc-IsValid bs {t} small v = ground (arith, length-append t.p.osc bs)

with_partial-IsValid :
    (bs : Bytes) {t : Terminal} → length bs ≤ 4 → IsValid t → IsValid (with_partial bs t)
with_partial-IsValid bs small v = with_parser-IsValid _ v (ground arith)

-- The shape of a round of `Write`.
branches-IsValid :
    (a b c : Bool) (w x y z : Terminal)
    → IsValid w
    → IsValid x
    → IsValid y
    → IsValid z
    → IsValid (if a then w else if b then (if c then x else y) else z)
branches-IsValid true b c w x y z vw vx vy vz = vw
branches-IsValid false true true w x y z vw vx vy vz = vx
branches-IsValid false true false w x y z vw vx vy vz = vy
branches-IsValid false false c w x y z vw vx vy vz = vz

length-fill_partial : (bs part : Bytes) → length part ≤ 4 → length (fill_partial part bs).0 ≤ 4
unfolding fill_partial
length-fill_partial [] part h = h
length-fill_partial (b ∷ bs) part h =
    ground (arith, length-fill_partial bs (part ++ b ∷ []), length-append part (b ∷ []))

module _ (is_mark : ℕ → Bool) where
  finish_csi-IsValid : (b : ℕ) {t : Terminal} → IsValid t → IsValid (finish_csi is_mark b t)
  finish_csi-IsValid b v = csi_dispatch-IsValid is_mark b (enter-IsValid in_ground v)

  feed_param-IsValid : (b : ℕ) {t : Terminal} → IsValid t → IsValid (feed_param is_mark b t)
  unfolding feed_param
  feed_param-IsValid b {t} v =
      let p = v.parser_fits in
      ground (
        arith,
        with_parser-IsValid {t = t} _ v (push_digit-ParserFits b p),
        with_parser-IsValid {t = t} _ v (next_param-ParserFits false p),
        with_parser-IsValid {t = t} _ v (next_param-ParserFits true p),
        enter-IsValid csi_ignore v,
        collect-IsValid b csi_intermediate v,
        finish_csi-IsValid b v,
      )

  feed_printable-IsValid :
      (s : ParserState) (b : ℕ) {t : Terminal} → IsValid t → IsValid (feed_printable is_mark s b t)
  unfolding feed_printable
  feed_printable-IsValid in_ground b v = print-IsValid is_mark b v
  feed_printable-IsValid escape b v = feed_escape-IsValid b v
  feed_printable-IsValid escape_intermediate b {t} v = ground (
    arith,
    collect-IsValid b escape_intermediate v,
    esc_dispatch-IsValid t.p.intermediate b (enter-IsValid in_ground v),
  )
  feed_printable-IsValid csi_entry b {t} v =
      let marked : IsValid (record t { p = record (t.p) { private = b; state = csi_param } }) =
        with_parser-IsValid _ v (ground arith) in
      ground (
        arith,
        feed_param-IsValid b (enter-IsValid csi_param v),
        marked,
        collect-IsValid b csi_intermediate v,
        finish_csi-IsValid b v,
      )
  feed_printable-IsValid csi_param b v = feed_param-IsValid b v
  feed_printable-IsValid csi_intermediate b {t} v = ground (
    arith,
    collect-IsValid b csi_intermediate v,
    enter-IsValid csi_ignore v,
    finish_csi-IsValid b v,
  )
  feed_printable-IsValid csi_ignore b v = ground (arith, enter-IsValid in_ground v)
  feed_printable-IsValid osc_string b v = push_osc-IsValid (b ∷ []) (omega arith) v
  feed_printable-IsValid osc_escape b {t} v = ground (
    arith,
    dispatch_osc-IsValid (enter-IsValid in_ground v),
    feed_escape-IsValid b (begin_escape-IsValid v),
  )
  feed_printable-IsValid string_payload b v = v
  feed_printable-IsValid string_escape b {t} v =
      ground (arith, enter-IsValid in_ground v, feed_escape-IsValid b (begin_escape-IsValid v))

  pub feed_byte-IsValid : (b : ℕ) {t : Terminal} → IsValid t → IsValid (feed_byte is_mark b t)
  unfolding feed_byte
  feed_byte-IsValid b {t} v =
      ground (arith, feed_control-IsValid t.p.state b v, feed_printable-IsValid t.p.state b v)

  feed_rune_in-IsValid :
      (s : ParserState) (r : ℕ) {t : Terminal} → IsValid t → IsValid (feed_rune_in is_mark s r t)
  unfolding feed_rune_in
  feed_rune_in-IsValid in_ground r v = print-IsValid is_mark r v
  feed_rune_in-IsValid osc_string r v = push_osc-IsValid (encode_rune r) (length-encode_rune r) v
  feed_rune_in-IsValid _ r v = v

  pub feed_rune-IsValid : (r : ℕ) {t : Terminal} → IsValid t → IsValid (feed_rune is_mark r t)
  unfolding feed_rune
  feed_rune-IsValid r {t} v = feed_rune_in-IsValid t.p.state r v

  write_loop-IsValid :
      (fuel : ℕ) (bs : Bytes) {t : Terminal} → IsValid t → IsValid (write_loop is_mark fuel bs t)
  unfolding write_loop
  write_loop-IsValid zero bs v = v
  write_loop-IsValid (suc fuel) [] v = v
  write_loop-IsValid (suc fuel) (b ∷ bs) {t} v =
      let out = decode_rune (b ∷ bs) in
      branches-IsValid (ltb b 0x80 || not (takes_runes t.p.state))
        (out.0 == rune_error && out.1 == 1) (full_rune (b ∷ bs)) _ _ _ _
        (write_loop-IsValid fuel bs (feed_byte-IsValid b v)) (write_loop-IsValid fuel bs v)
        (with_partial-IsValid (take 4 (b ∷ bs)) (omega (arith, length-take 4 (b ∷ bs))) v)
        (write_loop-IsValid fuel (drop out.1 (b ∷ bs)) (feed_rune-IsValid out.0 v))

  feed_rest-IsValid :
      (fuel : ℕ) (bs : Bytes) {t : Terminal} → IsValid t → IsValid (feed_rest is_mark fuel bs t)
  unfolding feed_rest
  feed_rest-IsValid zero bs v = v
  feed_rest-IsValid (suc fuel) [] v = v
  feed_rest-IsValid (suc fuel) (b ∷ bs) v =
      let out = decode_rune (b ∷ bs) in
      feed_rest-IsValid fuel (drop out.1 (b ∷ bs)) (feed_rune-IsValid out.0 v)

  -- Whatever bytes are written to a valid terminal, it stays valid: the grids keep their size, the
  -- cursors and margins stay inside, the scrollback and the arrays of the parser within their limits,
  -- and a terminal of two columns or more meets no fault.
  pub write-IsValid : (bs : Bytes) {t : Terminal} → IsValid t → IsValid (write is_mark bs t)
  unfolding write
  write-IsValid bs {t} v =
      let filled = fill_partial t.p.partial bs in
      let out = decode_rune filled.0 in
      let small = length-fill_partial bs t.p.partial v.parser_fits.partial_small in
      let fed =
        feed_rest-IsValid 4 (drop out.1 filled.0)
          (feed_rune-IsValid out.0 (with_partial-IsValid [] (omega arith) v)) in
      branches-IsValid (is_empty t.p.partial) (not (full_rune filled.0)) true _ _ _ _
        (write_loop-IsValid (length bs) bs v) (with_partial-IsValid filled.0 small v) v
        (write_loop-IsValid (length filled.1) filled.1 fed)
