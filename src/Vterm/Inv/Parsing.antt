-- ===== src/Vterm/Inv/Parsing.antt =====
-- The parser's arrays keep their sizes, parameters stay within 2^24 and the OSC string within its
-- bound.
use termulaa.Prelude.{
  ℕ, zero, suc, ◌+◌, ◌-◌, ◌*◌, ◌≤◌, Bool, true, false, List, arith, length, get_or, set, All, nil,
  cons, All-map_range, length-map_range, length-set, if◌then◌else◌, ltb,
}
use termulaa.Vterm.State.{Parser}
use termulaa.Vterm.Params.{reset_csi, push_digit, next_param, max_value, first_param}
use termulaa.Vterm.Utf8.{encode_rune}
use termulaa.Vterm.Inv.{ParserFits}

pub All-set {ℓ κ} :
    {A : Type ℓ} {P : A → Type κ} {xs : List A} (i : ℕ) (v : A)
    → All P xs
    → P v
    → All P (set xs i v)
All-set i v nil p = nil
All-set zero v (cons q a) p = cons p a
All-set (suc i) v (cons q a) p = cons q (All-set i v a p)

pub reset_csi-ParserFits : {p : Parser} → ParserFits p → ParserFits (reset_csi p)
unfolding reset_csi
reset_csi-ParserFits {p} v =
    let n = p.n_params + 1 in
    let zeros =
      All-map_range {P = λ v. v ≤ max_value} (λ _. 0) 0 n (λ _ _. omega arith) v.params_small in
    ground (
      arith,
      zeros,
      length-map_range (λ _. 0) 0 n p.params,
      length-map_range (λ _. false) 0 n p.has_value,
      length-map_range (λ _. false) 0 n p.is_sub,
    )

pub push_digit-ParserFits : (b : ℕ) {p : Parser} → ParserFits p → ParserFits (push_digit b p)
unfolding push_digit
push_digit-ParserFits b {p} v =
    let i = first_param p - 1 in
    let d = get_or p.params i 0 * 10 + (b - b'0') in
    let c = if ltb max_value d then max_value else d in
    let small : c ≤ max_value = ground arith in
    ground (
      arith,
      All-set {P = λ v. v ≤ max_value} i c v.params_small small,
      length-set p.params i c,
      length-set p.has_value i true,
    )

pub next_param-ParserFits : (sub : Bool) {p : Parser} → ParserFits p → ParserFits (next_param sub p)
unfolding next_param
next_param-ParserFits sub {p} v =
    let i = first_param p in
    ground (
      arith,
      All-set {P = λ v. v ≤ max_value} i 0 v.params_small (omega arith),
      length-set p.params i 0,
      length-set p.has_value i false,
      length-set p.is_sub i sub,
    )

pub length-encode_rune : (r : ℕ) → length (encode_rune r) ≤ 4
unfolding encode_rune
length-encode_rune r = ground arith
