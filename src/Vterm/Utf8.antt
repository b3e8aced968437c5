-- ===== src/Vterm/Utf8.antt =====
-- What internal/vterm/parser.go uses of the standard package unicode/utf8: `DecodeRune`,
-- `FullRune` and `AppendRune`.
pub mod Prefix
use termulaa.Prelude.{
  ℕ, ◌+◌, ◌-◌, ◌*◌, ◌/◌, ◌%◌, Bool, true, false, not, ◌&&◌, ◌||◌, List, [], ◌∷◌, ltb, leb, within,
  ◌==◌, if◌then◌else◌,
}

abbrev pub rune_error : ℕ
rune_error = 0xfffd

abbrev pub Bytes : Type 0
Bytes = List ℕ

-- The length that a first byte announces; 1 for an ASCII or an invalid byte.
unfoldable pub lead_size : ℕ → ℕ
lead_size b =
    if within 0xc2 0xdf b
    then 2
    else if within 0xe0 0xef b
    then 3
    else if within 0xf0 0xf4 b
    then 4
    else 1

-- The second bytes that a first byte accepts.
unfoldable pub accepts : ℕ → ℕ → Bool
accepts b c =
    if b == 0xe0
    then within 0xa0 0xbf c
    else if b == 0xed
    then within 0x80 0x9f c
    else if b == 0xf0
    then within 0x90 0xbf c
    else if b == 0xf4
    then within 0x80 0x8f c
    else within 0x80 0xbf c

abbrev pub continues : ℕ → Bool
continues = within 0x80 0xbf

-- The cases of two, three and four bytes, on what follows the first byte.
unfoldable pub decode_tail : ℕ → Bytes → ℕ × ℕ
unfolding lead_size accepts
decode_tail b [] = (rune_error, 1)
decode_tail b (c ∷ []) =
    if lead_size b == 2 && accepts b c then (b % 32 * 64 + c % 64, 2) else (rune_error, 1)
decode_tail b (c ∷ d ∷ []) =
    if not (accepts b c)
    then (rune_error, 1)
    else if lead_size b == 2
    then (b % 32 * 64 + c % 64, 2)
    else if lead_size b == 3 && continues d
    then (b % 16 * 4096 + c % 64 * 64 + d % 64, 3)
    else (rune_error, 1)
decode_tail b (c ∷ d ∷ e ∷ bs) =
    if not (accepts b c)
    then (rune_error, 1)
    else if lead_size b == 2
    then (b % 32 * 64 + c % 64, 2)
    else if not (continues d)
    then (rune_error, 1)
    else if lead_size b == 3
    then (b % 16 * 4096 + c % 64 * 64 + d % 64, 3)
    else if continues e
    then (b % 8 * 262144 + c % 64 * 4096 + d % 64 * 64 + e % 64, 4)
    else (rune_error, 1)

-- `DecodeRune`: the rune and its size.
unfoldable pub decode_rune : Bytes → ℕ × ℕ
unfolding decode_tail
decode_rune [] = (rune_error, 0)
decode_rune (b ∷ bs) =
    if ltb b 0x80 then (b, 1) else if lead_size b == 1 then (rune_error, 1) else decode_tail b bs

-- `FullRune`: false only for a proper prefix of a well-formed rune.
unfoldable pub full_rune : Bytes → Bool
unfolding lead_size accepts
full_rune [] = false
full_rune (b ∷ []) = leb (lead_size b) 1
full_rune (b ∷ c ∷ []) = leb (lead_size b) 2 || not (accepts b c)
full_rune (b ∷ c ∷ d ∷ []) = leb (lead_size b) 3 || not (accepts b c) || not (continues d)
full_rune (b ∷ c ∷ d ∷ e ∷ bs) = true

-- `AppendRune` onto nothing.
unfoldable pub encode_rune : ℕ → Bytes
encode_rune r =
    let v = if within 0xd800 0xdfff r || ltb 0x10ffff r then rune_error else r in
    if ltb v 0x80
    then v ∷ []
    else if ltb v 0x800
    then (0xc0 + v / 64) ∷ (0x80 + v % 64) ∷ []
    else if ltb v 0x10000
    then (0xe0 + v / 4096) ∷ (0x80 + v / 64 % 64) ∷ (0x80 + v % 64) ∷ []
    else (0xf0 + v / 262144) ∷ (0x80 + v / 4096 % 64) ∷ (0x80 + v / 64 % 64) ∷ (0x80 + v % 64) ∷ []
