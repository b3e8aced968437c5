-- ===== src/Server/Prefix.antt =====
-- cmd/termulaa/handler.go: the path prefix that a reverse proxy announces, and the pages.
pub mod Grammar
pub mod Sanitize
use termulaa.Prelude.{
  ℕ, ◌+◌, Bool, true, false, not, ◌&&◌, ◌||◌, List, [], ◌∷◌, ◌++◌, Option, none, some, ◌==◌, ltb,
  length, ascii, if◌then◌else◌,
}
use termulaa.Vterm.Cell.{is_empty}
use termulaa.Server.{Bytes, is_word_byte, all_bytes}

abbrev pub into_first : ℕ → List Bytes → List Bytes
into_first b [] = (b ∷ []) ∷ []
into_first b (s ∷ ss) = (b ∷ s) ∷ ss

-- `strings.Split(p, "/")`
unfoldable pub split_slash : Bytes → List Bytes
split_slash [] = [] ∷ []
split_slash (b ∷ bs) =
    let rest = split_slash bs in if b == b'/' then [] ∷ rest else into_first b rest

abbrev pub max_forwarded_prefix_len : ℕ
max_forwarded_prefix_len = 256

-- `[A-Za-z0-9._~-]`
abbrev pub is_prefix_byte : ℕ → Bool
is_prefix_byte b = is_word_byte b || b == b'.' || b == b'_' || b == b'~' || b == b'-'

-- A match of `prefixSegmentPattern` that is more than dots.
abbrev pub is_segment : Bytes → Bool
is_segment s =
    (not (is_empty s) && all_bytes is_prefix_byte s) && not (all_bytes (λ b. b == b'.') s)

abbrev pub all_segments : List Bytes → Bool
all_segments [] = true
all_segments (s ∷ ss) = is_segment s && all_segments ss

abbrev pub ends_with_slash : Bytes → Bool
ends_with_slash [] = false
ends_with_slash (b ∷ []) = b == b'/'
ends_with_slash (b ∷ c ∷ bs) = ends_with_slash (c ∷ bs)

unfoldable pub sanitize_prefix : Bytes → Bytes
unfolding split_slash
sanitize_prefix [] = []
sanitize_prefix (b ∷ bs) =
    if ltb max_forwarded_prefix_len (length (b ∷ bs))
    then []
    else if not (b == b'/') || ends_with_slash (b ∷ bs)
    then []
    else if all_segments (split_slash bs)
    then b ∷ bs
    else []

-- `html.EscapeString`
abbrev escape_byte : ℕ → Bytes
escape_byte b =
    if b == b'&'
    then ascii "&amp;"
    else if b == b'\''
    then ascii "&#39;"
    else if b == b'<'
    then ascii "&lt;"
    else if b == b'>'
    then ascii "&gt;"
    else if b == b'"'
    then ascii "&#34;"
    else b ∷ []

unfoldable pub escape_string : Bytes → Bytes
escape_string [] = []
escape_string (b ∷ bs) = escape_byte b ++ escape_string bs

abbrev pub base_placeholder : Bytes
base_placeholder = ascii "<base href=\"/\">"

-- What stands behind `old` at the front of the bytes.
unfoldable pub strip_prefix : Bytes → Bytes → Option Bytes
strip_prefix [] bs = some bs
strip_prefix (o ∷ old) [] = none
strip_prefix (o ∷ old) (b ∷ bs) = if o == b then strip_prefix old bs else none

-- `bytes.Replace(bs, old, new, 1)`
unfoldable pub replace_first : Bytes → Bytes → Bytes → Bytes
unfolding strip_prefix
replace_first old new [] = []
replace_first old new (b ∷ bs) =
    let rest = replace_first old new bs in
    elim (strip_prefix old (b ∷ bs)) [ none ↦ b ∷ rest | some after ↦ new ++ after ]

-- The page that `serveUIPage` writes for the file.
unfoldable pub render_page : Bytes → Bytes → Bytes
unfolding sanitize_prefix escape_string replace_first
render_page forwarded_prefix page =
    let prefix = sanitize_prefix forwarded_prefix in
    let rendered = ascii "<base href=\"" ++ (escape_string prefix ++ ascii "/\">") in
    if is_empty prefix then page else replace_first base_placeholder rendered page
