-- ===== src/Session/Quote.antt =====
-- cmd/termulaa/session.go: the path of a dropped file as it is typed into the shell, and a reader of
-- the shell's quoting.
use termulaa.Prelude.{
  ℕ, Bool, true, false, [], ◌∷◌, ◌++◌, ◌==◌, ◌≡◌, refl, ap, ◌∙◌, arith, ascii, append_assoc,
  if◌then◌else◌, Bool-cases, inl, inr,
}
use termulaa.Outbox.{Bytes}

-- `strings.ReplaceAll(path, "'", "'\\''")`
unfoldable pub replace_quotes : Bytes → Bytes
replace_quotes [] = []
replace_quotes (b ∷ bs) =
    if b == b'\'' then ascii "'\\''" ++ replace_quotes bs else b ∷ replace_quotes bs

unfoldable pub shell_quote_path : Bytes → Bytes
unfolding replace_quotes
shell_quote_path path = ascii "'" ++ (replace_quotes path ++ ascii "' ")

-- Between words or in one without quotes, between single quotes, or behind a backslash.
pub data Quoting : Type 0 where
  plain quoted escaped : Quoting

-- The first word that a POSIX shell reads, as far as single quotes, backslashes and spaces go, and
-- what is left behind the space that ends it. Other bytes stand for themselves, and only between
-- quotes or behind a backslash are all of them safe: the Boolean tells whether none stood open.
unfoldable pub read_word : Quoting → Bytes → Bytes × Bool × Bytes
read_word q [] = ([], true, [])
read_word plain (b ∷ bs) =
    let inside = read_word quoted bs in
    let next = read_word escaped bs in
    let (word, safe, rest) = read_word plain bs in
    if b == b'\''
    then inside
    else if b == b'\\'
    then next
    else if b == b' '
    then ([], true, bs)
    else (b ∷ word, false, rest)
read_word quoted (b ∷ bs) =
    let outside = read_word plain bs in
    let (word, safe, rest) = read_word quoted bs in
    if b == b'\'' then outside else (b ∷ word, safe, rest)
read_word escaped (b ∷ bs) = let (word, safe, rest) = read_word plain bs in (b ∷ word, safe, rest)

abbrev put_front : ℕ → Bytes × Bool × Bytes → Bytes × Bool × Bytes
put_front b (word, safe, rest) = (b ∷ word, safe, rest)

-- Opened again behind `'\''`.
reopened :
    (bs : Bytes) → read_word quoted (ascii "'\\''" ++ bs) ≡ put_front b'\'' (read_word quoted bs)
unfolding read_word
reopened bs = refl

kept :
    (b : ℕ) (bs : Bytes)
    → (b == b'\'') ≡ false
    → read_word quoted (b ∷ bs) ≡ put_front b (read_word quoted bs)
unfolding read_word
kept b bs h = rw h refl

read_word-replace_quotes :
    (path rest : Bytes)
    → read_word quoted (replace_quotes path ++ (ascii "' " ++ rest)) ≡ (path, true, rest)
unfolding replace_quotes read_word
read_word-replace_quotes [] rest = refl
read_word-replace_quotes (b ∷ bs) rest = elim (Bool-cases (b == b'\'')) [
  | inl quote ↦
      let mark : b'\'' ≡ b = ground (arith, quote) in
      rw quote (
        reopened (replace_quotes bs ++ (ascii "' " ++ rest))
        ∙ ap (put_front b'\'') (read_word-replace_quotes bs rest)
        ∙ ap (λ c. put_front c (bs, true, rest)) mark)
  | inr other ↦ rw other (
      kept b (replace_quotes bs ++ (ascii "' " ++ rest)) other
      ∙ ap (put_front b) (read_word-replace_quotes bs rest))
]

-- A shell reads the typed path of a dropped file as exactly one word, the path, whatever bytes it
-- holds, and with every byte of it inside quotes or escaped. What follows is left as it is.
pub read_word-shell_quote_path :
    (path rest : Bytes) → read_word plain (shell_quote_path path ++ rest) ≡ (path, true, rest)
unfolding shell_quote_path read_word
read_word-shell_quote_path path rest =
    ap (read_word quoted) (append_assoc (replace_quotes path) (ascii "' ") rest)
    ∙ read_word-replace_quotes path rest
