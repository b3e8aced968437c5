-- ===== src/Server/Settings.antt =====
-- cmd/termulaa/main.go: sizes in the settings, and what the manager is given. `scan` is what `Sscanf`
-- with %d leaves in its variable, 0 for what is not positive. Blanks and letters are those of ASCII.
use termulaa.Prelude.{
  ℕ, ◌-◌, ◌*◌, ◌%◌, ◌^◌, ◌≤◌, ◌<◌, Bool, true, false, ◌&&◌, ◌||◌, [], ◌∷◌, Option, none, some, ◌≡◌,
  ap, arith, ◌==◌, ltb, within, length, take, drop, ascii, if◌then◌else◌, Bool-cases, inl, inr,
}
use termulaa.Vterm.Cell.{is_empty}
use termulaa.Vterm.Snapshot.{same_bytes}
use termulaa.Manager.{Config}
use termulaa.Server.{Bytes, FullConfig}

abbrev is_space : ℕ → Bool
is_space b = within 0x09 0x0d b || b == b' '

abbrev trim_left : Bytes → Bytes
trim_left [] = []
trim_left (b ∷ bs) = if is_space b then trim_left bs else b ∷ bs

abbrev trim_right : Bytes → Bytes
trim_right [] = []
trim_right (b ∷ bs) =
    let rest = trim_right bs in if is_empty rest && is_space b then [] else b ∷ rest

-- `strings.TrimSpace`
unfoldable pub trim_space : Bytes → Bytes
trim_space bs = trim_right (trim_left bs)

-- `strings.ToUpper`, of ASCII
abbrev to_upper : Bytes → Bytes
to_upper [] = []
to_upper (b ∷ bs) = (if within b'a' b'z' b then b - 32 else b) ∷ to_upper bs

-- The multiplier, and the text of the number.
unfoldable pub split_unit : Bytes → ℕ × Bytes
unfolding same_bytes
split_unit s =
    let front = take (length s - 2) s in
    let unit = to_upper (drop (length s - 2) s) in
    if same_bytes unit (ascii "MB")
    then (1024 * 1024, front)
    else if same_bytes unit (ascii "KB")
    then (1024, front)
    else (1, s)

-- The 64 bits of a product as an `int`, or `none` when that is negative.
abbrev wrapped : ℕ → Option ℕ
wrapped v = if ltb (v % 2 ^ 64) (2 ^ 63) then some (v % 2 ^ 64) else none

module _ (scan : Bytes → ℕ) where
  unfoldable pub parse_byte_size : Bytes → Option ℕ
  unfolding trim_space split_unit same_bytes
  parse_byte_size text =
      let s = trim_space text in
      let (multiplier, number) = split_unit s in
      let n = scan (trim_space number) in
      if is_empty s || same_bytes s (ascii "0")
      then some 0
      else if n == 0
      then some (1024 * 1024)
      else wrapped (n * multiplier)

  abbrev value : Option ℕ → ℕ
  value none = 0
  value (some n) = n

  -- A size that is not positive is replaced by that of the default settings.
  unfoldable pub scrollback_size : Bytes → ℕ
  unfolding parse_byte_size
  scrollback_size limit =
      let n = value (parse_byte_size limit) in
      if n == 0 then value (parse_byte_size (ascii "1MB")) else n

  -- The `Config` of the manager.
  unfoldable pub manager_config : FullConfig → Config
  unfolding scrollback_size
  manager_config cfg = record {
    cleanup_after = cfg.cleanup_after_days;
    scrollback_bytes = scrollback_size (ascii cfg.scrollback_limit);
    default_cols = cfg.default_cols;
    default_rows = cfg.default_rows;
  }

  if_below :
      (b : Bool) (x y : Option ℕ)
      → value x < 2 ^ 63
      → value y < 2 ^ 63
      → value (if b then x else y) < 2 ^ 63
  if_below true x y h k = h
  if_below false x y h k = k

  value-wrapped : (v : ℕ) → value (wrapped v) < 2 ^ 63
  value-wrapped v = ground arith

  parse_byte_size-bound : (text : Bytes) → value (parse_byte_size text) < 2 ^ 63
  unfolding parse_byte_size
  parse_byte_size-bound text =
      let s = trim_space text in
      let (multiplier, number) = split_unit s in
      let n = scan (trim_space number) in
      if_below (is_empty s || same_bytes s (ascii "0")) (some 0) _ (omega arith)
        (if_below (n == 0) (some (1024 * 1024)) _ (omega arith) (value-wrapped (n * multiplier)))

  default_size : scan (ascii "1") ≡ 1 → value (parse_byte_size (ascii "1MB")) ≡ 2 ^ 20
  unfolding parse_byte_size split_unit trim_space same_bytes
  default_size one =
      ap (λ n. value (if n == 0 then some (1024 * 1024) else wrapped (n * (1024 * 1024)))) one

  -- When "1" is scanned as 1, the scrollback that the manager is given is positive and fits an `int`,
  -- whatever size the settings ask for, also when its product with the unit overflows.
  pub manager_config-scrollback :
      (cfg : FullConfig)
      → scan (ascii "1") ≡ 1
      → (1 ≤ (manager_config cfg).scrollback_bytes)
        × ((manager_config cfg).scrollback_bytes < 2 ^ 63)
  unfolding manager_config scrollback_size
  manager_config-scrollback cfg one =
      let text = ascii cfg.scrollback_limit in
      elim (Bool-cases (value (parse_byte_size text) == 0)) [
        | inl none_asked ↦
            rw none_asked (omega (arith, default_size one), omega (arith, default_size one))
        | inr some_asked ↦ rw some_asked (ground (arith, some_asked), parse_byte_size-bound text)
      ]
