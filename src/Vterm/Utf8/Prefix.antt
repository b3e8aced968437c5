-- ===== src/Vterm/Utf8/Prefix.antt =====
-- Decoding looks at no byte behind a full rune.
use termulaa.Prelude.{ℕ, suc, ◌≤◌, true, false, [], ◌∷◌, ◌++◌, ◌≡◌, refl, arith, length}
use termulaa.Vterm.Utf8.{Bytes, decode_tail, decode_rune, full_rune, rune_error}

pub decode_rune-append :
    (xs ys : Bytes) → full_rune xs ≡ true → decode_rune (xs ++ ys) ≡ decode_rune xs
unfolding full_rune decode_rune decode_tail
decode_rune-append [] ys h = cc
decode_rune-append (b ∷ []) [] h = refl
decode_rune-append (b ∷ []) (y ∷ ys) h = ground arith
decode_rune-append (b ∷ c ∷ []) [] h = refl
decode_rune-append (b ∷ c ∷ []) (y ∷ []) h = ground arith
decode_rune-append (b ∷ c ∷ []) (y ∷ z ∷ ys) h = ground arith
decode_rune-append (b ∷ c ∷ d ∷ []) [] h = refl
decode_rune-append (b ∷ c ∷ d ∷ []) (y ∷ ys) h = ground arith
decode_rune-append (b ∷ c ∷ d ∷ e ∷ xs) ys h = refl

pub full_rune-append : (xs ys : Bytes) → full_rune xs ≡ true → full_rune (xs ++ ys) ≡ true
unfolding full_rune
full_rune-append [] ys h = cc
full_rune-append (b ∷ []) [] h = h
full_rune-append (b ∷ []) (y ∷ []) h = ground arith
full_rune-append (b ∷ []) (y ∷ z ∷ []) h = ground arith
full_rune-append (b ∷ []) (y ∷ z ∷ u ∷ ys) h = refl
full_rune-append (b ∷ c ∷ []) [] h = h
full_rune-append (b ∷ c ∷ []) (y ∷ []) h = ground arith
full_rune-append (b ∷ c ∷ []) (y ∷ z ∷ ys) h = refl
full_rune-append (b ∷ c ∷ d ∷ []) [] h = h
full_rune-append (b ∷ c ∷ d ∷ []) (y ∷ ys) h = refl
full_rune-append (b ∷ c ∷ d ∷ e ∷ xs) ys h = refl

-- What is no full rune yet decodes as an error of one byte.
pub decode_rune-partial :
    (b : ℕ) (bs : Bytes) → full_rune (b ∷ bs) ≡ false → decode_rune (b ∷ bs) ≡ (rune_error, 1)
unfolding full_rune decode_rune decode_tail
decode_rune-partial b [] h = ground arith
decode_rune-partial b (c ∷ []) h = ground arith
decode_rune-partial b (c ∷ d ∷ []) h = ground arith
decode_rune-partial b (c ∷ d ∷ e ∷ bs) h = cc

-- A rune takes a byte at least, and no more than there are.
pub decode_size :
    (b : ℕ) (bs : Bytes)
    → (1 ≤ (decode_rune (b ∷ bs)).1) × ((decode_rune (b ∷ bs)).1 ≤ suc (length bs))
unfolding decode_rune decode_tail
decode_size b [] = ground arith
decode_size b (c ∷ []) = ground arith
decode_size b (c ∷ d ∷ []) = ground arith
decode_size b (c ∷ d ∷ e ∷ bs) = ground arith
