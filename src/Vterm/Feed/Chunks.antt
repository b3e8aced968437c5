-- ===== src/Vterm/Feed/Chunks.antt =====
-- The rounds of `Write`, and what a cut of the stream changes.
use termulaa.Prelude.{
  ℕ, zero, suc, ◌≤◌, Bool, true, false, not, ◌&&◌, ◌||◌, [], ◌∷◌, ◌++◌, ◌≡◌, inl, inr, refl, sym,
  ap, ◌∙◌, arith, length, take, drop, length-append, length-drop, drop-append_le, ltb, ◌==◌,
  if◌then◌else◌, Bool-cases,
}
use termulaa.Vterm.Cell.{is_empty}
use termulaa.Vterm.State.{Terminal}
use termulaa.Vterm.Utf8.{Bytes, decode_rune, full_rune, rune_error}
use termulaa.Vterm.Utf8.Prefix.{
  decode_rune-append, full_rune-append, decode_rune-partial, decode_size,
}
use termulaa.Vterm.Feed.{takes_runes, with_partial, feed_byte, feed_rune, write_loop, write}

-- Byte `b` is fed as a byte: ASCII, or inside a sequence.
abbrev pub as_byte : ℕ → Terminal → Bool
as_byte b t = ltb b 0x80 || not (takes_runes t.p.state)

abbrev is_error : ℕ × ℕ → Bool
is_error (r, size) = r == rune_error && size == 1

module _ (is_mark : ℕ → Bool) where
  module _ (f b : ℕ) (bs : Bytes) (t : Terminal) where
    step_byte :
        as_byte b t ≡ true
        → write_loop is_mark (suc f) (b ∷ bs) t ≡ write_loop is_mark f bs (feed_byte is_mark b t)
    unfolding write_loop
    step_byte h = rw h

    step_skip :
        as_byte b t ≡ false
        → is_error (decode_rune (b ∷ bs)) ≡ true
        → full_rune (b ∷ bs) ≡ true
        → write_loop is_mark (suc f) (b ∷ bs) t ≡ write_loop is_mark f bs t
    unfolding write_loop
    step_skip h e k = rw (h, e, k)

    pub step_cut :
        as_byte b t ≡ false
        → full_rune (b ∷ bs) ≡ false
        → write_loop is_mark (suc f) (b ∷ bs) t ≡ with_partial (take 4 (b ∷ bs)) t
    unfolding write_loop
    step_cut h k = rw (h, k, decode_rune-partial b bs k)

    step_rune :
        as_byte b t ≡ false
        → is_error (decode_rune (b ∷ bs)) ≡ false
        → write_loop is_mark (suc f) (b ∷ bs) t
          ≡ write_loop is_mark f
              (drop (decode_rune (b ∷ bs)).1 (b ∷ bs))
              (feed_rune is_mark (decode_rune (b ∷ bs)).0 t)
    unfolding write_loop
    step_rune h e = rw (h, e)

  -- Any two bounds on the rounds of the loop of `Write` that are at least the number of bytes give
  -- the same result: a round for each byte is enough.
  pub write_loop-fuel :
      (f g : ℕ) (bs : Bytes) (t : Terminal)
      → length bs ≤ f
      → length bs ≤ g
      → write_loop is_mark f bs t ≡ write_loop is_mark g bs t
  unfolding write_loop
  write_loop-fuel zero zero bs t h k = refl
  write_loop-fuel zero (suc g) [] t h k = refl
  write_loop-fuel zero (suc g) (b ∷ bs) t h k = absurd (omega arith)
  write_loop-fuel (suc f) zero [] t h k = refl
  write_loop-fuel (suc f) zero (b ∷ bs) t h k = absurd (omega arith)
  write_loop-fuel (suc f) (suc g) [] t h k = refl
  write_loop-fuel (suc f) (suc g) (b ∷ bs) t h k =
      let out = decode_rune (b ∷ bs) in
      let less = length-drop out.1 (b ∷ bs) in
      let fed = write_loop-fuel f g bs (feed_byte is_mark b t) (omega arith) (omega arith) in
      let skipped = write_loop-fuel f g bs t (omega arith) (omega arith) in
      let printed =
        write_loop-fuel f g (drop out.1 (b ∷ bs)) (feed_rune is_mark out.0 t)
          (omega (arith, less, decode_size b bs)) (omega (arith, less, decode_size b bs)) in
      λ i.
        if as_byte b t
        then fed i
        else if is_error out
        then (if full_rune (b ∷ bs) then skipped i else with_partial (take 4 (b ∷ bs)) t)
        else printed i

  loop_append :
      (f g : ℕ) (bs cs : Bytes) (t : Terminal)
      → length bs ≤ f
      → length (bs ++ cs) ≤ g
      → (write_loop is_mark f bs t).p.partial ≡ []
      → write_loop is_mark g (bs ++ cs) t
        ≡ write_loop is_mark (length cs) cs (write_loop is_mark f bs t)
  loop_append zero g [] cs t h k e =
      unfold write_loop in write_loop-fuel g (length cs) cs t k (omega arith)
  loop_append zero g (b ∷ bs) cs t h k e = absurd (omega arith)
  loop_append (suc f) g [] cs t h k e =
      unfold write_loop in write_loop-fuel g (length cs) cs t k (omega arith)
  loop_append (suc f) zero (b ∷ bs) cs t h k e = absurd (omega arith)
  loop_append (suc f) (suc g) (b ∷ bs) cs t h k e = elim (Bool-cases (as_byte b t)) [
    | inl byte ↦
        let here = step_byte f b bs t byte in
        step_byte g b (bs ++ cs) t byte
        ∙ loop_append f g bs cs (feed_byte is_mark b t) (omega arith) (omega arith) (rw here at e)
        ∙ ap (write_loop is_mark (length cs) cs) (sym here)
    | inr wide ↦ elim (Bool-cases (full_rune (b ∷ bs))) [
      | inr cut ↦ absurd (cut_keeps t (rw (step_cut f b bs t wide cut) at e))
      | inl whole ↦
          let same = decode_rune-append (b ∷ bs) cs whole in
          let whole' = full_rune-append (b ∷ bs) cs whole in
          elim (Bool-cases (is_error (decode_rune (b ∷ bs)))) [
            | inl bad ↦
                let here = step_skip f b bs t wide bad whole in
                step_skip g b (bs ++ cs) t wide (ap is_error same ∙ bad) whole'
                ∙ loop_append f g bs cs t (omega arith) (omega arith) (rw here at e)
                ∙ ap (write_loop is_mark (length cs) cs) (sym here)
            | inr good ↦
                let out = decode_rune (b ∷ bs) in
                let size = decode_size b bs in
                let here = step_rune f b bs t wide good in
                let rest = drop out.1 (b ∷ bs) in
                let cut_at = drop-append_le (b ∷ bs) cs out.1 (omega (arith, size)) in
                let short = length-drop out.1 (b ∷ bs) in
                step_rune g b (bs ++ cs) t wide (ap is_error same ∙ good)
                ∙ ap
                    (λ (o : ℕ × ℕ).
                      write_loop is_mark g (drop o.1 (b ∷ (bs ++ cs))) (feed_rune is_mark o.0 t))
                    same
                ∙ ap (λ xs. write_loop is_mark g xs (feed_rune is_mark out.0 t)) cut_at
                ∙ loop_append f g rest cs (feed_rune is_mark out.0 t) (omega (arith, short, size))
                    (omega (arith, short, size, length-append rest cs, length-append bs cs))
                    (rw here at e)
                ∙ ap (write_loop is_mark (length cs) cs) (sym here)
          ]
    ]
  ]
    where
      cut_keeps : (u : Terminal) → (with_partial (take 4 (b ∷ bs)) u).p.partial ≡ [] → ⊥
      cut_keeps u q = cc

  pub write-eq-loop :
      (bs : Bytes) (t : Terminal)
      → t.p.partial ≡ []
      → write is_mark bs t ≡ write_loop is_mark (length bs) bs t
  unfolding write
  write-eq-loop bs t e = let yes_empty : is_empty t.p.partial ≡ true = ap is_empty e in rw yes_empty

  -- When neither the terminal nor the first piece leaves an incomplete rune behind, writing a stream
  -- in two pieces is writing it at once.
  pub write_append :
      (bs cs : Bytes) (t : Terminal)
      → t.p.partial ≡ []
      → (write is_mark bs t).p.partial ≡ []
      → write is_mark (bs ++ cs) t ≡ write is_mark cs (write is_mark bs t)
  write_append bs cs t e k =
      let first = write-eq-loop bs t e in
      write-eq-loop (bs ++ cs) t e
      ∙ loop_append (length bs) (length (bs ++ cs)) bs cs t (omega arith) (omega arith)
          (rw first at k)
      ∙ ap (write_loop is_mark (length cs) cs) (sym first)
      ∙ sym (write-eq-loop cs (write is_mark bs t) k)
