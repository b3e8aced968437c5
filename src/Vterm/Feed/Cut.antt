-- ===== src/Vterm/Feed/Cut.antt =====
-- What a cut inside an invalid sequence does: the byte behind it loses its meaning as a control.
use termulaa.Prelude.{ℕ, Bool, true, false, not, [], ◌∷◌, ◌≡◌, ap, ◌∙◌, arith, within, ltb, ◌||◌}
use termulaa.Vterm.State.{ground as in_ground, escape, Parser, Terminal, on_active}
use termulaa.Vterm.Print.{print}
use termulaa.Vterm.Utf8.{decode_rune, full_rune, rune_error}
use termulaa.Vterm.Feed.{
  with_partial, run_control, feed_control, feed_byte, feed_rune_in, feed_rune, write_loop,
  feed_rest, fill_partial, write, takes_runes,
}
use termulaa.Vterm.Feed.Chunks.{as_byte, step_cut, write-eq-loop}

-- A lead byte of a rune of three bytes.
abbrev pub leads_three : ℕ → Bool
leads_three = within 0xe0 0xef

partial_of_one : (b : ℕ) → leads_three b ≡ true → full_rune (b ∷ []) ≡ false
unfolding full_rune
partial_of_one b h = ground arith

full_of_two : (b : ℕ) → leads_three b ≡ true → full_rune (b ∷ 0x1b ∷ []) ≡ true
unfolding full_rune
full_of_two b h = ground arith

decode_of_two : (b : ℕ) → leads_three b ≡ true → decode_rune (b ∷ 0x1b ∷ []) ≡ (rune_error, 1)
unfolding decode_rune
decode_of_two b h = ground arith

module _ (is_mark : ℕ → Bool) where
  pub p-print : (r : ℕ) (t : Terminal) → (print is_mark r t).p ≡ t.p
  unfolding print on_active
  p-print r t = ground arith

  -- In the ground state a rune leaves the parser as it is.
  p-feed_rune : (r : ℕ) (t : Terminal) → t.p.state ≡ in_ground → (feed_rune is_mark r t).p ≡ t.p
  unfolding feed_rune feed_rune_in
  p-feed_rune r t e = ap (λ s. (feed_rune_in is_mark s r t).p) e ∙ p-print r t

  whole_stream :
      (b : ℕ) (t : Terminal)
      → leads_three b ≡ true
      → t.p.state ≡ in_ground
      → t.p.partial ≡ []
      → (write is_mark (b ∷ 0x1b ∷ []) t).p.state ≡ escape
  unfolding write write_loop decode_rune full_rune feed_byte feed_control run_control
  whole_stream b t h e k = ground arith

  cut_second :
      (b : ℕ) (t : Terminal)
      → leads_three b ≡ true
      → t.p.state ≡ in_ground
      → (write is_mark (0x1b ∷ []) (with_partial (b ∷ []) t)).p.state ≡ in_ground
  unfolding write fill_partial feed_rest write_loop decode_rune
  cut_second b t h e =
      let fresh = with_partial [] (with_partial (b ∷ []) t) in
      let error = feed_rune is_mark rune_error fresh in
      let one = p-feed_rune rune_error fresh e in
      let two = p-feed_rune 0x1b error (ap (λ (p : Parser). p.state) one ∙ e) in
      simp (full_of_two b h, decode_of_two b h) (ap (λ (p : Parser). p.state) (two ∙ one) ∙ e)

  -- In the ground state with no incomplete rune behind, let a lead byte of a rune of three bytes be
  -- followed by an ESC. In one piece the lead byte is dropped and the ESC begins
  -- an escape sequence. Cut between them, the ESC is fed as a rune and the parser stays in the ground
  -- state.
  pub write_cut-loses-escape :
      (b : ℕ) (t : Terminal)
      → leads_three b ≡ true
      → t.p.state ≡ in_ground
      → t.p.partial ≡ []
      → ((write is_mark (b ∷ 0x1b ∷ []) t).p.state ≡ escape)
        × ((write is_mark (0x1b ∷ []) (write is_mark (b ∷ []) t)).p.state ≡ in_ground)
  write_cut-loses-escape b t h e k =
      let high : as_byte b t ≡ false =
        ap (λ s. ltb b 0x80 || not (takes_runes s)) e ∙ ground arith in
      let first =
        write-eq-loop is_mark (b ∷ []) t k ∙ step_cut is_mark 0 b [] t high (partial_of_one b h) in
      (
        whole_stream b t h e k,
        ap (λ u. (write is_mark (0x1b ∷ []) u).p.state) first ∙ cut_second b t h e,
      )
