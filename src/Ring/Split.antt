-- ===== src/Ring/Split.antt =====
-- `Write` on a ring cut at its write position, in its four cases.
use termulaa.Prelude.{
  ℕ, ◌+◌, ◌-◌, ◌≤◌, ◌<◌, Bool, true, false, [], ◌++◌, ◌≡◌, refl, sym, ap, ◌∙◌, arith, length, take,
  drop, copy_at, append-nil, append_assoc, length-append, length-take, length-drop, take_append,
  drop_append, drop_all, drop-append_ge, drop-append_le, copy_at_front, copy_at_append,
  if◌then◌else◌,
}
use native.Mathlib.Nat.{mod-eq_of_lt, mod-eq-sub-mod}
use termulaa.Ring.{Bytes, RingBuffer, write, read_all}

-- The last `cap` bytes.
abbrev pub last : ℕ → Bytes → Bytes
last cap xs = drop (length xs - cap) xs

-- A ring whose buffer is `a` before the write position and `b` from it on.
abbrev pub ring : Bytes → Bytes → Bool → RingBuffer
ring a b full = record { buf = a ++ b; pos = length a; full = full }

-- What the ring holds.
abbrev pub held : Bytes → Bytes → Bool → Bytes
held a b full = if full then b ++ a else a

pub read_all-ring : (a b : Bytes) (full : Bool) → read_all (ring a b full) ≡ held a b full
unfolding read_all
read_all-ring a b true = rw (drop_append a b (length a) refl, take_append a b (length a) refl)
read_all-ring a b false = take_append a b (length a) refl

-- The last bytes of two runs: the first run loses its head, and then goes wholly.
pub last-append_le :
    (cap n : ℕ) (xs ys : Bytes)
    → length xs + length ys ≡ cap + n
    → n ≤ length xs
    → last cap (xs ++ ys) ≡ drop n xs ++ ys
last-append_le cap n xs ys e h =
    ap (λ k. drop k (xs ++ ys)) (omega (arith, length-append xs ys)) ∙ drop-append_le xs ys n h

pub last-append_ge :
    (cap n : ℕ) (xs ys : Bytes)
    → length xs + length ys - cap ≡ length xs + n
    → last cap (xs ++ ys) ≡ drop n ys
last-append_ge cap n xs ys e =
    drop-append_ge xs ys (length (xs ++ ys) - cap) (omega (arith, length-append xs ys))
    ∙ ap (λ k. drop k ys) (omega (arith, length-append xs ys))

pub last_short : (cap : ℕ) (xs : Bytes) → length xs ≤ cap → last cap xs ≡ xs
last_short cap xs h = let e : length xs - cap ≡ 0 = omega arith in rw e

module _ (a b p : Bytes) (full : Bool) where
  copied_over :
      length (a ++ b) ≤ length p
      → copy_at (a ++ b) 0 (last (length (a ++ b)) p) ≡ last (length (a ++ b)) p
  copied_over h =
      let cap = length (a ++ b) in
      let kept = last cap p in
      let same = length-drop (length p - cap) p in
      copy_at_front (a ++ b) kept (omega (arith, same))
      ∙ ap (λ xs. kept ++ xs) (drop_all (length kept) (a ++ b) (omega (arith, same)))
      ∙ append-nil kept

  -- More bytes than the buffer holds.
  pub write-ring_over :
      length (a ++ b) ≤ length p → write p (ring a b full) ≡ ring [] (last (length (a ++ b)) p) true
  unfolding write
  write-ring_over h = ground (arith, copied_over h)

  copied_within :
      length p ≤ length b → copy_at (a ++ b) (length a) p ≡ (a ++ p) ++ drop (length p) b
  copied_within h =
      copy_at_append a b p (length a) refl
      ∙ ap (λ xs. a ++ xs) (copy_at_front b p h)
      ∙ sym (append_assoc a p (drop (length p) b))

  -- The bytes end before the end of the buffer,
  pub write-ring_within :
      length p < length b → write p (ring a b full) ≡ ring (a ++ p) (drop (length p) b) full
  unfolding write
  write-ring_within h =
      let total = length-append a b in
      ground (
        arith,
        total,
        length-append a p,
        copied_within (omega arith),
        mod-eq_of_lt {n = length a + length p} {m = length (a ++ b)} (omega (arith, total)),
      )

  -- or with it,
  pub write-ring_to_end :
      length p ≡ length b → 0 < length a → write p (ring a b full) ≡ ring [] (a ++ p) full
  unfolding write
  write-ring_to_end h pos =
      let total = length-append a b in
      let cap = length (a ++ b) in
      let clean =
        ap (λ xs. (a ++ p) ++ xs) (drop_all (length p) b (omega arith)) ∙ append-nil (a ++ p) in
      ground (
        arith,
        total,
        copied_within (omega arith),
        clean,
        mod-eq-sub-mod {n = length a + length p} {m = cap} (omega (arith, total)),
        mod-eq_of_lt {n = 0} {m = cap} (omega (arith, total)),
      )

  copied_round :
      length b < length p
      → length p < length (a ++ b)
      → copy_at (copy_at (a ++ b) (length a) (take (length b) p)) 0 (drop (length b) p)
        ≡ drop (length b) p ++ (drop (length p - length b) a ++ take (length b) p)
  copied_round h k =
      let s = length b in
      let total = length-append a b in
      let taken = length-take s p in
      let dropped = length-drop s p in
      let inner =
        copy_at_append a b (take s p) (length a) refl
        ∙ ap (λ xs. a ++ xs)
            (copy_at_front b (take s p) (omega (arith, taken))
              ∙ ap (λ xs. take s p ++ xs) (drop_all (length (take s p)) b (omega (arith, taken)))
              ∙ append-nil (take s p)) in
      ap (λ xs. copy_at xs 0 (drop s p)) inner
      ∙ copy_at_front (a ++ take s p) (drop s p)
          (omega (arith, length-append a (take s p), taken, dropped, total))
      ∙ ap (λ m. drop s p ++ drop m (a ++ take s p)) dropped
      ∙ ap (λ xs. drop s p ++ xs)
          (drop-append_le a (take s p) (length p - s) (omega (arith, total)))

  -- or go on at its front.
  pub write-ring_round :
      length b < length p
      → length p < length (a ++ b)
      → write p (ring a b full)
        ≡ ring (drop (length b) p) (drop (length p - length b) a ++ take (length b) p) true
  unfolding write
  write-ring_round h k =
      let total = length-append a b in
      let cap = length (a ++ b) in
      let space : cap - length a ≡ length b = omega (arith, total) in
      ground (
        arith,
        total,
        space,
        copied_round h k,
        length-drop (length b) p,
        mod-eq-sub-mod {n = length a + length p} {m = cap} (omega (arith, total)),
        mod-eq_of_lt {n = length a + length p - cap} {m = cap} (omega (arith, total)),
      )
