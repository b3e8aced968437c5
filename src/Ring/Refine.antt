-- ===== src/Ring/Refine.antt =====
-- The ring holds the last bytes written, as many as it has room for.
use termulaa.Prelude.{
  ℕ, ◌+◌, ◌-◌, ◌≤◌, ◌<◌, Bool, true, false, [], ◌++◌, min, ◌≡◌, ◌≢◌, ◌⊎◌, refl, sym, ap, ◌∙◌, arith,
  length, take, drop, append-nil, append_assoc, length-append, length-take, length-drop,
  length-copy_at, take-append-drop, drop_all, copy_at, take_append, drop_append, drop-append_ge,
  drop-append_le, copy_at_front,
}
use native.Mathlib.Nat.{mod-lt}
use native.Mathlib.Decide.{dec_lt, dec_le}
use termulaa.Ring.{Bytes, RingBuffer, write, read_all, load, len}
use termulaa.Ring.Split.{
  last, ring, held, read_all-ring, last-append_le, last-append_ge, last_short, write-ring_over,
  write-ring_within, write-ring_to_end, write-ring_round,
}

-- The write position is inside the buffer.
pub record InBuffer (r : RingBuffer) : Type 0 where
  pub pos_in : r.pos < length r.buf

-- The first lap ends exactly at the end of the buffer.
abbrev pub FillsExactly : Bytes → RingBuffer → Type 0
FillsExactly p r = (r.full ≡ false) × (r.pos + length p ≡ length r.buf) × (0 < r.pos)

module _ (a b p : Bytes) where
  over :
      (full : Bool)
      → length (a ++ b) ≤ length p
      → read_all (write p (ring a b full)) ≡ last (length (a ++ b)) (held a b full ++ p)
  over full h =
      ap read_all (write-ring_over a b p full h)
      ∙ read_all-ring [] (last (length (a ++ b)) p) true
      ∙ append-nil (last (length (a ++ b)) p)
      ∙ sym (
          last-append_ge (length (a ++ b)) (length p - length (a ++ b)) (held a b full) p
            (omega arith))

  -- What a full ring must hold after `p`.
  last_full :
      (n : ℕ)
      → n ≡ length p
      → n ≤ length (a ++ b)
      → last (length (a ++ b)) ((b ++ a) ++ p) ≡ drop n (b ++ a) ++ p
  last_full n e h =
      last-append_le (length (a ++ b)) n (b ++ a) p
        (omega (arith, length-append a b, length-append b a))
        (omega (arith, length-append a b, length-append b a))

  rejoin :
      (drop (length p - length b) a ++ take (length b) p) ++ drop (length b) p
      ≡ drop (length p - length b) a ++ p
  rejoin =
      append_assoc (drop (length p - length b) a) (take (length b) p) (drop (length b) p)
      ∙ ap (λ xs. drop (length p - length b) a ++ xs) (take-append-drop (length b) p)

  within_full :
      length p < length b
      → read_all (write p (ring a b true)) ≡ last (length (a ++ b)) ((b ++ a) ++ p)
  within_full h =
      ap read_all (write-ring_within a b p true h)
      ∙ read_all-ring (a ++ p) (drop (length p) b) true
      ∙ sym (append_assoc (drop (length p) b) a p)
      ∙ ap (λ xs. xs ++ p) (sym (drop-append_le b a (length p) (omega arith)))
      ∙ sym (last_full (length p) refl (omega (arith, length-append a b)))

  within_first :
      length p < length b → read_all (write p (ring a b false)) ≡ last (length (a ++ b)) (a ++ p)
  within_first h =
      ap read_all (write-ring_within a b p false h)
      ∙ read_all-ring (a ++ p) (drop (length p) b) false
      ∙ sym (
          last_short (length (a ++ b)) (a ++ p)
            (omega (arith, length-append a b, length-append a p)))

  to_end_full :
      length p ≡ length b
      → 0 < length a
      → read_all (write p (ring a b true)) ≡ last (length (a ++ b)) ((b ++ a) ++ p)
  to_end_full h pos =
      ap read_all (write-ring_to_end a b p true h pos)
      ∙ read_all-ring [] (a ++ p) true
      ∙ append-nil (a ++ p)
      ∙ ap (λ xs. xs ++ p) (sym (drop_append b a (length p) h))
      ∙ sym (last_full (length p) refl (omega (arith, length-append a b)))

  round_full :
      length b < length p
      → length p < length (a ++ b)
      → read_all (write p (ring a b true)) ≡ last (length (a ++ b)) ((b ++ a) ++ p)
  round_full h k =
      ap read_all (write-ring_round a b p true h k)
      ∙ read_all-ring (drop (length b) p) (drop (length p - length b) a ++ take (length b) p) true
      ∙ rejoin
      ∙ ap (λ xs. xs ++ p) (sym (drop-append_ge b a (length p) (omega arith)))
      ∙ sym (last_full (length p) refl (omega (arith, length-append a b)))

  round_first :
      length b < length p
      → length p < length (a ++ b)
      → read_all (write p (ring a b false)) ≡ last (length (a ++ b)) (a ++ p)
  round_first h k =
      ap read_all (write-ring_round a b p false h k)
      ∙ read_all-ring (drop (length b) p) (drop (length p - length b) a ++ take (length b) p) true
      ∙ rejoin
      ∙ sym (
          last-append_le (length (a ++ b)) (length p - length b) a p
            (omega (arith, length-append a b)) (omega (arith, length-append a b)))

  -- All cases at once.
  split_refines :
      (full : Bool)
      → 0 < length b
      → (full ≡ true) ⊎ (length p ≢ length b) ⊎ (length a ≡ 0)
      → read_all (write p (ring a b full)) ≡ last (length (a ++ b)) (held a b full ++ p)
  split_refines full pos ok = elim (dec_lt (length p) (length (a ++ b))) [
    | no h ↦ over full (omega arith)
    | yes h ↦ fits full ok h
  ]
    where
      total : length (a ++ b) ≡ length a + length b
      total = length-append a b

      by_space_full :
          length p < length (a ++ b)
          → read_all (write p (ring a b true)) ≡ last (length (a ++ b)) ((b ++ a) ++ p)
      by_space_full h = elim (dec_lt (length p) (length b)) [
        | yes k ↦ within_full k
        | no k ↦ elim (dec_lt (length b) (length p)) [
          | yes l ↦ round_full l h
          | no l ↦ to_end_full (omega arith) (omega (arith, total))
        ]
      ]

      fits :
          (full : Bool)
          → (full ≡ true) ⊎ (length p ≢ length b) ⊎ (length a ≡ 0)
          → length p < length (a ++ b)
          → read_all (write p (ring a b full)) ≡ last (length (a ++ b)) (held a b full ++ p)
      fits true ok h = by_space_full h
      fits false ok h = elim (dec_lt (length p) (length b)) [
        | yes k ↦ within_first k
        | no k ↦ elim (dec_lt (length b) (length p)) [
          | yes l ↦ round_first l h
          | no l ↦ absurd (ground (arith, total, ok))
        ]
      ]

ring-of :
    (r : RingBuffer) → r.pos ≤ length r.buf → r ≡ ring (take r.pos r.buf) (drop r.pos r.buf) r.full
ring-of r h = ground (arith, take-append-drop r.pos r.buf, length-take r.pos r.buf)

held-eq-read_all : (r : RingBuffer) → held (take r.pos r.buf) (drop r.pos r.buf) r.full ≡ read_all r
unfolding read_all
held-eq-read_all r = ground arith

-- With the write position inside the buffer, after a write the ring holds the last bytes of what it held followed by what was written, as
-- many as the buffer has room for, unless the write ends the first lap exactly at the end of the
-- buffer.
pub read_all-write :
    (p : Bytes) {r : RingBuffer}
    → InBuffer r
    → ¬ FillsExactly p r
    → read_all (write p r) ≡ last (length r.buf) (read_all r ++ p)
read_all-write p {r} v ok =
    let a = take r.pos r.buf in
    let b = drop r.pos r.buf in
    let whole = take-append-drop r.pos r.buf in
    let at_cut = length-take r.pos r.buf in
    let behind = length-drop r.pos r.buf in
    ap (λ q. read_all (write p q)) (ring-of r (omega arith))
    ∙ split_refines a b p r.full (omega (arith, behind)) (exact at_cut behind)
    ∙ ap (λ xs. last (length xs) (held a b r.full ++ p)) whole
    ∙ ap (λ xs. last (length r.buf) (xs ++ p)) (held-eq-read_all r)
  where
    exact :
        length (take r.pos r.buf) ≡ min r.pos (length r.buf)
        → length (drop r.pos r.buf) ≡ length r.buf - r.pos
        → (r.full ≡ true) ⊎ (length p ≢ length (drop r.pos r.buf)) ⊎ (length (take r.pos r.buf) ≡ 0)
    exact e f = ground (arith, ok)

-- With the write position inside the buffer and not at its start, a write that ends the first lap
-- exactly at the end of the buffer leaves a ring that reads as empty, although its buffer holds every byte written.
pub read_all-write_exact :
    (p : Bytes) {r : RingBuffer}
    → InBuffer r
    → FillsExactly p r
    → (read_all (write p r) ≡ []) × ((write p r).buf ≡ read_all r ++ p)
read_all-write_exact p {r} v (first, ends, some_held) =
    let a = take r.pos r.buf in
    let b = drop r.pos r.buf in
    let cut = ring-of r (omega arith) in
    let at_cut = length-take r.pos r.buf in
    let behind = length-drop r.pos r.buf in
    let state =
      ap (write p) cut
      ∙ write-ring_to_end a b p r.full (omega (arith, behind)) (omega (arith, at_cut))
      ∙ ap (ring [] (a ++ p)) first in
    (
      ap read_all state ∙ read_all-ring [] (a ++ p) false,
      ap (λ (q : RingBuffer). q.buf) state
          ∙ ap (λ xs. xs ++ p)
              (sym (ap read_all (cut ∙ ap (ring a b) first) ∙ read_all-ring a b false)),
    )

-- `Write` keeps the write position inside the buffer, if it is there, and the buffer's size.
pub write-InBuffer :
    (p : Bytes) {r : RingBuffer}
    → InBuffer r
    → InBuffer (write p r) × (length (write p r).buf ≡ length r.buf)
unfolding write
write-InBuffer p {r} v = grind (arith, length-copy_at, mod-lt)

-- With the write position inside the buffer, `Len` is the number of bytes that `ReadAll` gives.
pub len-read_all : {r : RingBuffer} → InBuffer r → len r ≡ length (read_all r)
unfolding len read_all
len-read_all {r} v = ground (
  arith,
  length-take r.pos r.buf,
  length-append (drop r.pos r.buf) (take r.pos r.buf),
  length-drop r.pos r.buf,
)

-- `LoadFrom` replaces the contents by the last bytes of the file, as many as there is room for.
pub read_all-load :
    (file : Bytes) (r : RingBuffer) → read_all (load file r) ≡ last (length r.buf) file
unfolding load read_all
read_all-load file r = elim (dec_le (length r.buf) (length file)) [
  | yes h ↦
      let kept = last (length r.buf) file in
      let same = length-drop (length file - length r.buf) file in
      ground (
        arith,
        append-nil kept,
        copy_at_front r.buf kept (omega (arith, same)),
        drop_all (length kept) r.buf (omega (arith, same)),
        append-nil (copy_at r.buf 0 kept),
      )
  | no h ↦ ground (
    arith,
    copy_at_front r.buf file (omega arith),
    take_append file (drop (length file) r.buf) (length file) refl,
    last_short (length r.buf) file (omega arith),
  )
]
