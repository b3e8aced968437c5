-- ===== src/Outbox/Laws.antt =====
-- No byte is lost, reordered or counted twice, and no frame grows beyond its bound.
use termulaa.Prelude.{
  ℕ, ◌+◌, ◌≤◌, Bool, true, false, List, [], ◌∷◌, ◌++◌, ◌≡◌, ◌⊎◌, inl, inr, refl, sym, ap, ◌∙◌,
  arith, length, length-append, append-nil, append_assoc, if◌then◌else◌, Bool-cases, max, All, nil,
  cons, leb, not, ◌&&◌,
}
use termulaa.Outbox.{
  Bytes, OutFrame, Client, coalesce, queue_binary, queue_text, max_client_backlog,
  max_coalesced_frame,
}

-- One byte of what a client is sent: of a terminal's output, or of a message.
pub record Sent : Type 0 where
  pub in_text : Bool
  pub byte : ℕ

abbrev pub tagged : Bool → Bytes → List Sent
tagged k [] = []
tagged k (b ∷ bs) = record { in_text = k; byte = b } ∷ tagged k bs

-- The stream that the frames carry.
abbrev pub stream : List OutFrame → List Sent
stream [] = []
stream (f ∷ fs) = tagged f.text f.bytes ++ stream fs

pub tagged-append : (k : Bool) (xs ys : Bytes) → tagged k (xs ++ ys) ≡ tagged k xs ++ tagged k ys
tagged-append k [] ys = refl
tagged-append k (x ∷ xs) ys = ap (◌∷◌ (record { in_text = k; byte = x })) (tagged-append k xs ys)

length-tagged : (k : Bool) (bs : Bytes) → length (tagged k bs) ≡ length bs
length-tagged k [] = refl
length-tagged k (b ∷ bs) = omega (arith, length-tagged k bs)

pub stream-append : (fs gs : List OutFrame) → stream (fs ++ gs) ≡ stream fs ++ stream gs
stream-append [] gs = refl
stream-append (f ∷ fs) gs =
    ap (λ xs. tagged f.text f.bytes ++ xs) (stream-append fs gs)
    ∙ sym (append_assoc (tagged f.text f.bytes) (stream fs) (stream gs))

stream-coalesce :
    (fs : List OutFrame) (bs : Bytes) → stream (coalesce fs bs) ≡ stream fs ++ tagged false bs
unfolding coalesce
stream-coalesce [] bs = append-nil (tagged false bs)
stream-coalesce (f ∷ []) bs = ground (
  arith,
  tagged-append false f.bytes bs,
  append-nil (tagged false (f.bytes ++ bs)),
  append-nil (tagged f.text f.bytes),
  append-nil (tagged false bs),
)
stream-coalesce (f ∷ g ∷ fs) bs =
    ap (λ xs. tagged f.text f.bytes ++ xs) (stream-coalesce (g ∷ fs) bs)
    ∙ sym (append_assoc (tagged f.text f.bytes) (stream (g ∷ fs)) (tagged false bs))

-- Queueing onto a client that has not overflowed adds to the end of the stream.
pub stream-queue_binary :
    (bs : Bytes) (c : Client)
    → c.overflow ≡ false
    → stream (queue_binary bs c).out ≡ stream c.out ++ tagged false bs
unfolding queue_binary
stream-queue_binary bs c h = simp h (stream-coalesce c.out bs)

pub stream-queue_text :
    (msg : Bytes) (c : Client)
    → c.overflow ≡ false
    → stream (queue_text msg c).out ≡ stream c.out ++ tagged true msg
unfolding queue_text
stream-queue_text msg c h = simp h (
    stream-append c.out (record { text = true; bytes = msg } ∷ [])
    ∙ ap (λ xs. stream c.out ++ xs) (append-nil (tagged true msg)))

-- A binary frame of the queue is at most a coalesced frame, or as long as one piece of output.
abbrev pub Bounded : ℕ → OutFrame → Type 0
Bounded longest f = (f.text ≡ true) ⊎ (length f.bytes ≤ max max_coalesced_frame longest)

-- What holds of the queue: the counter counts the bytes of the stream, and the frames are bounded.
pub record Accounted (longest : ℕ) (c : Client) : Type 0 where
  pub counted : c.out_bytes ≡ length (stream c.out)
  pub bounded : All (Bounded longest) c.out

coalesce-Bounded :
    (longest : ℕ) {fs : List OutFrame} (bs : Bytes)
    → length bs ≤ longest
    → All (Bounded longest) fs
    → All (Bounded longest) (coalesce fs bs)
unfolding coalesce
coalesce-Bounded longest bs h nil = cons (inr (omega arith)) nil
coalesce-Bounded longest bs h (cons {x = f} p nil) =
    elim (Bool-cases (not f.text && leb (length f.bytes + length bs) max_coalesced_frame)) [
      | inl fits ↦ rw fits (cons (inr (ground (arith, length-append f.bytes bs))) nil)
      | inr not_fits ↦ rw not_fits (cons p (cons (inr (omega arith)) nil))
    ]
coalesce-Bounded longest bs h (cons p (cons q k)) =
    cons p (coalesce-Bounded longest bs h (cons q k))

-- Queueing output of up to `longest` bytes adds exactly its bytes to the end of the stream, or
-- nothing if the client has overflowed. The counter of the bytes and the bound on the frames are
-- kept.
pub queue_binary_lem :
    (longest : ℕ) (bs : Bytes) {c : Client}
    → length bs ≤ longest
    → Accounted longest c
    → Accounted longest (queue_binary bs c)
      × (stream (queue_binary bs c).out
          ≡ stream c.out ++ (if c.overflow then [] else tagged false bs))
unfolding queue_binary
queue_binary_lem longest bs {c} h v = ground (
  arith,
  stream-coalesce c.out bs,
  length-append (stream c.out) (tagged false bs),
  length-tagged false bs,
  coalesce-Bounded longest bs h v.bounded,
  append-nil (stream c.out),
)

All-snoc :
    (longest : ℕ) {fs : List OutFrame} (f : OutFrame)
    → All (Bounded longest) fs
    → Bounded longest f
    → All (Bounded longest) (fs ++ f ∷ [])
All-snoc longest f nil p = cons p nil
All-snoc longest f (cons q k) p = cons q (All-snoc longest f k p)

-- Queueing a control message adds exactly its bytes, as text, to the end of the stream, or nothing if
-- the client has overflowed. The counter of the bytes and the bound on the frames are kept.
pub queue_text_lem :
    (longest : ℕ) (msg : Bytes) {c : Client}
    → Accounted longest c
    → Accounted longest (queue_text msg c)
      × (stream (queue_text msg c).out
          ≡ stream c.out ++ (if c.overflow then [] else tagged true msg))
unfolding queue_text
queue_text_lem longest msg {c} v =
    let frame : OutFrame = record { text = true; bytes = msg } in
    ground (
      arith,
      stream-append c.out (frame ∷ []),
      append-nil (tagged true msg),
      length-append (stream c.out) (tagged true msg),
      length-tagged true msg,
      All-snoc longest frame v.bounded (inl refl),
      append-nil (stream c.out),
    )

-- A client that has not overflowed after output is queued holds no more bytes than the backlog limit.
pub queue_binary-backlog :
    (longest : ℕ) (bs : Bytes) {c : Client}
    → Accounted longest c
    → (queue_binary bs c).overflow ≡ false
    → length (stream (queue_binary bs c).out) ≤ max_client_backlog
unfolding queue_binary
queue_binary-backlog longest bs {c} v h = ground (
  arith,
  stream-coalesce c.out bs,
  length-append (stream c.out) (tagged false bs),
  length-tagged false bs,
)
