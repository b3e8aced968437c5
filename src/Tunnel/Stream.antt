-- ===== src/Tunnel/Stream.antt =====
-- cmd/termulaa/wsconn.go: a WebSocket read and written as a stream of bytes. The messages that arrive
-- before the connection fails are given; a read or a write that fails gives `none`.
use termulaa.Prelude.{
  ℕ, zero, suc, ◌<◌, Bool, List, [], ◌∷◌, ◌++◌, Option, none, some, ◌≡◌, ◌≢◌, refl, sym, ap, ◌∙◌,
  arith, length, take, drop, take-append-drop, append_assoc, if◌then◌else◌, Option-cases, inl, inr,
}
use termulaa.Outbox.{Bytes}

-- `rbuf`, what arrives, what has been written, and how often the socket was closed.
pub record WsConn : Type 0 where
  pub buffer : Bytes
  pub incoming : List Bytes
  pub outgoing : List Bytes
  pub closed : ℕ

-- The loop of `Read`: messages are taken until one holds bytes.
unfoldable pub refill : Bytes → List Bytes → Option (Bytes × List Bytes)
refill (b ∷ bs) ms = some (b ∷ bs, ms)
refill [] [] = none
refill [] (m ∷ ms) = refill m ms

-- `Read` into a slice of `n` bytes.
unfoldable pub read : ℕ → WsConn → Option Bytes × WsConn
unfolding refill
read n c = elim (refill c.buffer c.incoming) [
  | none ↦ (none, record c { buffer = []; incoming = [] })
  | some (bs, ms) ↦ (some (take n bs), record c { buffer = drop n bs; incoming = ms })
]

-- `Write`, which is one message; `works` is whether the socket takes it.
unfoldable pub write : Bool → Bytes → WsConn → Option ℕ × WsConn
write works bs c =
    if works then (some (length bs), record c { outgoing = c.outgoing ++ bs ∷ [] }) else (none, c)

-- `Close`: the first call alone closes.
unfoldable pub close : WsConn → WsConn
close c = record c { closed = elim c.closed [ zero ↦ 1 | suc k ↦ suc k ] }

unfoldable pub join_all : List Bytes → Bytes
join_all [] = []
join_all (m ∷ ms) = m ++ join_all ms

-- The bytes of the stream that have not been read.
abbrev pub unread : WsConn → Bytes
unread c = c.buffer ++ join_all c.incoming

abbrev taken : Option Bytes → Bytes
taken none = []
taken (some bs) = bs

-- What reads into slices of these lengths return, one behind the other, and the connection then.
unfoldable pub read_each : List ℕ → WsConn → Bytes × WsConn
unfolding read
read_each [] c = ([], c)
read_each (n ∷ ns) c =
    let (out, c') = read n c in let (more, c'') = read_each ns c' in (taken out ++ more, c'')

abbrev refilled : Option (Bytes × List Bytes) → Bytes
refilled none = []
refilled (some (bs, ms)) = bs ++ join_all ms

refill-stream : (bs : Bytes) (ms : List Bytes) → refilled (refill bs ms) ≡ bs ++ join_all ms
unfolding refill join_all
refill-stream (b ∷ bs) ms = refl
refill-stream [] [] = refl
refill-stream [] (m ∷ ms) = refill-stream m ms

read-stream : (n : ℕ) (c : WsConn) → taken (read n c).0 ++ unread (read n c).1 ≡ unread c
unfolding read join_all
read-stream n c = elim (Option-cases (refill c.buffer c.incoming)) [
  | inl failed ↦ rw (failed, read) (ap refilled (sym failed) ∙ refill-stream c.buffer c.incoming)
  | inr ((bs, ms), got) ↦
      rw (got, read)
        (sym (append_assoc (take n bs) (drop n bs) (join_all ms))
          ∙ ap (λ xs. xs ++ join_all ms) (take-append-drop n bs)
          ∙ ap refilled (sym got)
          ∙ refill-stream c.buffer c.incoming)
]

-- Reads into slices of any lengths return the bytes of the messages in their order, without a gap and
-- none twice: what they return, followed by what is still unread, is what was unread before.
pub read_each-stream :
    (ns : List ℕ) (c : WsConn) → (read_each ns c).0 ++ unread (read_each ns c).1 ≡ unread c
unfolding read_each
read_each-stream [] c = refl
read_each-stream (n ∷ ns) c =
    append_assoc (taken (read n c).0) (read_each ns (read n c).1).0 _
    ∙ ap (λ bs. taken (read n c).0 ++ bs) (read_each-stream ns (read n c).1)
    ∙ read-stream n c

refill-cons :
    (bs : Bytes) (ms : List Bytes)
    → bs ++ join_all ms ≢ []
    → (b : ℕ) × (cs : Bytes) × (ns : List Bytes) × (refill bs ms ≡ some (b ∷ cs, ns))
unfolding refill join_all
refill-cons (b ∷ bs) ms more = (b, bs, ms, refl)
refill-cons [] [] more = absurd (more refl)
refill-cons [] (m ∷ ms) more = refill-cons m ms more

-- As long as a byte of the stream is unread, a read into a slice that is not empty returns one or more
-- bytes: neither an empty message nor an error comes before them.
pub read-progress :
    (n : ℕ) (c : WsConn)
    → 0 < n
    → unread c ≢ []
    → (b : ℕ) × (bs : Bytes) × ((read n c).0 ≡ some (b ∷ bs))
unfolding read
read-progress zero c pos more = absurd (omega arith)
read-progress (suc n) c pos more =
    let (b, bs, ms, got) = refill-cons c.buffer c.incoming more in
    (b, take n bs, rw (got, read) refl)
