-- ===== src/Ring/Replay.antt =====
-- `cleanReplayStart`: where a dump of a wrapped ring is cut.
use termulaa.Prelude.{
  ℕ, ◌<◌, true, false, [], ◌∷◌, ◌++◌, ◌≡◌, ◌≢◌, inl, inr, refl, sym, ap, ◌∙◌, arith, length, take,
  drop, take-append-drop, ◌==◌, Bool-cases, All, nil, cons,
}
use termulaa.Ring.{Bytes, skip_continuation, index_byte, clean_replay_start, is_continuation}

-- The continuation bytes at the front, and what stands behind them.
record Skipped (bs : Bytes) : Type 0 where
  front : Bytes
  joins : bs ≡ front ++ skip_continuation bs
  continuations : All (λ b. is_continuation b ≡ true) front

skip_continuation-Skipped : (bs : Bytes) → Skipped bs
unfolding skip_continuation
skip_continuation-Skipped [] = record { front = []; joins = refl; continuations = nil }
skip_continuation-Skipped (b ∷ bs) = elim (Bool-cases (is_continuation b)) [
  | inl here ↦
      let s = skip_continuation-Skipped bs in
      record {
        front = b ∷ s.front;
        joins = rw here (ap (◌∷◌ b) s.joins);
        continuations = cons here s.continuations;
      }
  | inr clear ↦ record { front = []; joins = rw clear; continuations = nil }
]

-- Skipping loses no escape.
index_byte-skip_continuation :
    (bs : Bytes)
    → index_byte 0x1b bs < length bs
    → index_byte 0x1b (skip_continuation bs) < length (skip_continuation bs)
unfolding index_byte skip_continuation
index_byte-skip_continuation [] h = h
index_byte-skip_continuation (b ∷ bs) h = ground (arith, index_byte-skip_continuation bs)

-- What stands at the index found is the byte sought, and nothing before it is.
record Found (c : ℕ) (bs : Bytes) : Type 0 where
  tail : Bytes
  here : drop (index_byte c bs) bs ≡ c ∷ tail
  none_before : All (λ b. b ≢ c) (take (index_byte c bs) bs)

index_byte-Found : (c : ℕ) (bs : Bytes) → index_byte c bs < length bs → Found c bs
unfolding index_byte
index_byte-Found c [] h = absurd (omega arith)
index_byte-Found c (b ∷ bs) h = elim (Bool-cases (b == c)) [
  | inl same ↦ record { tail = bs; here = ground arith; none_before = rw same nil }
  | inr other ↦
      let less : index_byte c bs < length bs = ground arith in
      let f = index_byte-Found c bs less in
      let differs : b ≢ c = ground arith in
      record {
        tail = f.tail;
        here = rw other f.here;
        none_before = rw other (cons differs f.none_before);
      }
]

-- A cut in front of an escape: `result` begins with ESC, and what it leaves out of `bytes` is some
-- continuation bytes followed by bytes that are no ESC.
pub record StartsAtEscape (bytes result : Bytes) : Type 0 where
  pub continuations : Bytes
  pub before : Bytes
  pub tail : Bytes
  pub result_is : result ≡ 0x1b ∷ tail
  pub joins : bytes ≡ continuations ++ (before ++ result)
  pub are_continuations : All (λ b. is_continuation b ≡ true) continuations
  pub no_escape : All (λ b. b ≢ 0x1b) before

cut_at_escape :
    (bytes : Bytes)
    → index_byte 0x1b bytes < length bytes
    → index_byte 0x1b (skip_continuation bytes) < length (skip_continuation bytes)
    → clean_replay_start bytes true
      ≡ drop (index_byte 0x1b (skip_continuation bytes)) (skip_continuation bytes)
unfolding clean_replay_start
cut_at_escape bytes h k = ground arith

-- A dump of a wrapped ring that holds an ESC is cut in front of the first one behind the
-- continuation bytes at its head, and loses nothing else.
pub clean_replay_start-StartsAtEscape :
    (bytes : Bytes)
    → index_byte 0x1b bytes < length bytes
    → StartsAtEscape bytes (clean_replay_start bytes true)
clean_replay_start-StartsAtEscape bytes h =
    let rest = skip_continuation bytes in
    let s = skip_continuation-Skipped bytes in
    let inside = index_byte-skip_continuation bytes h in
    let f = index_byte-Found 0x1b rest inside in
    let result = cut_at_escape bytes h inside in
    record {
      continuations = s.front;
      before = take (index_byte 0x1b rest) rest;
      tail = f.tail;
      result_is = result ∙ f.here;
      joins =
          s.joins
          ∙ ap (λ xs. s.front ++ xs)
              (sym (take-append-drop (index_byte 0x1b rest) rest)
                ∙ ap (λ xs. take (index_byte 0x1b rest) rest ++ xs) (sym result));
      are_continuations = s.continuations;
      no_escape = f.none_before;
    }

-- A dump of a ring that has not wrapped is replayed whole.
pub clean_replay_start_whole : (bytes : Bytes) → clean_replay_start bytes false ≡ bytes
unfolding clean_replay_start
clean_replay_start_whole bytes = refl
