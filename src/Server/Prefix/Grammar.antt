-- ===== src/Server/Prefix/Grammar.antt =====
-- The prefixes that `sanitizePrefix` keeps, as a grammar.
use termulaa.Prelude.{
  ℕ, zero, suc, Bool, true, false, not, ◌&&◌, List, [], ◌∷◌, ◌++◌, ◌≡◌, ◌≢◌, refl, sym, ap, ◌∙◌,
  arith, ◌==◌, length, replicate, All, nil, cons, Bool-cases, inl, inr, append-nil,
}
use mathlib.Core.Path.{subst}
use termulaa.Vterm.Cell.{is_empty}
use termulaa.Server.{Bytes, all_bytes}
use termulaa.Server.Prefix.{into_first, split_slash, is_prefix_byte, is_segment, all_segments}

-- Letters, digits and `._~-`, and not only dots.
pub record IsSegment (s : Bytes) : Type 0 where
  pub allowed : All (λ b. is_prefix_byte b ≡ true) s
  pub not_dots : (n : ℕ) → s ≢ replicate n b'.'

-- Segments, each behind a slash.
pub data IsPath : Bytes → Type 0 where
  last : {s : Bytes} → IsSegment s → IsPath (b'/' ∷ s)
  more : {s p : Bytes} → IsSegment s → IsPath p → IsPath (b'/' ∷ (s ++ p))

and_true : (a b : Bool) → (a && b) ≡ true → (a ≡ true) × (b ≡ true)
and_true true b h = (refl, h)
and_true false b h = cc

negated : (a : Bool) → not a ≡ true → a ≡ false
negated true h = sym h
negated false h = refl

all_bytes-All : (ok : ℕ → Bool) (s : Bytes) → all_bytes ok s ≡ true → All (λ b. ok b ≡ true) s
all_bytes-All ok [] h = nil
all_bytes-All ok (b ∷ bs) h =
    let (here, rest) = and_true (ok b) (all_bytes ok bs) h in cons here (all_bytes-All ok bs rest)

All-all_bytes : {ok : ℕ → Bool} {s : Bytes} → All (λ b. ok b ≡ true) s → all_bytes ok s ≡ true
All-all_bytes nil = refl
All-all_bytes (cons h hs) = rw (h, All-all_bytes hs)

all_dots-replicate :
    (s : Bytes) → all_bytes (λ b. b == b'.') s ≡ true → s ≡ replicate (length s) b'.'
all_dots-replicate [] h = refl
all_dots-replicate (b ∷ bs) h = ground (arith, all_dots-replicate bs)

replicate-all_dots : (n : ℕ) → all_bytes (λ b. b == b'.') (replicate n b'.') ≡ true
replicate-all_dots zero = refl
replicate-all_dots (suc n) = replicate-all_dots n

is_segment-IsSegment : (s : Bytes) → is_segment s ≡ true → IsSegment s
is_segment-IsSegment s h =
    let dots = all_bytes (λ b. b == b'.') s in
    let (front, some_other) =
      and_true (not (is_empty s) && all_bytes is_prefix_byte s) (not dots) h in
    let (filled, allowed) = and_true (not (is_empty s)) (all_bytes is_prefix_byte s) front in
    record {
      allowed = all_bytes-All is_prefix_byte s allowed;
      not_dots = λ n e.
          let only : dots ≡ true = ap (all_bytes (λ b. b == b'.')) e ∙ replicate-all_dots n in
          ground (arith, only, negated dots some_other);
    }

pub IsSegment-is_segment : {s : Bytes} → IsSegment s → is_segment s ≡ true
IsSegment-is_segment {s} g = elim (Bool-cases (all_bytes (λ b. b == b'.') s)) [
  | inl dots ↦ absurd (g.not_dots (length s) (all_dots-replicate s dots))
  | inr other ↦ rw (other, All-all_bytes g.allowed, filled s (g.not_dots 0))
]
  where
    filled : (t : Bytes) → t ≢ [] → is_empty t ≡ false
    filled [] ne = absurd (ne refl)
    filled (b ∷ bs) ne = refl

-- The segments, each behind a slash.
abbrev pub path_of : List Bytes → Bytes
path_of [] = []
path_of (s ∷ ss) = b'/' ∷ (s ++ path_of ss)

path_of-into_first :
    (b c : ℕ) (bs : Bytes) (ss : List Bytes)
    → path_of ss ≡ c ∷ bs
    → path_of (into_first b ss) ≡ c ∷ b ∷ bs
path_of-into_first b c bs [] h = cc
path_of-into_first b c bs (s ∷ ss) h = cc

pub path_of-split_slash : (bs : Bytes) → path_of (split_slash bs) ≡ b'/' ∷ bs
unfolding split_slash
path_of-split_slash [] = refl
path_of-split_slash (b ∷ bs) = elim (Bool-cases (b == b'/')) [
  | inl slash ↦ ground (arith, slash, path_of-split_slash bs)
  | inr other ↦ rw other (path_of-into_first b b'/' bs (split_slash bs) (path_of-split_slash bs))
]

pub path_of-IsPath :
    (s : Bytes) (ss : List Bytes) → all_segments (s ∷ ss) ≡ true → IsPath (path_of (s ∷ ss))
path_of-IsPath s [] h =
    let (here, rest) = and_true (is_segment s) true h in
    subst IsPath (ap (◌∷◌ b'/') (sym (append-nil s))) (last (is_segment-IsSegment s here))
path_of-IsPath s (t ∷ ss) h =
    let (here, rest) = and_true (is_segment s) (all_segments (t ∷ ss)) h in
    more (is_segment-IsSegment s here) (path_of-IsPath t ss rest)

pub split_slash-cons : (bs : Bytes) → (s : Bytes) × (ss : List Bytes) × (split_slash bs ≡ s ∷ ss)
unfolding split_slash
split_slash-cons [] = ([], [], refl)
split_slash-cons (b ∷ bs) = elim (Bool-cases (b == b'/')) [
  | inl slash ↦ rw slash ([], split_slash bs, refl)
  | inr other ↦ let (s, ss, e) = split_slash-cons bs in (b ∷ s, ss, rw (other, e) refl)
]

-- Bytes of a segment hold no slash.
pub split_slash-segment :
    (s bs : Bytes)
    → All (λ b. is_prefix_byte b ≡ true) s
    → split_slash (s ++ b'/' ∷ bs) ≡ s ∷ split_slash bs
unfolding split_slash
split_slash-segment [] bs nil = refl
split_slash-segment (b ∷ s) bs (cons h hs) =
    let other : (b == b'/') ≡ false = ground (arith, h) in rw (other, split_slash-segment s bs hs)

pub split_slash-last : (s : Bytes) → All (λ b. is_prefix_byte b ≡ true) s → split_slash s ≡ s ∷ []
unfolding split_slash
split_slash-last [] nil = refl
split_slash-last (b ∷ s) (cons h hs) =
    let other : (b == b'/') ≡ false = ground (arith, h) in rw (other, split_slash-last s hs)
