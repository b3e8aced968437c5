-- ===== src/Server/Prefix/Sanitize.antt =====
-- The prefixes that `sanitizePrefix` keeps.
use termulaa.Prelude.{
  ℕ, ◌≤◌, true, false, [], ◌∷◌, ◌++◌, ◌≡◌, ◌⊎◌, refl, sym, ap, ◌∙◌, arith, ◌==◌, ltb, length, All,
  nil, cons, Bool-cases, inl, inr,
}
use mathlib.Core.Path.{subst}
use termulaa.Server.{Bytes}
use termulaa.Server.Prefix.{
  split_slash, max_forwarded_prefix_len, is_prefix_byte, all_segments, ends_with_slash,
  sanitize_prefix,
}
use termulaa.Server.Prefix.Grammar.{
  IsSegment, IsPath, last, more, IsSegment-is_segment, path_of, path_of-split_slash, path_of-IsPath,
  split_slash-cons, split_slash-segment, split_slash-last,
}

ends-append :
    (s : Bytes) (c : ℕ) (p : Bytes) → ends_with_slash (s ++ c ∷ p) ≡ ends_with_slash (c ∷ p)
ends-append [] c p = refl
ends-append (b ∷ []) c p = refl
ends-append (b ∷ d ∷ s) c p = ends-append (d ∷ s) c p

ends-segment :
    (b : ℕ) (s : Bytes)
    → All (λ c. is_prefix_byte c ≡ true) (b ∷ s)
    → ends_with_slash (b ∷ s) ≡ false
ends-segment b [] (cons h nil) = ground (arith, h)
ends-segment b (c ∷ s) (cons h hs) = ends-segment c s hs

-- A kept prefix as the tests of the code see it.
record Passes (b : ℕ) (bs : Bytes) : Type 0 where
  absolute : (b == b'/') ≡ true
  open_end : ends_with_slash (b ∷ bs) ≡ false
  segments : all_segments (split_slash bs) ≡ true

segment-end : (s : Bytes) → IsSegment s → ends_with_slash (b'/' ∷ s) ≡ false
segment-end [] g = absurd (g.not_dots 0 refl)
segment-end (b ∷ s) g = ends-segment b s g.allowed

front-Passes :
    (s bs : Bytes) (c : ℕ) (p : Bytes)
    → IsSegment s
    → bs ≡ c ∷ p
    → Passes c p
    → Passes b'/' (s ++ bs)
front-Passes s bs c p g e inner =
    let slash : c ≡ b'/' = ground (arith, inner.absolute) in
    record {
      absolute = refl;
      open_end =
          ap (λ q. ends_with_slash (b'/' ∷ (s ++ q))) e
          ∙ ends-append (b'/' ∷ s) c p
          ∙ inner.open_end;
      segments =
          ap (λ q. all_segments (split_slash (s ++ q))) (e ∙ ap (λ d. d ∷ p) slash)
          ∙ ap all_segments (split_slash-segment s p g.allowed)
          ∙ rw (IsSegment-is_segment g, inner.segments) refl;
    }

IsPath-Passes : {q : Bytes} → IsPath q → (b : ℕ) × (bs : Bytes) × (q ≡ b ∷ bs) × Passes b bs
IsPath-Passes (last {s} g) = (
  b'/',
  s,
  refl,
  record {
    absolute = refl;
    open_end = segment-end s g;
    segments = rw (split_slash-last s g.allowed, IsSegment-is_segment g) refl;
  },
)
IsPath-Passes (more {s} {p} g inner) =
    let (c, cs, e, passes) = IsPath-Passes inner in
    (b'/', s ++ p, refl, front-Passes s p c cs g e passes)

Passes-IsPath : (b : ℕ) (bs : Bytes) → Passes b bs → IsPath (b ∷ bs)
Passes-IsPath b bs h =
    let (s, ss, e) = split_slash-cons bs in
    let slash : b'/' ≡ b = ground (arith, h.absolute) in
    subst IsPath (ap path_of (sym e) ∙ path_of-split_slash bs ∙ ap (λ c. c ∷ bs) slash)
      (path_of-IsPath s ss (ap all_segments (sym e) ∙ h.segments))

sanitize-Passes :
    (b : ℕ) (bs : Bytes)
    → Passes b bs
    → length (b ∷ bs) ≤ max_forwarded_prefix_len
    → sanitize_prefix (b ∷ bs) ≡ b ∷ bs
unfolding sanitize_prefix
sanitize-Passes b bs g short =
    let fits : ltb max_forwarded_prefix_len (length (b ∷ bs)) ≡ false = ground (arith, short) in
    rw (fits, g.absolute, g.open_end, g.segments) refl

sanitize-cases :
    (b : ℕ) (bs : Bytes)
    → (Passes b bs × (length (b ∷ bs) ≤ max_forwarded_prefix_len)) ⊎ (sanitize_prefix (b ∷ bs) ≡ [])
unfolding sanitize_prefix
sanitize-cases b bs = elim (Bool-cases (ltb max_forwarded_prefix_len (length (b ∷ bs)))) [
  | inl long ↦ inr (rw long refl)
  | inr short ↦ elim (Bool-cases (b == b'/')) [
    | inr other ↦ inr (rw (short, other) refl)
    | inl slash ↦ elim (Bool-cases (ends_with_slash (b ∷ bs))) [
      | inl ends ↦ inr (rw (short, slash, ends) refl)
      | inr no_end ↦ elim (Bool-cases (all_segments (split_slash bs))) [
        | inr bad ↦ inr (rw (short, slash, no_end, bad) refl)
        | inl good ↦
            inl (
              record { absolute = slash; open_end = no_end; segments = good },
              ground (arith, short),
            )
      ]
    ]
  ]
]

-- A forwarded prefix is kept as it is if it is a path of the grammar that is at most 256 bytes long,
-- and otherwise there is no prefix.
pub sanitize_prefix-IsPath :
    (p : Bytes)
    → (IsPath p × (length p ≤ max_forwarded_prefix_len) × (sanitize_prefix p ≡ p))
      ⊎ ((IsPath p → length p ≤ max_forwarded_prefix_len → ⊥) × (sanitize_prefix p ≡ []))
sanitize_prefix-IsPath [] = inr (
  (λ path short. let (b, bs, e, passes) = IsPath-Passes path in cc),
  unfold sanitize_prefix in refl,
)
sanitize_prefix-IsPath (b ∷ bs) = elim (sanitize-cases b bs) [
  | inl (g, short) ↦ inl (Passes-IsPath b bs g, short, sanitize-Passes b bs g short)
  | inr gone ↦ inr ((λ path short. kept path short gone), gone)
]
  where
    kept :
        IsPath (b ∷ bs)
        → length (b ∷ bs) ≤ max_forwarded_prefix_len
        → sanitize_prefix (b ∷ bs) ≡ []
        → ⊥
    kept path short gone =
        let (c, cs, e, passes) = IsPath-Passes path in
        let whole = sanitize-Passes c cs passes (omega (arith, short, ap length e)) in
        let same : sanitize_prefix (b ∷ bs) ≡ c ∷ cs = ap sanitize_prefix e ∙ whole in cc
