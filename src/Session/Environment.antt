-- ===== src/Session/Environment.antt =====
-- cmd/termulaa/session.go: `NewSession`, the environment of the shell. An entry is its bytes.
use termulaa.Prelude.{
  ℕ, Bool, true, false, ◌&&◌, ◌||◌, List, [], ◌∷◌, ◌++◌, ◌==◌, ◌≡◌, refl, ap, ◌∙◌, ascii, arith,
  if◌then◌else◌, Bool-cases, inl, inr, All, nil, cons, All-append, map,
}
use mathlib.Core.Path.{subst}
use termulaa.Outbox.{Bytes}
use termulaa.Vterm.Cell.{is_empty}
use termulaa.Vterm.Snapshot.{itoa}

-- `strings.HasPrefix`
unfoldable pub has_prefix : Bytes → Bytes → Bool
has_prefix [] e = true
has_prefix (p ∷ ps) [] = false
has_prefix (p ∷ ps) (b ∷ e) = p == b && has_prefix ps e

abbrev term_key : Bytes
term_key = ascii "TERM="

abbrev file_key : Bytes
file_key = ascii "HISTFILE="

abbrev size_key : Bytes
size_key = ascii "HISTSIZE="

abbrev file_size_key : Bytes
file_size_key = ascii "HISTFILESIZE="

abbrev xterm : Bytes
xterm = ascii "TERM=xterm-256color"

-- One round of the loop; each test is on the entry as it was.
unfoldable pub override : Bytes → Bytes → Bytes → Bytes
unfolding has_prefix
override hist_file limit e =
    let a = if has_prefix term_key e then xterm else e in
    let b = if has_prefix file_key e then file_key ++ hist_file else a in
    let c = if has_prefix size_key e then size_key ++ limit else b in
    if has_prefix file_size_key e then file_size_key ++ limit else c

unfoldable pub any_prefix : Bytes → List Bytes → Bool
unfolding has_prefix
any_prefix p [] = false
any_prefix p (e ∷ es) = has_prefix p e || any_prefix p es

-- The entry, unless one with its key was there.
abbrev unless_there : Bool → Bytes → List Bytes
unless_there there e = if there then [] else e ∷ []

-- A limit of 0 stands for any that is not positive.
unfoldable pub session_env : List Bytes → Bytes → ℕ → List Bytes
unfolding override any_prefix itoa
session_env env hist_file history_limit =
    let limit = itoa history_limit in
    map (override hist_file limit) env
    ++ (unless_there (any_prefix term_key env) xterm
        ++ (unless_there (any_prefix file_key env || is_empty hist_file) (file_key ++ hist_file)
            ++ (unless_there (any_prefix size_key env) (size_key ++ limit)
                ++ unless_there (any_prefix file_size_key env) (file_size_key ++ limit))))

-- An entry for the terminal is the emulator's.
abbrev pub IsXterm : Bytes → Type 0
IsXterm e = has_prefix term_key e ≡ true → e ≡ xterm

either-IsXterm : (b : Bool) (x y : Bytes) → IsXterm x → IsXterm y → IsXterm (if b then x else y)
either-IsXterm true x y p q = p
either-IsXterm false x y p q = q

own-IsXterm : (e : Bytes) → IsXterm (if has_prefix term_key e then xterm else e)
own-IsXterm e = elim (Bool-cases (has_prefix term_key e)) [
  | inl yes_term ↦ rw yes_term (λ h. refl)
  | inr no_term ↦ rw no_term (λ h. absurd cc)
]

history-IsXterm : (rest : Bytes) → IsXterm (b'H' ∷ rest)
unfolding has_prefix
history-IsXterm rest h = absurd cc

override-IsXterm : (hist_file limit e : Bytes) → IsXterm (override hist_file limit e)
unfolding override
override-IsXterm hist_file limit e =
    either-IsXterm (has_prefix file_size_key e) (file_size_key ++ limit) _
      (history-IsXterm (ascii "ISTFILESIZE=" ++ limit))
      (either-IsXterm (has_prefix size_key e) (size_key ++ limit) _
        (history-IsXterm (ascii "ISTSIZE=" ++ limit))
        (either-IsXterm (has_prefix file_key e) (file_key ++ hist_file) _
          (history-IsXterm (ascii "ISTFILE=" ++ hist_file)) (own-IsXterm e)))

map-IsXterm :
    (hist_file limit : Bytes) (env : List Bytes) → All IsXterm (map (override hist_file limit) env)
map-IsXterm hist_file limit [] = nil
map-IsXterm hist_file limit (e ∷ env) =
    cons (override-IsXterm hist_file limit e) (map-IsXterm hist_file limit env)

any_prefix-append :
    (p : Bytes) (xs ys : List Bytes)
    → any_prefix p (xs ++ ys) ≡ (any_prefix p xs || any_prefix p ys)
unfolding any_prefix
any_prefix-append p [] ys = refl
any_prefix-append p (x ∷ xs) ys = ground (arith, any_prefix-append p xs ys)

-- The first byte tells the key of the terminal from the others.
override-has_prefix :
    (hist_file limit e : Bytes)
    → has_prefix term_key e ≡ true
    → has_prefix term_key (override hist_file limit e) ≡ true
unfolding override has_prefix
override-has_prefix hist_file limit [] h = absurd cc
override-has_prefix hist_file limit (b ∷ e) h =
    let t : b'T' ≡ b = ground (arith, h) in
    subst
      (λ c.
        has_prefix term_key (c ∷ e) ≡ true
        → has_prefix term_key (override hist_file limit (c ∷ e)) ≡ true)
      t (λ k. rw k refl) h

any_prefix-map :
    (hist_file limit : Bytes) (env : List Bytes)
    → any_prefix term_key env ≡ true
    → any_prefix term_key (map (override hist_file limit) env) ≡ true
unfolding any_prefix
any_prefix-map hist_file limit [] h = h
any_prefix-map hist_file limit (e ∷ env) h = elim (Bool-cases (has_prefix term_key e)) [
  | inl here ↦ rw (override-has_prefix hist_file limit e here) refl
  | inr other ↦ ground (arith, other, h, any_prefix-map hist_file limit env)
]

unless_there-IsXterm : (b : Bool) (e : Bytes) → IsXterm e → All IsXterm (unless_there b e)
unless_there-IsXterm true e h = nil
unless_there-IsXterm false e h = cons h nil

given-IsXterm :
    (env : List Bytes) (hist_file : Bytes) (history_limit : ℕ)
    → All IsXterm (session_env env hist_file history_limit)
unfolding session_env
given-IsXterm env hist_file history_limit =
    let limit = itoa history_limit in
    All-append (map-IsXterm hist_file limit env) (
      All-append (unless_there-IsXterm (any_prefix term_key env) xterm (λ h. refl)) (
        All-append
          (unless_there-IsXterm (any_prefix file_key env || is_empty hist_file)
            (file_key ++ hist_file) (history-IsXterm (ascii "ISTFILE=" ++ hist_file)))
          (All-append
            (unless_there-IsXterm (any_prefix size_key env) (size_key ++ limit)
              (history-IsXterm (ascii "ISTSIZE=" ++ limit)))
            (unless_there-IsXterm (any_prefix file_size_key env) (file_size_key ++ limit)
              (history-IsXterm (ascii "ISTFILESIZE=" ++ limit))))))

or_true : (b : Bool) → (b || true) ≡ true
or_true true = refl
or_true false = refl

one_there :
    (there : Bool) (xs rest : List Bytes)
    → (there ≡ true → any_prefix term_key xs ≡ true)
    → any_prefix term_key (xs ++ (unless_there there xterm ++ rest)) ≡ true
unfolding any_prefix has_prefix
one_there true xs rest h =
    any_prefix-append term_key xs rest ∙ ap (λ b. b || any_prefix term_key rest) (h refl)
one_there false xs rest h =
    any_prefix-append term_key xs (xterm ∷ rest) ∙ or_true (any_prefix term_key xs)

-- Whatever the environment of the server, the shell is given a TERM, and each that it is given is
-- `xterm-256color`.
pub session_env-IsXterm :
    (env : List Bytes) (hist_file : Bytes) (history_limit : ℕ)
    → (any_prefix term_key (session_env env hist_file history_limit) ≡ true)
      × All IsXterm (session_env env hist_file history_limit)
unfolding session_env
session_env-IsXterm env hist_file history_limit =
    let limit = itoa history_limit in
    (
      one_there (any_prefix term_key env) (map (override hist_file limit) env)
          (unless_there (any_prefix file_key env || is_empty hist_file) (file_key ++ hist_file)
            ++ (unless_there (any_prefix size_key env) (size_key ++ limit)
                ++ unless_there (any_prefix file_size_key env) (file_size_key ++ limit)))
          (any_prefix-map hist_file limit env),
      given-IsXterm env hist_file history_limit,
    )
