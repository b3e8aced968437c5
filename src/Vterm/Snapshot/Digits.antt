-- ===== src/Vterm/Snapshot/Digits.antt =====
-- A number in a sequence of the snapshot, as the parser reads it.
use termulaa.Prelude.{
  ℕ, zero, suc, ◌+◌, ◌-◌, ◌*◌, ◌/◌, ◌%◌, ◌≤◌, ◌<◌, true, false, List, [], ◌∷◌, ◌++◌, ◌≡◌, refl, ap,
  ◌∙◌, arith, length, get_or, set, ltb, Bool-cases, inl, inr,
}
use termulaa.Vterm.State.{Parser}
use termulaa.Vterm.Params.{push_digit, first_param, max_value}
use termulaa.Vterm.Utf8.{Bytes}
use termulaa.Vterm.Snapshot.{digits, itoa}

module _ {ℓ} {A : Type ℓ} where
  pub get_or-set_self :
      (xs : List A) (i : ℕ) (v d : A) → i < length xs → get_or (set xs i v) i d ≡ v
  get_or-set_self [] i v d h = absurd (omega arith)
  get_or-set_self (x ∷ xs) zero v d h = refl
  get_or-set_self (x ∷ xs) (suc i) v d h = get_or-set_self xs i v d (omega arith)

  pub get_or-set_other :
      (xs : List A) (i j : ℕ) (v d : A) → j < i → get_or (set xs i v) j d ≡ get_or xs j d
  get_or-set_other [] i j v d h = refl
  get_or-set_other (x ∷ xs) zero j v d h = absurd (omega arith)
  get_or-set_other (x ∷ xs) (suc i) zero v d h = refl
  get_or-set_other (x ∷ xs) (suc i) (suc j) v d h = get_or-set_other xs i j v d (omega arith)

  set-set : (xs : List A) (i : ℕ) (v w : A) → set (set xs i v) i w ≡ set xs i w
  set-set [] i v w = refl
  set-set (x ∷ xs) zero v w = refl
  set-set (x ∷ xs) (suc i) v w = ap (◌∷◌ x) (set-set xs i v w)

-- The parser with the value `v` in its last parameter.
abbrev pub with_value : ℕ → Parser → Parser
with_value v p = record p {
  n_params = first_param p;
  params = set p.params (first_param p - 1) v;
  has_value = set p.has_value (first_param p - 1) true;
}

abbrev pub push_all : Bytes → Parser → Parser
push_all [] p = p
push_all (b ∷ bs) p = push_all bs (push_digit b p)

push_all-append : (xs ys : Bytes) (p : Parser) → push_all (xs ++ ys) p ≡ push_all ys (push_all xs p)
push_all-append [] ys p = refl
push_all-append (x ∷ xs) ys p = push_all-append xs ys (push_digit x p)

-- The last parameter has room, and no value yet.
pub record IsFresh (p : Parser) : Type 0 where
  pub no_overflow : p.overflow ≡ false
  pub room : first_param p - 1 < length p.params
  pub blank : get_or p.params (first_param p - 1) 0 ≡ 0

push_digit_first :
    (d : ℕ) (p : Parser) → IsFresh p → d < 10 → push_digit (b'0' + d) p ≡ with_value d p
unfolding push_digit
push_digit_first d p f h = ground arith

push_digit_next :
    (v d : ℕ) (p : Parser)
    → IsFresh p
    → d < 10
    → v * 10 + d ≤ max_value
    → push_digit (b'0' + d) (with_value v p) ≡ with_value (v * 10 + d) p
unfolding push_digit
push_digit_next v d p f h k = ground (
  arith,
  f.no_overflow,
  get_or-set_self p.params (first_param p - 1) v 0 f.room,
  set-set p.params (first_param p - 1) v (v * 10 + d),
  set-set p.has_value (first_param p - 1) true true,
)

push_all-digits :
    (fuel n : ℕ) (p : Parser)
    → IsFresh p
    → n < fuel
    → n ≤ max_value
    → push_all (digits fuel n) p ≡ with_value n p
unfolding digits
push_all-digits zero n p f h k = absurd (omega arith)
push_all-digits (suc fuel) n p f h k = elim (Bool-cases (ltb n 10)) [
  | inl small ↦ rw small (push_digit_first n p f (ground (arith, small)))
  | inr large ↦ rw large (
      push_all-append (digits fuel (n / 10)) ((b'0' + n % 10) ∷ []) p
      ∙ ap (push_digit (b'0' + n % 10))
          (push_all-digits fuel (n / 10) p f (ground (arith, large)) (omega (arith, k)))
      ∙ push_digit_next (n / 10) (n % 10) p f (omega arith) (omega (arith, k))
      ∙ ap (λ v. with_value v p) (omega arith))
]

-- The digits that `Itoa` writes are read back as the number, up to the parser's limit.
pub push_all-itoa :
    (n : ℕ) (p : Parser) → IsFresh p → n ≤ max_value → push_all (itoa n) p ≡ with_value n p
unfolding itoa
push_all-itoa n p f k = push_all-digits (suc n) n p f (omega arith) k

-- The digits are digits.
pub data AreDigits : Bytes → Type 0 where
  nil : AreDigits []
  cons : {b : ℕ} {bs : Bytes} → b'0' ≤ b → b ≤ b'9' → AreDigits bs → AreDigits (b ∷ bs)

AreDigits-append : {xs ys : Bytes} → AreDigits xs → AreDigits ys → AreDigits (xs ++ ys)
AreDigits-append nil ys = ys
AreDigits-append (cons lo hi xs) ys = cons lo hi (AreDigits-append xs ys)

digits-AreDigits : (fuel n : ℕ) → AreDigits (digits fuel n)
unfolding digits
digits-AreDigits zero n = nil
digits-AreDigits (suc fuel) n = elim (Bool-cases (ltb n 10)) [
  | inl small ↦ rw small (cons (omega arith) (ground (arith, small)) nil)
  | inr large ↦
      rw large
        (AreDigits-append (digits-AreDigits fuel (n / 10)) (cons (omega arith) (omega arith) nil))
]

pub itoa-AreDigits : (n : ℕ) → AreDigits (itoa n)
unfolding itoa
itoa-AreDigits n = digits-AreDigits (suc n) n
