-- ===== src/Vterm/Snapshot/Reading.antt =====
-- A sequence of parameters, and the parser that has read it.
use termulaa.Prelude.{
  ℕ, zero, suc, ◌+◌, ◌-◌, ◌<◌, Bool, true, false, List, [], ◌∷◌, ◌++◌, ◌≡◌, refl, sym, ap, ◌∙◌,
  arith, length, length-append, length-set, get_or, set, ltb, Bool-cases, inl, inr,
}
use mathlib.Core.Path.{subst}
use termulaa.Vterm.State.{Parser, max_params}
use termulaa.Vterm.Params.{first_param}
use termulaa.Vterm.Snapshot.Digits.{get_or-set_self, get_or-set_other, with_value}

-- A parameter: its value, and whether a colon stands before it.
abbrev pub Param : Type 0
Param = ℕ × Bool

abbrev no_param : Param
no_param = (0, false)

-- Parameter `i` of the parser, where it has a value.
pub record HasParam (p : Parser) (i : ℕ) (x : Param) : Type 0 where
  pub value : get_or p.params i 0 ≡ x.0
  pub given : get_or p.has_value i false ≡ true
  pub sub : get_or p.is_sub i false ≡ x.1

-- The parser has read the parameters `ps`, and is not full.
pub record HasRead (ps : List Param) (p : Parser) : Type 0 where
  pub count : p.n_params ≡ length ps
  pub no_overflow : p.overflow ≡ false
  pub params_len : length p.params ≡ max_params
  pub has_value_len : length p.has_value ≡ max_params
  pub is_sub_len : length p.is_sub ≡ max_params
  pub each : (i : ℕ) → i < length ps → HasParam p i (get_or ps i no_param)

get_or-append_lt {ℓ} :
    {A : Type ℓ} (xs ys : List A) (i : ℕ) (d : A)
    → i < length xs
    → get_or (xs ++ ys) i d ≡ get_or xs i d
get_or-append_lt [] ys i d h = absurd (omega arith)
get_or-append_lt (x ∷ xs) ys zero d h = refl
get_or-append_lt (x ∷ xs) ys (suc i) d h = get_or-append_lt xs ys i d (omega arith)

pub get_or-append_at {ℓ} :
    {A : Type ℓ} (xs ys : List A) (i : ℕ) (d : A)
    → get_or (xs ++ ys) (length xs + i) d ≡ get_or ys i d
get_or-append_at [] ys i d = ap (λ j. get_or ys j d) (omega arith)
get_or-append_at (x ∷ xs) ys i d =
    ap (λ j. get_or (x ∷ (xs ++ ys)) j d) {x = suc (length xs) + i} {y = suc (length xs + i)}
      (omega arith)
    ∙ get_or-append_at xs ys i d

-- The value `v` is put into the last parameter, and the parameters before it are as they were.
with_value-HasRead :
    (ps : List Param) (v : ℕ) (s : Bool) (p : Parser)
    → first_param p ≡ suc (length ps)
    → length ps < max_params
    → p.overflow ≡ false
    → length p.params ≡ max_params
    → length p.has_value ≡ max_params
    → length p.is_sub ≡ max_params
    → get_or p.is_sub (length ps) false ≡ s
    → ((i : ℕ) → i < length ps → HasParam p i (get_or ps i no_param))
    → HasRead (ps ++ (v, s) ∷ []) (with_value v p)
with_value-HasRead ps v s p n room ok lp lh ls sub before =
    let at : first_param p - 1 ≡ length ps = omega (arith, n) in
    record {
      count = omega (arith, n, length-append ps ((v, s) ∷ []));
      no_overflow = ok;
      params_len = length-set p.params (first_param p - 1) v ∙ lp;
      has_value_len = length-set p.has_value (first_param p - 1) true ∙ lh;
      is_sub_len = ls;
      each = λ i h. elim (Bool-cases (ltb i (length ps))) [
        | inl old ↦
            let lt : i < length ps = ground (arith, old) in
            let b = before i lt in
            let same = get_or-append_lt ps ((v, s) ∷ []) i no_param lt in
            record {
              value =
                  get_or-set_other p.params (first_param p - 1) i v 0 (omega (arith, at, lt))
                  ∙ b.value
                  ∙ ap (λ (x : Param). x.0) (sym same);
              given =
                  get_or-set_other p.has_value (first_param p - 1) i true false
                    (omega (arith, at, lt))
                  ∙ b.given;
              sub = b.sub ∙ ap (λ (x : Param). x.1) (sym same);
            }
        | inr new ↦
            let here : i ≡ length ps + 0 = ground (arith, new, h, length-append ps ((v, s) ∷ [])) in
            let last = get_or-append_at ps ((v, s) ∷ []) 0 no_param in
            subst (λ j. HasParam (with_value v p) j (get_or (ps ++ (v, s) ∷ []) j no_param))
              (sym here)
              (record {
                value =
                    ap (λ j. get_or (set p.params (first_param p - 1) v) j 0) {x = length ps + 0}
                      {y = first_param p - 1} (omega (arith, at))
                    ∙ get_or-set_self p.params (first_param p - 1) v 0 (omega (arith, at, lp, room))
                    ∙ ap (λ (x : Param). x.0) (sym last);
                given =
                    ap (λ j. get_or (set p.has_value (first_param p - 1) true) j false)
                      {x = length ps + 0} {y = first_param p - 1} (omega (arith, at))
                    ∙ get_or-set_self p.has_value (first_param p - 1) true false
                        (omega (arith, at, lh, room));
                sub =
                    ap (λ j. get_or p.is_sub j false) {x = length ps + 0} {y = length ps}
                      (omega arith)
                    ∙ sub
                    ∙ ap (λ (x : Param). x.1) (sym last);
              })
      ];
    }
