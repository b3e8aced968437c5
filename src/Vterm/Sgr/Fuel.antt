-- ===== src/Vterm/Sgr/Fuel.antt =====
-- The loop of `sgr` ends by itself.
use termulaa.Prelude.{ℕ, zero, suc, ◌+◌, ◌≤◌, ◌≡◌, refl, arith, if◌then◌else◌, ltb}
use termulaa.Vterm.Cell.{Style}
use termulaa.Vterm.State.{Parser}
use termulaa.Vterm.Sgr.{sgr_at, sgr_loop}

-- From parameter `i` on, any two bounds on the rounds of `sgr` that reach the number of parameters
-- give the same pen: a round for each parameter left is enough.
pub sgr_loop-fuel :
    (p : Parser) (f g i : ℕ) (st : Style)
    → p.n_params ≤ i + f
    → p.n_params ≤ i + g
    → sgr_loop p f i st ≡ sgr_loop p g i st
unfolding sgr_loop
sgr_loop-fuel p zero zero i st h k = refl
sgr_loop-fuel p zero (suc g) i st h k = ground arith
sgr_loop-fuel p (suc f) zero i st h k = ground arith
sgr_loop-fuel p (suc f) (suc g) i st h k =
    let next = sgr_at p i st in
    let rest = sgr_loop-fuel p f g (i + next.1 + 1) next.0 (omega arith) (omega arith) in
    λ j. if ltb i p.n_params then rest j else st
