-- ===== src/Tunnel/Retry.antt =====
-- `runTunnel`: how long it waits and when it gives up.
use termulaa.Prelude.{
  ℕ, suc, ◌≤◌, true, false, List, [], ◌∷◌, ◌++◌, some, ◌≡◌, refl, ap, arith, length, All, nil, cons,
  Bool-cases, inl, inr, leb, if◌then◌else◌,
}
use termulaa.Tunnel.{
  Attempt, Outcome, initial_backoff, max_backoff, stable_conn_age, failure_of, is_terminal,
  lasted_of, next_backoff, run_tunnel,
}

InRange : ℕ → Type 0
InRange w = (initial_backoff ≤ w) × (w ≤ max_backoff)

next_backoff-InRange : (d : ℕ) → InRange d → InRange (next_backoff d)
unfolding next_backoff InRange
next_backoff-InRange d h = ground arith

-- From a wait of one to thirty seconds on, every wait of a tunnel between two attempts, before it is
-- jittered, is one to thirty seconds long, whatever the attempts come to.
pub run_tunnel-waits :
    (backoff : ℕ) (attempts : List Attempt)
    → initial_backoff ≤ backoff
    → backoff ≤ max_backoff
    → All (λ w. (initial_backoff ≤ w) × (w ≤ max_backoff)) (run_tunnel backoff attempts).waits
unfolding run_tunnel InRange
run_tunnel-waits backoff [] low high = nil
run_tunnel-waits backoff (a ∷ attempts) low high =
    let wait = if leb stable_conn_age (lasted_of a) then initial_backoff else backoff in
    let fits : InRange wait = ground arith in
    let next = next_backoff-InRange wait fits in
    elim (Bool-cases (is_terminal (failure_of a))) [
      | inl stop ↦ rw (stop, run_tunnel) nil
      | inr go ↦
          rw (go, run_tunnel)
            (cons fits (run_tunnel-waits (next_backoff wait) attempts next.0 next.1))
    ]

-- A tunnel that loses its connection tries again each time, and at the first terminal error it fails
-- the agent with that error and makes no further attempt: it has waited once for each attempt before,
-- and nothing that could follow matters.
pub run_tunnel-stops :
    (backoff : ℕ) (lost : List Attempt) (last : Attempt) (unmade : List Attempt)
    → All (λ a. is_terminal (failure_of a) ≡ false) lost
    → is_terminal (failure_of last) ≡ true
    → let out = run_tunnel backoff (lost ++ last ∷ unmade) in
      (out.fatal ≡ some (failure_of last))
      × (length out.waits ≡ length lost)
      × (out ≡ run_tunnel backoff (lost ++ last ∷ []))
unfolding run_tunnel
run_tunnel-stops backoff [] last unmade nil stop = rw (stop, run_tunnel) (refl, refl, refl)
run_tunnel-stops backoff (a ∷ lost) last unmade (cons go gos) stop =
    let wait = if leb stable_conn_age (lasted_of a) then initial_backoff else backoff in
    let rest = run_tunnel-stops (next_backoff wait) lost last unmade gos stop in
    rw (go, run_tunnel)
      (rest.0, ap suc rest.1, ap {A = Outcome} (λ o. record o { waits = wait ∷ o.waits }) rest.2)
