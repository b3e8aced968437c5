-- ===== src/Tests/Tunnels.antt =====
-- cmd/termulaa/tunnel.go: a tunnel that another agent takes over, and a pool of two.
use termulaa.Prelude.{
  true, false, List, [], ◌∷◌, ◌++◌, none, some, ◌≡◌, refl, arith, ap, ℕ, ◌≢◌, length, All, nil,
  cons,
}
use termulaa.Tunnel.{
  Attempt, dial_failed, served, initial_backoff, failure_of, is_terminal, run_tunnel, PoolStatus,
  up,
}
use termulaa.Tunnel.Stream.{
  WsConn, unread, read, read_each, join_all, read_each-stream, read-progress,
}
use termulaa.Tunnel.Retry.{run_tunnel-stops}
use termulaa.Tunnel.Pool.{Pool, Reachable, start, then_step, connects}

abbrev attempts : List Attempt
attempts = dial_failed none 20 ∷ served false 40000 ∷ []

attempts_lost : All (λ a. is_terminal (failure_of a) ≡ false) attempts
unfolding failure_of
attempts_lost = cons refl (cons refl nil)

taken_over : is_terminal (failure_of (served true 70)) ≡ true
unfolding failure_of
taken_over = refl

run_tunnel-stops_example :
    let out = run_tunnel initial_backoff (attempts ++ served true 70 ∷ dial_failed none 20 ∷ []) in
    (out.fatal ≡ some (failure_of (served true 70)))
    × (length out.waits ≡ length attempts)
    × (out ≡ run_tunnel initial_backoff (attempts ++ served true 70 ∷ []))
run_tunnel-stops_example =
    run_tunnel-stops initial_backoff attempts (served true 70) (dial_failed none 20 ∷ [])
      attempts_lost taken_over

abbrev new_status : PoolStatus
new_status = record { live = 0; total = 2 }

abbrev one_up : Pool
one_up = record { tunnels = false ∷ true ∷ []; status = up new_status }

one_up-Reachable : Reachable 2 one_up
one_up-Reachable = then_step start (connects (false ∷ []) [] new_status)

abbrev socket : WsConn
socket = record {
  buffer = [];
  incoming = [] ∷ (1 ∷ 2 ∷ 3 ∷ []) ∷ (4 ∷ []) ∷ [];
  outgoing = [];
  closed = 0;
}

read_each-stream_example :
    (read_each (2 ∷ 2 ∷ []) socket).0 ++ unread (read_each (2 ∷ 2 ∷ []) socket).1 ≡ unread socket
read_each-stream_example = read_each-stream (2 ∷ 2 ∷ []) socket

more_there : unread socket ≢ []
unfolding join_all
more_there e = absurd (omega (arith, ap length e))

read-progress_example : (b : ℕ) × (bs : List ℕ) × ((read 2 socket).0 ≡ some (b ∷ bs))
read-progress_example = read-progress 2 socket (omega arith) more_there
