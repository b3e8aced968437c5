-- ===== src/Tunnel.antt =====
-- cmd/termulaa/tunnel.go: how the agent keeps its tunnels to the rendezvous alive. Dialling and
-- serving are what came of them; times are in milliseconds.
pub mod Stream
pub mod Retry
pub mod Pool
use termulaa.Prelude.{
  ℕ, ◌+◌, ◌-◌, ◌*◌, Bool, true, false, ◌||◌, List, [], ◌∷◌, Option, none, some, ◌==◌, ltb, leb,
  if◌then◌else◌,
}

abbrev pub initial_backoff : ℕ
initial_backoff = 1000

abbrev pub max_backoff : ℕ
max_backoff = 30 * 1000

abbrev pub stable_conn_age : ℕ
stable_conn_age = 30 * 1000

-- The kinds of errors that `runTunnel` tells apart.
pub data Failure : Type 0 where
  auth_error conflict_error superseded connection_lost : Failure

-- What became of one call of `dialAndServeTunnel`, and how long it took: the handshake failed, with
-- the status of a response if there was one; or the tunnel was served until it died, with or without
-- the close frame that tells that another agent took over.
pub data Attempt : Type 0 where
  dial_failed : Option ℕ → ℕ → Attempt
  served : Bool → ℕ → Attempt

unfoldable pub handshake_failure : Option ℕ → Failure
handshake_failure none = connection_lost
handshake_failure (some status) =
    if status == 401 || status == 403
    then auth_error
    else if status == 409
    then conflict_error
    else connection_lost

unfoldable pub failure_of : Attempt → Failure
unfolding handshake_failure
failure_of (dial_failed response lasted) = handshake_failure response
failure_of (served took_over lasted) = if took_over then superseded else connection_lost

abbrev pub lasted_of : Attempt → ℕ
lasted_of (dial_failed response lasted) = lasted
lasted_of (served took_over lasted) = lasted

abbrev pub is_terminal : Failure → Bool
is_terminal auth_error = true
is_terminal conflict_error = true
is_terminal superseded = true
is_terminal connection_lost = false

unfoldable pub next_backoff : ℕ → ℕ
next_backoff d = if ltb max_backoff (d * 2) then max_backoff else d * 2

-- What a run does: the waits, before they are jittered, and the error that fails the agent.
pub record Outcome : Type 0 where
  pub waits : List ℕ
  pub fatal : Option Failure

-- `runTunnel`: the context is cancelled when no attempt is left.
unfoldable pub run_tunnel : ℕ → List Attempt → Outcome
unfolding failure_of next_backoff
run_tunnel backoff [] = record { waits = []; fatal = none }
run_tunnel backoff (a ∷ attempts) =
    let wait = if leb stable_conn_age (lasted_of a) then initial_backoff else backoff in
    let rest = run_tunnel (next_backoff wait) attempts in
    if is_terminal (failure_of a)
    then record { waits = []; fatal = some (failure_of a) }
    else record rest { waits = wait ∷ rest.waits }

-- `poolStatus`
pub record PoolStatus : Type 0 where
  pub live : ℕ
  pub total : ℕ

unfoldable pub up : PoolStatus → PoolStatus
up p = record p { live = p.live + 1 }

unfoldable pub down : PoolStatus → PoolStatus
down p = record p { live = p.live - 1 }
