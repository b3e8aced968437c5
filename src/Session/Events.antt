-- ===== src/Session/Events.antt =====
-- What happens to a session, one step after the other, and what a client is told.
use termulaa.Prelude.{ℕ, Bool, true, false, ◌≢◌, List, [], ◌∷◌, ◌++◌, ◌==◌, if◌then◌else◌}
use termulaa.Outbox.{Bytes, queue_text}
use termulaa.Outbox.Laws.{Sent, tagged}
use termulaa.Session.{
  Session, Attached, record_output, attach_client, detach_client, resize_session, update_client,
  pump_notified, pump_done, shell_exited, with_queue,
}

-- `told` is a control message to one client, such as a pong. `pump_finished` is the pump of a client
-- that finds the session done, with the JSON of the notice that it sends; until then the pump still
-- may be notified, since `select` takes either.
pub data Event : Type 0 where
  printed : Bytes → ℕ → Event
  joins : Attached → Bool → Event
  leaves : ℕ → Event
  sized : ℕ → ℕ → Event
  pumped : ℕ → Event
  told : ℕ → Bytes → Event
  exited : ℕ → Event
  pump_finished : ℕ → Bytes → Event

module _ (is_mark : ℕ → Bool) where
  unfoldable pub step : Event → Session → Session
  step (printed bs now) s = record_output is_mark bs now s
  step (joins c replay) s = (attach_client c replay s).0
  step (leaves k) s = detach_client k s
  step (sized cols rows) s = (resize_session cols rows s).0
  step (pumped k) s = record s { clients = update_client k pump_notified s.clients }
  step (told k msg) s = record s {
    clients = update_client k (with_queue (queue_text msg)) s.clients;
  }
  step (exited code) s = shell_exited code s
  step (pump_finished k notice) s =
      let done = pump_done (record { text = true; bytes = notice }) in
      if s.done then record s { clients = update_client k done s.clients } else s

  unfoldable pub run : List Event → Session → Session
  run [] s = s
  run (e ∷ es) s = run es (step e s)

-- What client `k` is sent on account of an event.
abbrev pub heard_of : ℕ → Event → List Sent
heard_of k (printed bs now) = tagged false bs
heard_of k (told j msg) = if j == k then tagged true msg else []
heard_of k _ = []

abbrev pub heard : ℕ → List Event → List Sent
heard k [] = []
heard k (e ∷ es) = heard_of k e ++ heard k es

-- Client `k` does not leave, and its pump is not the one that finds the session done.
abbrev pub StaysIn : ℕ → Event → Type 0
StaysIn k (leaves j) = j ≢ k
StaysIn k (pump_finished j notice) = j ≢ k
StaysIn k _ = Unit
