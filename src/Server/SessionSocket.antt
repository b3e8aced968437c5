-- ===== src/Server/SessionSocket.antt =====
-- cmd/termulaa/handler.go: `handleSessionWS`, the connection of one pane. The goroutine that joins the
-- client runs between the rounds of the reader loop. `decode` is the JSON of a control message, and
-- `drop_file` the file written for a dropped one, with its path.
use Prim.Native.String.{String}
use text.Mathlib.Text.{◌==◌ as str_eq}
use termulaa.Prelude.{
  ℕ, Bool, true, false, not, ◌&&◌, ◌||◌, List, [], ◌∷◌, ◌++◌, Option, none, some, ascii,
  if◌then◌else◌,
}
use termulaa.Dict.{lookup}
use termulaa.Outbox.{Bytes, queue_text}
use termulaa.Session.{
  Session, Attached, new_attached, update_client, with_queue, attach_client, detach_client,
  resize_session, in_alt_screen, nudge_redraw, winsize,
}
use termulaa.Session.Quote.{shell_quote_path}
use termulaa.Manager.{Manager, Result, ok, err, revive_session}
use termulaa.Manager.Owners.{can_attach_session}
use termulaa.Server.{is_valid_id}

-- Refused with a status, or let in to the session, which may have been revived for it.
pub data Entry : Type 0 where
  refused : ℕ → Entry
  entered : Session → Bool → Entry

module _ (generate_id : ℕ → String) (pty_start : String → Option ℕ) where
  unfoldable pub revived : String → Result String × Manager → Entry × Manager
  unfolding lookup
  revived id (err e, m) = (refused 500, m)
  revived id (ok new, m) = elim (lookup id m.sessions) [
    | none ↦ (refused 500, m)
    | some s ↦ (entered s true, m)
  ]

  -- Up to the upgrade of the connection.
  unfoldable pub enter : String → String → String → Bool → ℕ → Manager → Entry × Manager
  unfolding can_attach_session lookup revive_session revived
  enter id tab token cwd_exists now m =
      if not (is_valid_id id)
      then (refused 400, m)
      else if not (is_valid_id tab) || not (is_valid_id token)
      then (refused 403, m)
      else if not (can_attach_session tab id token m)
      then (refused 403, m)
      else elim (lookup id m.sessions) [
        | none ↦ (refused 404, m)
        | some s ↦
            if s.alive
            then (entered s false, m)
            else revived id (revive_session generate_id pty_start id cwd_exists now m)
      ]

-- A connection: its session, its client until that joins, the first resize's answer, whether the
-- client has joined and whether its goroutine still waits, and what was written to the PTY and set as
-- its window sizes.
pub record Pane : Type 0 where
  pub session : Session
  pub client : Attached
  pub sized : Option Bool
  pub joined : Bool
  pub waits : Bool
  pub finished : Bool
  pub typed : Bytes
  pub window_sizes : List (ℕ × ℕ)

unfoldable pub new_pane : Session → ℕ → String → String → Pane
new_pane s key tab token = record {
  session = s;
  client = new_attached key tab token;
  sized = none;
  joined = false;
  waits = true;
  finished = false;
  typed = [];
  window_sizes = [];
}

-- A size that is not positive is 0.
pub record Control : Type 0 where
  pub type : String
  pub cols : ℕ
  pub rows : ℕ
  pub name : String
  pub file_data : Bytes

-- `WriteInput`
unfoldable pub write_input : Bytes → ℕ → Pane → Pane
write_input bs now p =
    let s = p.session in
    if s.has_pty
    then record p {
      typed = p.typed ++ bs;
      session = record s { info = record (s.info) { last_active = now } };
    }
    else p

-- `queueText` for the pane's own client, in the session or not yet.
unfoldable pub tell : Bytes → Pane → Pane
tell msg p =
    let s = p.session in
    if p.joined
    then record p {
      session = record s {
        clients = update_client p.client.key (with_queue (queue_text msg)) s.clients;
      };
    }
    else record p { client = with_queue (queue_text msg) p.client }

-- A resize; only the answer of the first is sent on.
unfoldable pub resize_pane : ℕ → ℕ → Pane → Pane
unfolding resize_session
resize_pane cols rows p =
    let (s, changed) = resize_session cols rows p.session in
    record p {
      session = s;
      sized = elim p.sized [ none ↦ some changed | some c ↦ some c ];
      window_sizes =
          if s.has_pty && changed then p.window_sizes ++ winsize cols rows ∷ [] else p.window_sizes;
    }

-- The goroutine that joins: with the answer of the first resize, or after the grace.
unfoldable pub join_with : Bool → Pane → Pane
unfolding attach_client in_alt_screen nudge_redraw
join_with size_changed p =
    let (s, replayed) = attach_client p.client true p.session in
    record p {
      session = s;
      joined = true;
      waits = false;
      window_sizes =
          if not size_changed && (in_alt_screen s || not replayed)
          then p.window_sizes ++ nudge_redraw s
          else p.window_sizes;
    }

abbrev pub answered : Option Bool → Bool → Pane → Pane
answered (some size_changed) grace_over p = join_with size_changed p
answered none grace_over p = if grace_over then join_with false p else p

-- It may also find the connection finished, and return. With both there, either may be taken:
-- `sees_done` says which.
unfoldable pub join : Bool → Bool → Pane → Pane
unfolding join_with
join grace_over sees_done p =
    if not p.waits
    then p
    else if p.finished && sees_done
    then record p { waits = false }
    else answered p.sized grace_over p

-- The reader loop ends, and the deferred call detaches the client.
unfoldable pub finish : Pane → Pane
unfolding detach_client
finish p = record p { finished = true; session = detach_client p.client.key p.session }

abbrev pong : Bytes
pong = ascii "{\"type\":\"pong\"}"

module _ (decode : Bytes → Option Control) (drop_file : String → Bytes → Option Bytes) where
  -- The messages with a type.
  unfoldable pub control : Control → Bytes → ℕ → Pane → Pane
  unfolding write_input tell resize_pane shell_quote_path
  control c msg now p =
      if str_eq c.type "ping"
      then tell pong p
      else if str_eq c.type "resize"
      then resize_pane c.cols c.rows p
      else if str_eq c.type "file"
      then elim (drop_file c.name c.file_data) [
        | none ↦ p
        | some path ↦ write_input (shell_quote_path path) now p
      ]
      else if str_eq c.type "closing"
      then p
      else write_input msg now p

  -- One round of the reader loop.
  unfoldable pub receive : Bool → Bytes → ℕ → Pane → Pane
  unfolding control write_input
  receive text msg now p =
      if text
      then elim (decode msg) [ none ↦ write_input msg now p | some c ↦ control c msg now p ]
      else write_input msg now p
