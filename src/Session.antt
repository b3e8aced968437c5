-- ===== src/Session.antt =====
-- cmd/termulaa/session.go: `Session`, the output of its shell and the clients attached to it. A
-- client is known by a number, which stands for its pointer. `outMu` makes recording output, and
-- joining, one step each. Times are nanoseconds; 0 is the zero time. A size of 0 stands for any that
-- is not positive. An exit code is only stored and passed on.
pub mod Message
pub mod Quote
pub mod Environment
pub mod Events
pub mod Hearing
pub mod Ending
use Prim.Native.String.{String}
use text.Mathlib.Text.{◌==◌ as str_eq}
use termulaa.Prelude.{
  ℕ, ◌+◌, ◌-◌, ◌*◌, ◌^◌, ◌%◌, Bool, true, false, not, ◌&&◌, ◌||◌, List, [], ◌∷◌, ◌++◌, map, Option,
  none, some, ◌==◌, ltb, if◌then◌else◌,
}
use termulaa.Ring.{RingBuffer, new_ring_buffer, write, read_replay}
use termulaa.Outbox.{Bytes, OutFrame, Client, new_client, queue_binary, queue_text, take_pending}
use termulaa.Vterm.Cell.{is_empty}
use termulaa.Vterm.State.{Terminal, new}
use termulaa.Vterm.Feed.{write as term_write}
use termulaa.Vterm.Resize.{resize as term_resize}
use termulaa.Vterm.Snapshot.{snapshot}
use Message.{scrollback_message}

-- A `wsClient`: its queue, what its pump has written to the connection, whether it closed it, and
-- whether the pump has returned behind an overflow or the end of the session.
pub record Attached : Type 0 where
  pub key : ℕ
  pub tab_id : String
  pub owner_token : String
  pub queue : Client
  pub wire : List OutFrame
  pub closed : Bool
  pub pump_ended : Bool

abbrev pub new_attached : ℕ → String → String → Attached
new_attached key tab_id owner_token = record {
  key = key;
  tab_id = tab_id;
  owner_token = owner_token;
  queue = new_client;
  wire = [];
  closed = false;
  pump_ended = false;
}

pub record SessionMeta : Type 0 where
  pub id : String
  pub cwd : String
  pub shell : String
  pub cols : ℕ
  pub rows : ℕ
  pub exit_code : ℕ
  pub created_at : ℕ
  pub last_active : ℕ

-- `pid` is 0, and `has_pty` false, for a session loaded from disk; `done` is the closed channel.
pub record Session : Type 0 where
  pub info : SessionMeta
  pub alive : Bool
  pub pid : ℕ
  pub has_pty : Bool
  pub scrollback : RingBuffer
  pub term : Terminal
  pub last_output : ℕ
  pub clients : List Attached
  pub done : Bool

abbrev pub default_scrollback_bytes : ℕ
default_scrollback_bytes = 256 * 1024

abbrev pub positive_or : ℕ → ℕ → ℕ
positive_or default n = if n == 0 then default else n

-- The pump of a client on a notification: the queue goes to the connection, which is closed when the
-- client was too slow. A pump that has returned does nothing any more.
unfoldable pub pump_notified : Attached → Attached
unfolding take_pending
pump_notified c =
    let (frames, overflow, queue) = take_pending c.queue in
    if c.pump_ended then c else record c {
      wire = c.wire ++ frames;
      queue = queue;
      closed = if overflow then true else c.closed;
      pump_ended = overflow;
    }

unfoldable pub binary_frames : List OutFrame → List OutFrame
binary_frames [] = []
binary_frames (f ∷ fs) = let rest = binary_frames fs in if f.text then rest else f ∷ rest

-- The pump when the session is done: the binary frames go out, then the notice of the exit.
unfoldable pub pump_done : OutFrame → Attached → Attached
unfolding take_pending binary_frames
pump_done exit_notice c =
    let (frames, overflow, queue) = take_pending c.queue in
    if c.pump_ended then c else record c {
      wire = c.wire ++ (binary_frames frames ++ exit_notice ∷ []);
      queue = queue;
      pump_ended = true;
    }

-- The first client with this key.
unfoldable pub find_client : ℕ → List Attached → Option Attached
find_client k [] = none
find_client k (c ∷ cs) = if c.key == k then some c else find_client k cs

unfoldable pub update_client : ℕ → (Attached → Attached) → List Attached → List Attached
update_client k f [] = []
update_client k f (c ∷ cs) = if c.key == k then f c ∷ cs else c ∷ update_client k f cs

-- `DetachClient`, on the list
unfoldable pub remove_client : ℕ → List Attached → List Attached
remove_client k [] = []
remove_client k (c ∷ cs) = if c.key == k then cs else c ∷ remove_client k cs

abbrev pub with_queue : (Client → Client) → Attached → Attached
with_queue f c = record c { queue = f c.queue }

unfoldable pub broadcast : Bytes → Session → Session
broadcast bs s = record s { clients = map (with_queue (queue_binary bs)) s.clients }

-- `AttachClient`: the session, the client as it joins, and whether a snapshot was queued.
unfoldable pub attach_client : Attached → Bool → Session → Session × Bool
attach_client c replay s =
    let picture = snapshot s.term in
    let replayed = replay && not (is_empty picture) in
    let joined = if replayed then with_queue (queue_text (scrollback_message picture)) c else c in
    (record s { clients = s.clients ++ joined ∷ [] }, replayed)

unfoldable pub detach_client : ℕ → Session → Session
unfolding remove_client
detach_client k s = record s { clients = remove_client k s.clients }

abbrev pub has_token : List String → String → Bool
has_token [] t = false
has_token (u ∷ us) t = str_eq u t || has_token us t

-- `DisconnectClients`: the clients of the tab with one of the tokens, whose connections are closed.
unfoldable pub close_owned : String → List String → List Attached → List Attached × ℕ
close_owned tab tokens [] = ([], 0)
close_owned tab tokens (c ∷ cs) =
    let (rest, n) = close_owned tab tokens cs in
    if not (str_eq c.tab_id tab) || not (has_token tokens c.owner_token)
    then (c ∷ rest, n)
    else (record c { closed = true } ∷ rest, n + 1)

unfoldable pub disconnect_clients : String → List String → Session → Session × ℕ
unfolding close_owned
disconnect_clients tab tokens s =
    let (clients, n) = close_owned tab tokens s.clients in (record s { clients = clients }, n)

-- `HandoffFile`: the ID and the PID that the file is named for.
unfoldable pub handoff_file : Session → Option (String × ℕ)
handoff_file s = if not s.alive || not s.has_pty then none else some (s.info.id, s.pid)

unfoldable pub in_alt_screen : Session → Bool
in_alt_screen s = s.term.alt_active

-- `pty.Winsize` holds 16-bit numbers.
abbrev pub winsize : ℕ → ℕ → ℕ × ℕ
winsize cols rows = (cols % 2 ^ 16, rows % 2 ^ 16)

-- `NudgeRedraw`: the window sizes set, one after the other.
unfoldable pub nudge_redraw : Session → List (ℕ × ℕ)
nudge_redraw s =
    if not s.has_pty || ltb s.info.cols 2 || ltb s.info.rows 1
    then []
    else winsize (s.info.cols - 1) s.info.rows ∷ winsize s.info.cols s.info.rows ∷ []

-- `Resize`, without the window size that it sets: the session, and whether the size changed.
unfoldable pub resize_session : ℕ → ℕ → Session → Session × Bool
resize_session cols rows s =
    let changed = not (s.info.cols == cols) || not (s.info.rows == rows) in
    let sized = record s { info = record (s.info) { cols = cols; rows = rows } } in
    if cols == 0 || rows == 0
    then (s, false)
    else (if changed then record sized { term = term_resize cols rows s.term } else sized, changed)

-- The end of `readPump`: the shell has exited with this code.
unfoldable pub shell_exited : ℕ → Session → Session
shell_exited code s = record s {
  info = record (s.info) { exit_code = code };
  alive = false;
  done = true;
}

-- `Kill`, as far as the session's own fields go.
unfoldable pub kill : Session → Session
kill s = if s.pid == 0 then s else record s { alive = false }

-- `NewSession`, when the shell has been started with this PID.
unfoldable pub new_session : SessionMeta → ℕ → ℕ → Option Terminal → Session
new_session info pid scrollback_bytes carried =
    let picture : Terminal = elim carried [
      | none ↦ new info.cols info.rows
      | some term ↦ term_resize info.cols info.rows term
    ] in
    record {
      info = record info { exit_code = 0 };
      alive = true;
      pid = pid;
      has_pty = true;
      scrollback = new_ring_buffer (positive_or default_scrollback_bytes scrollback_bytes);
      term = picture;
      last_output = 0;
      clients = [];
      done = false;
    }

-- `AdoptSession`
unfoldable pub adopt_session : SessionMeta → ℕ → ℕ → RingBuffer → Terminal → Session
adopt_session info pid now scrollback term = record {
  info = record info { exit_code = 0; last_active = now };
  alive = true;
  pid = pid;
  has_pty = true;
  scrollback = scrollback;
  term = term;
  last_output = 0;
  clients = [];
  done = false;
}

module _ (is_mark : ℕ → Bool) where
  -- One read of `readPump`: the bytes are recorded, then fanned out.
  unfoldable pub record_output : Bytes → ℕ → Session → Session
  record_output bs now s =
      let recorded = record s {
        scrollback = write bs s.scrollback;
        term = term_write is_mark bs s.term;
      } in
      let sent = broadcast bs recorded in
      if is_empty bs
      then s
      else record sent { info = record (s.info) { last_active = now }; last_output = now }

  unfoldable pub restore_terminal : ℕ → ℕ → RingBuffer → Terminal
  restore_terminal cols rows ring =
      let blank = new (positive_or 80 cols) (positive_or 24 rows) in
      let bytes = read_replay ring in
      if is_empty bytes then blank else term_write is_mark bytes blank
