-- ===== src/Server/TabSocket.antt =====
-- cmd/termulaa/handler.go: `handleTabWS`, the connection of a page that owns a tab. A connection is
-- known by its number. The handler is cut where it waits for a message; each piece runs alone. A
-- message is what decoding gives, `none` when that fails. `wrote` is whether a write succeeds. A
-- connection that the server closes ends its handler like one that the page closes.
use Prim.Native.String.{String}
use text.Mathlib.Text.{◌==◌ as str_eq}
use termulaa.Prelude.{ℕ, ◌+◌, Bool, not, List, [], ◌∷◌, ◌++◌, Option, none, some, if◌then◌else◌}
use termulaa.Dict.{lookup}
use termulaa.Layout.{LayoutNode, absent, session_ids}
use termulaa.Manager.{Manager, Error, TabClient, Result, ok, err, is_absent, update_tab}
use termulaa.Manager.Owners.{
  clients_of, conns_of, is_tab_active, disconnect_tab_owner, resume_tab_client, register_tab_client,
  unregister_tab_client,
}
use termulaa.Manager.Panes.{split_pane, close_pane, replace_tab_sessions}
use termulaa.Manager.Disk.{Disk, StateFile, save_state}
use termulaa.Server.{Bytes, is_valid_id}

-- What a page is sent.
pub data TabMessage : Type 0 where
  conflict pong : TabMessage
  connected : LayoutNode → List String → String → TabMessage
  error : Error → TabMessage
  session_created : String → String → String → LayoutNode → TabMessage
  pane_closed : String → LayoutNode → TabMessage

-- The registry and its files, what was sent to which connection, and the connections closed.
pub record Hub : Type 0 where
  pub manager : Manager
  pub disk : Disk
  pub sent : List (ℕ × TabMessage)
  pub closed : List ℕ

-- Where a handler stands: answered with a status, behind the check without an owner, waiting for the
-- choice of the page, owning the tab with a token, ended, or ended by a nil pointer.
pub data Phase : Type 0 where
  refused : ℕ → Phase
  free waiting gone crashed : Phase
  owning : String → Phase

abbrev pub with_manager : Manager → Hub → Hub
with_manager m h = record h { manager = m }

abbrev pub send : ℕ → TabMessage → Hub → Hub
send conn msg h = record h { sent = h.sent ++ (conn, msg) ∷ [] }

abbrev pub close : List ℕ → Hub → Hub
close conns h = record h { closed = h.closed ++ conns }

abbrev pub send_each : List ℕ → TabMessage → Hub → Hub
send_each [] msg h = h
send_each (c ∷ cs) msg h = send_each cs msg (send c msg h)

-- `BroadcastTabEvent`
unfoldable pub broadcast_tab_event : String → TabMessage → Hub → Hub
broadcast_tab_event tab msg h = send_each (conns_of (clients_of tab h.manager)) msg h

-- From the validation to the conflict.
unfoldable pub admit : String → String → ℕ → Bool → Hub → Phase × Hub
unfolding lookup resume_tab_client is_tab_active
admit tab resume conn wrote h =
    let (old, resumed) = resume_tab_client tab resume conn h.manager in
    if not (is_valid_id tab) then (refused 400, h) else elim (lookup tab h.manager.tabs) [
      | none ↦ (refused 404, h)
      | some t ↦ elim old [
        | some previous ↦ (owning resume, close (previous ∷ []) (with_manager resumed h))
        | none ↦
            if not (is_tab_active tab h.manager)
            then (free, h)
            else if wrote
            then (waiting, send conn conflict h)
            else (gone, close (conn ∷ []) h)
      ]
    ]

-- The end of a handler whose client is registered.
unfoldable pub hang_up : String → ℕ → Hub → Hub
unfolding unregister_tab_client
hang_up tab conn h = close (conn ∷ []) (with_manager (unregister_tab_client tab conn h.manager) h)

-- The `connected` message. The tab looked up again may be gone by now, and is not tested for that.
unfoldable pub greet : String → ℕ → Bool → Phase × Hub → Phase × Hub
unfolding lookup hang_up
greet tab conn wrote (owning token, h) = elim (lookup tab h.manager.tabs) [
  | none ↦ (crashed, hang_up tab conn h)
  | some t ↦
      if wrote
      then (owning token, send conn (connected t.layout (session_ids t.layout) token) h)
      else (gone, hang_up tab conn h)
]
greet tab conn wrote (other, h) = (other, h)

-- `DisconnectTabOwner`
unfoldable pub evict : String → Hub → Hub
unfolding disconnect_tab_owner
evict tab h = let (conns, m) = disconnect_tab_owner tab h.manager in close conns (with_manager m h)

pub record TabCommand : Type 0 where
  pub type : String
  pub session_id : String
  pub direction : String
  pub layout : LayoutNode
  pub name : String

module _ (generate_id : ℕ → String) (pty_start : String → Option ℕ)
    (marshal_state : StateFile → Bytes) where
  abbrev pub save : Hub → Hub
  save h = record h { disk = save_state marshal_state h.manager h.disk }

  -- A new client with a token of its own, where the check or the choice has left the tab free.
  unfoldable pub register : String → ℕ → Phase × Hub → Phase × Hub
  unfolding register_tab_client
  register tab conn (free, h) =
      let token = generate_id h.manager.generated in
      let client : TabClient = record { conn = conn; token = token } in
      let counted = record (h.manager) { generated = h.manager.generated + 1 } in
      (owning token, with_manager (register_tab_client tab client counted) h)
  register tab conn (other, h) = (other, h)

  -- A new connection, up to its read loop or its wait for a choice.
  unfoldable pub open_tab : String → String → ℕ → Bool → Hub → Phase × Hub
  unfolding admit register greet
  open_tab tab resume conn wrote h =
      greet tab conn wrote (register tab conn (admit tab resume conn wrote h))

  -- The sessions are replaced, or the page is told why not.
  unfoldable pub replaced : String → ℕ → Hub → Result LayoutNode × Manager → Phase × Hub
  unfolding evict
  replaced tab conn h (err e, m) =
      (gone, close (conn ∷ []) (send conn (error e) (with_manager m h)))
  replaced tab conn h (ok layout, m) = (free, evict tab (save (with_manager m h)))

  unfoldable pub choose : String → ℕ → Option String → ℕ → Hub → Phase × Hub
  unfolding evict replaced replace_tab_sessions
  choose tab conn none now h = (gone, close (conn ∷ []) h)
  choose tab conn (some type) now h =
      if str_eq type "takeover"
      then (free, evict tab h)
      else if str_eq type "new"
      then replaced tab conn h (replace_tab_sessions generate_id pty_start tab now h.manager)
      else (gone, close (conn ∷ []) h)

  -- The choice of a page that was told of the conflict.
  unfoldable pub resolve : String → ℕ → Option String → ℕ → Bool → Hub → Phase × Hub
  unfolding choose register greet
  resolve tab conn type now wrote h =
      greet tab conn wrote (register tab conn (choose tab conn type now h))

  unfoldable pub after_split : String → ℕ → TabCommand → Hub → Result String × Manager → Hub
  unfolding broadcast_tab_event lookup
  after_split tab conn cmd h (err e, m) = send conn (error e) (with_manager m h)
  after_split tab conn cmd h (ok new, m) =
      let h' = save (with_manager m h) in
      elim (lookup tab m.tabs) [
        | none ↦ h'
        | some t ↦
            broadcast_tab_event tab (session_created new cmd.session_id cmd.direction t.layout) h'
      ]

  unfoldable pub after_close : String → ℕ → TabCommand → Hub → Result LayoutNode × Manager → Hub
  unfolding broadcast_tab_event
  after_close tab conn cmd h (err e, m) = send conn (error e) (with_manager m h)
  after_close tab conn cmd h (ok layout, m) =
      broadcast_tab_event tab (pane_closed cmd.session_id layout) (save (with_manager m h))

  -- One round of the read loop. The errors of `UpdateTab` are not looked at.
  unfoldable pub command : String → ℕ → ℕ → Option TabCommand → Hub → Hub
  unfolding after_split after_close split_pane close_pane update_tab
  command tab conn now none h = h
  command tab conn now (some cmd) h =
      if str_eq cmd.type "ping"
      then send conn pong h
      else if str_eq cmd.type "split"
      then after_split tab conn cmd h
          (split_pane generate_id pty_start tab cmd.session_id cmd.direction now h.manager)
      else if str_eq cmd.type "close_pane"
      then after_close tab conn cmd h
          (close_pane generate_id pty_start tab cmd.session_id now h.manager)
      else if str_eq cmd.type "update_layout"
      then (if is_absent cmd.layout
          then h
          else save (with_manager (update_tab tab "" cmd.layout now h.manager).1 h))
      else if str_eq cmd.type "rename"
      then (if str_eq cmd.name ""
          then h
          else save (with_manager (update_tab tab cmd.name absent now h.manager).1 h))
      else h
