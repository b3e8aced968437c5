-- ===== src/Server/Ownership.antt =====
-- Who owns a tab, along the pieces of its connections' handlers.
use Prim.Native.String.{String}
use text.Mathlib.Text.{◌==◌ as str_eq}
use text.Mathlib.TextEquality.{eq_iff}
use termulaa.Prelude.{
  ℕ, ◌+◌, Bool, true, false, List, [], ◌∷◌, Option, none, some, ◌≡◌, refl, arith, ltb, length,
  Bool-cases, Option-cases, inl, inr,
}
use termulaa.Dict.{lookup, get-delete}
use termulaa.Layout.{LayoutNode, absent}
use termulaa.Manager.{Manager, Result, ok, err}
use termulaa.Manager.Owners.{
  clients_of, conns_of, is_tab_active, disconnect_tab_owner, resume_tab_client,
}
use termulaa.Manager.Panes.{split_pane, close_pane, replace_tab_sessions}
use termulaa.Manager.Disk.{StateFile}
use termulaa.Server.{Bytes, is_valid_id}
use termulaa.Server.TabSocket.{
  Hub, Phase, refused, free, waiting, gone, crashed, owning, TabCommand, admit, hang_up, greet,
  evict, register, replaced, choose, after_split, after_close, command, broadcast_tab_event,
  send_each, send, TabMessage, session_created, pane_closed, save, with_manager,
}
use termulaa.Server.Clients.{
  SameClients, update_tab-SameClients, split_pane-SameClients, close_pane-SameClients,
  replace_tab_sessions-SameClients,
}
use termulaa.Server.OneOwner.{
  HasOneOwner, same-HasOneOwner, delete-HasOneOwner, unregister-HasOneOwner, resume-HasOneOwner,
  register-HasOneOwner, no_clients,
}

pub evict-free : (tab : String) (h : Hub) → clients_of tab (evict tab h).manager ≡ []
unfolding evict disconnect_tab_owner
evict-free tab h = ground (arith, get-delete [] tab tab h.manager.tab_clients, eq_iff tab tab)

abbrev pub is_free : Phase → Bool
is_free free = true
is_free _ = false

-- What the first part of a handler leaves: where the tab is free, it has no owner.
pub record Cleared (tab : String) (out : Phase × Hub) : Type 0 where
  pub one_owner : HasOneOwner out.1.manager
  pub unowned : is_free out.0 ≡ true → clients_of tab out.1.manager ≡ []

evict-Cleared : (tab : String) (h : Hub) → HasOneOwner h.manager → Cleared tab (free, evict tab h)
unfolding evict disconnect_tab_owner
evict-Cleared tab h o = record {
  one_owner = delete-HasOneOwner tab h.manager o;
  unowned = λ e. evict-free tab h;
}

pub admit-Cleared :
    (tab resume : String) (conn : ℕ) (wrote : Bool) (h : Hub)
    → HasOneOwner h.manager
    → Cleared tab (admit tab resume conn wrote h)
unfolding admit is_tab_active
admit-Cleared tab resume conn wrote h o = elim (Bool-cases (is_valid_id tab)) [
  | inr bad ↦ rw bad (record { one_owner = o; unowned = λ e. cc })
  | inl valid ↦ elim (Option-cases (lookup tab h.manager.tabs)) [
    | inl missing ↦ rw (valid, missing) (record { one_owner = o; unowned = λ e. cc })
    | inr (t, found) ↦ elim (Option-cases (resume_tab_client tab resume conn h.manager).0) [
      | inr (previous, held) ↦
          rw (valid, found, held)
            (record {
              one_owner = resume-HasOneOwner tab resume conn h.manager o;
              unowned = λ e. cc;
            })
      | inl unheld ↦ elim (Bool-cases (ltb 0 (length (clients_of tab h.manager)))) [
        | inr empty ↦
            rw (valid, found, unheld, empty)
              (record { one_owner = o; unowned = λ e. no_clients (clients_of tab h.manager) empty })
        | inl active ↦ elim (Bool-cases wrote) [
          | inl told ↦
              rw (valid, found, unheld, active, told) (record { one_owner = o; unowned = λ e. cc })
          | inr lost ↦
              rw (valid, found, unheld, active, lost) (record { one_owner = o; unowned = λ e. cc })
        ]
      ]
    ]
  ]
]

pub greet-HasOneOwner :
    (tab : String) (conn : ℕ) (wrote : Bool) (out : Phase × Hub)
    → HasOneOwner out.1.manager
    → HasOneOwner (greet tab conn wrote out).1.manager
unfolding greet hang_up
greet-HasOneOwner tab conn wrote (owning token, h) o =
    elim (Option-cases (lookup tab h.manager.tabs)) [
      | inl missing ↦ rw (missing, greet) (unregister-HasOneOwner tab conn h.manager o)
      | inr (t, found) ↦ elim (Bool-cases wrote) [
        | inl told ↦ rw (found, told, greet) o
        | inr lost ↦ rw (found, lost, greet) (unregister-HasOneOwner tab conn h.manager o)
      ]
    ]
greet-HasOneOwner tab conn wrote (refused code, h) o = o
greet-HasOneOwner tab conn wrote (free, h) o = o
greet-HasOneOwner tab conn wrote (waiting, h) o = o
greet-HasOneOwner tab conn wrote (gone, h) o = o
greet-HasOneOwner tab conn wrote (crashed, h) o = o

send_each-manager :
    (cs : List ℕ) (msg : TabMessage) (h : Hub) → (send_each cs msg h).manager ≡ h.manager
send_each-manager [] msg h = refl
send_each-manager (c ∷ cs) msg h = send_each-manager cs msg (send c msg h)

broadcast-manager :
    (tab : String) (msg : TabMessage) (h : Hub)
    → (broadcast_tab_event tab msg h).manager ≡ h.manager
unfolding broadcast_tab_event
broadcast-manager tab msg h = send_each-manager (conns_of (clients_of tab h.manager)) msg h

module _ (generate_id : ℕ → String) (pty_start : String → Option ℕ)
    (marshal_state : StateFile → Bytes) where
  pub register-Cleared :
      (tab : String) (conn : ℕ) (out : Phase × Hub)
      → Cleared tab out
      → HasOneOwner (register generate_id pty_start marshal_state tab conn out).1.manager
  unfolding register
  register-Cleared tab conn (free, h) c =
      register-HasOneOwner tab _ (record (h.manager) { generated = h.manager.generated + 1 })
        c.one_owner (c.unowned refl)
  register-Cleared tab conn (owning token, h) c = c.one_owner
  register-Cleared tab conn (refused code, h) c = c.one_owner
  register-Cleared tab conn (waiting, h) c = c.one_owner
  register-Cleared tab conn (gone, h) c = c.one_owner
  register-Cleared tab conn (crashed, h) c = c.one_owner

  replaced-Cleared :
      (tab : String) (conn : ℕ) (h : Hub) (out : Result LayoutNode × Manager)
      → HasOneOwner out.1
      → Cleared tab (replaced generate_id pty_start marshal_state tab conn h out)
  unfolding replaced
  replaced-Cleared tab conn h (err e, m) o = record { one_owner = o; unowned = λ f. cc }
  replaced-Cleared tab conn h (ok layout, m) o =
      evict-Cleared tab (save generate_id pty_start marshal_state (with_manager m h)) o

  pub choose-Cleared :
      (tab : String) (conn : ℕ) (type : Option String) (now : ℕ) (h : Hub)
      → HasOneOwner h.manager
      → Cleared tab (choose generate_id pty_start marshal_state tab conn type now h)
  unfolding choose
  choose-Cleared tab conn none now h o = record { one_owner = o; unowned = λ e. cc }
  choose-Cleared tab conn (some type) now h o = elim (Bool-cases (str_eq type "takeover")) [
    | inl takes ↦ rw (takes, choose) (evict-Cleared tab h o)
    | inr keeps ↦ elim (Bool-cases (str_eq type "new")) [
      | inr other ↦ rw (keeps, other, choose) (record { one_owner = o; unowned = λ e. cc })
      | inl renews ↦
          let m = replace_tab_sessions generate_id pty_start tab now h.manager in
          let same = replace_tab_sessions-SameClients generate_id pty_start tab now h.manager in
          rw (keeps, renews, choose)
            (replaced-Cleared tab conn h m (same-HasOneOwner h.manager m.1 same o))
    ]
  ]

  after_split-manager :
      (tab : String) (conn : ℕ) (cmd : TabCommand) (h : Hub) (out : Result String × Manager)
      → (after_split generate_id pty_start marshal_state tab conn cmd h out).manager ≡ out.1
  unfolding after_split
  after_split-manager tab conn cmd h (err e, m) = refl
  after_split-manager tab conn cmd h (ok new, m) = elim (Option-cases (lookup tab m.tabs)) [
    | inl missing ↦ rw (missing, after_split) refl
    | inr (t, found) ↦
        rw (found, after_split)
          (broadcast-manager tab (session_created new cmd.session_id cmd.direction t.layout)
            (save generate_id pty_start marshal_state (with_manager m h)))
  ]

  after_close-manager :
      (tab : String) (conn : ℕ) (cmd : TabCommand) (h : Hub) (out : Result LayoutNode × Manager)
      → (after_close generate_id pty_start marshal_state tab conn cmd h out).manager ≡ out.1
  unfolding after_close
  after_close-manager tab conn cmd h (err e, m) = refl
  after_close-manager tab conn cmd h (ok layout, m) =
      broadcast-manager tab (pane_closed cmd.session_id layout)
        (save generate_id pty_start marshal_state (with_manager m h))

  pub command-SameClients :
      (tab : String) (conn now : ℕ) (cmd : Option TabCommand) (h : Hub)
      → SameClients h.manager
          (command generate_id pty_start marshal_state tab conn now cmd h).manager
  unfolding command
  command-SameClients tab conn now none h = refl
  command-SameClients tab conn now (some cmd) h =
      let m = h.manager in
      let split = split_pane generate_id pty_start tab cmd.session_id cmd.direction now m in
      let closed = close_pane generate_id pty_start tab cmd.session_id now m in
      ground (
        arith,
        after_split-manager tab conn cmd h split,
        split_pane-SameClients generate_id pty_start tab cmd.session_id cmd.direction now m,
        after_close-manager tab conn cmd h closed,
        close_pane-SameClients generate_id pty_start tab cmd.session_id now m,
        update_tab-SameClients tab "" cmd.layout now m,
        update_tab-SameClients tab cmd.name absent now m,
      )
