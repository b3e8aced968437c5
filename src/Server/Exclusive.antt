-- ===== src/Server/Exclusive.antt =====
-- A tab has one owner, and a takeover leaves it to the page that asked.
use Prim.Native.String.{String}
use text.Mathlib.TextEquality.{eq_iff}
use termulaa.Prelude.{
  ℕ, Bool, true, [], ◌∷◌, ◌++◌, Option, some, ◌≡◌, ap, arith, Option-cases, inl, inr,
}
use termulaa.Dict.{lookup, get-insert}
use termulaa.Manager.{Manager, TabClient}
use termulaa.Manager.Owners.{clients_of, register_tab_client, holds_token, can_attach_session}
use termulaa.Manager.Disk.{StateFile}
use termulaa.Server.{Bytes}
use termulaa.Server.TabSocket.{Hub, Phase, TabCommand, hang_up, open_tab, resolve, command}
use termulaa.Server.OneOwner.{HasOneOwner, same-HasOneOwner, unregister-HasOneOwner}
use termulaa.Server.Ownership.{
  admit-Cleared, greet-HasOneOwner, register-Cleared, choose-Cleared, command-SameClients,
}

-- Of a tab without an owner, one client is registered.
pub alone-attaches :
    (tab session token : String) (c : TabClient) (m : Manager)
    → clients_of tab m ≡ []
    → can_attach_session tab session token (register_tab_client tab c m) ≡ true
    → token ≡ c.token
unfolding can_attach_session register_tab_client holds_token
alone-attaches tab session token c m e h =
    let only : clients_of tab (register_tab_client tab c m) ≡ c ∷ [] = ground (
      arith,
      get-insert [] tab tab (clients_of tab m ++ c ∷ []) m.tab_clients,
      eq_iff tab tab,
      ap (λ cs. cs ++ c ∷ []) e,
    ) in
    elim (Option-cases (lookup tab m.tabs)) [
      | inl missing ↦ ground (arith, missing, h)
      | inr (t, found) ↦ ground (arith, found, only, eq_iff c.token token, h)
    ]

module _ (generate_id : ℕ → String) (pty_start : String → Option ℕ)
    (marshal_state : StateFile → Bytes) where
  -- The handlers of tab connections, of any tabs, one piece after the other. `free` stands for the
  -- moment between a check and a registration, which no piece ends in.
  pub data Reaches (h : Hub) : Hub → Type 0 where
    start : Reaches h h
    opened :
        {k : Hub} (tab resume : String) (conn : ℕ) (wrote : Bool)
        → Reaches h k
        → Reaches h (open_tab generate_id pty_start marshal_state tab resume conn wrote k).1
    resolved :
        {k : Hub} (tab : String) (conn : ℕ) (type : Option String) (now : ℕ) (wrote : Bool)
        → Reaches h k
        → Reaches h (resolve generate_id pty_start marshal_state tab conn type now wrote k).1
    commanded :
        {k : Hub} (tab : String) (conn now : ℕ) (cmd : Option TabCommand)
        → Reaches h k
        → Reaches h (command generate_id pty_start marshal_state tab conn now cmd k)
    ended : {k : Hub} (tab : String) (conn : ℕ) → Reaches h k → Reaches h (hang_up tab conn k)

  -- When the check for an owner and the registration that follows it are not interrupted, no tab ever
  -- has two owners, whatever pages open, choose, command and leave in whatever order.
  pub Reaches-HasOneOwner :
      {h k : Hub} → Reaches h k → HasOneOwner h.manager → HasOneOwner k.manager
  unfolding open_tab resolve hang_up
  Reaches-HasOneOwner start o = o
  Reaches-HasOneOwner (opened {k} tab resume conn wrote r) o = greet-HasOneOwner tab conn wrote _ (
      register-Cleared generate_id pty_start marshal_state tab conn _
        (admit-Cleared tab resume conn wrote k (Reaches-HasOneOwner r o)))
  Reaches-HasOneOwner (resolved {k} tab conn type now wrote r) o =
      greet-HasOneOwner tab conn wrote _ (
        register-Cleared generate_id pty_start marshal_state tab conn _ (
          choose-Cleared generate_id pty_start marshal_state tab conn type now k
            (Reaches-HasOneOwner r o)))
  Reaches-HasOneOwner (commanded {k} tab conn now cmd r) o =
      same-HasOneOwner k.manager
        (command generate_id pty_start marshal_state tab conn now cmd k).manager
        (command-SameClients generate_id pty_start marshal_state tab conn now cmd k)
        (Reaches-HasOneOwner r o)
  Reaches-HasOneOwner (ended {k} tab conn r) o =
      unregister-HasOneOwner tab conn k.manager (Reaches-HasOneOwner r o)

  -- The page is told that it is connected.
  abbrev pub take_over : String → ℕ → ℕ → Hub → Phase × Hub
  take_over tab conn now h =
      resolve generate_id pty_start marshal_state tab conn (some "takeover") now true h
