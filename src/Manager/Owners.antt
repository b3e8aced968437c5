-- ===== src/Manager/Owners.antt =====
-- cmd/termulaa/manager.go: the tab connections, whose tokens let pane connections attach.
use Prim.Native.String.{String}
use text.Mathlib.Text.{◌==◌ as str_eq}
use termulaa.Prelude.{
  ℕ, Bool, false, ◌&&◌, ◌||◌, List, [], ◌∷◌, ◌++◌, Option, none, some, ◌==◌, if◌then◌else◌, length,
  ltb,
}
use termulaa.Dict.{insert, get, lookup, delete}
use termulaa.Layout.{has_session}
use termulaa.Session.{Session, disconnect_clients}
use termulaa.Manager.{Manager, TabClient, Result, ok, err, delete_sessions, tab_not_found}
use termulaa.Layout.{session_ids}

abbrev pub clients_of : String → Manager → List TabClient
clients_of tab m = get [] tab m.tab_clients

unfoldable pub is_tab_active : String → Manager → Bool
unfolding get
is_tab_active tab m = ltb 0 (length (clients_of tab m))

abbrev pub tokens_of : List TabClient → List String
tokens_of [] = []
tokens_of (c ∷ cs) = c.token ∷ tokens_of cs

abbrev pub conns_of : List TabClient → List ℕ
conns_of [] = []
conns_of (c ∷ cs) = c.conn ∷ conns_of cs

abbrev pub disconnect_in : String → List String → List (String × Session) → List (String × Session)
disconnect_in tab tokens [] = []
disconnect_in tab tokens ((id, s) ∷ m) =
    (id, (disconnect_clients tab tokens s).0) ∷ disconnect_in tab tokens m

-- `DisconnectTabOwner`: the connections that it closes, and the manager.
unfoldable pub disconnect_tab_owner : String → Manager → List ℕ × Manager
unfolding get delete
disconnect_tab_owner tab m =
    let clients = clients_of tab m in
    (
      conns_of clients,
      record m {
        tab_clients = delete tab m.tab_clients;
        sessions = disconnect_in tab (tokens_of clients) m.sessions;
      },
    )

-- The list with the first client that holds the token replaced by one on `conn`, and the connection
-- that it had.
unfoldable pub swap_holder : String → ℕ → List TabClient → Option (ℕ × List TabClient)
swap_holder token conn [] = none
swap_holder token conn (c ∷ cs) =
    let rest = swap_holder token conn cs in
    if str_eq c.token token
    then some (c.conn, record c { conn = conn } ∷ cs)
    else elim rest [ none ↦ none | some (old, cs') ↦ some (old, c ∷ cs') ]

-- `ResumeTabClient`: the connection that is closed, if the token is held.
unfoldable pub resume_tab_client : String → String → ℕ → Manager → Option ℕ × Manager
unfolding swap_holder insert get
resume_tab_client tab token conn m =
    if str_eq token "" then (none, m) else elim (swap_holder token conn (clients_of tab m)) [
      | none ↦ (none, m)
      | some (old, cs) ↦ (some old, record m { tab_clients = insert tab cs m.tab_clients })
    ]

unfoldable pub register_tab_client : String → TabClient → Manager → Manager
unfolding insert get
register_tab_client tab c m = record m {
  tab_clients = insert tab (clients_of tab m ++ c ∷ []) m.tab_clients;
}

-- The client is known by its connection.
unfoldable pub remove_conn : ℕ → List TabClient → List TabClient
remove_conn conn [] = []
remove_conn conn (c ∷ cs) = if c.conn == conn then cs else c ∷ remove_conn conn cs

unfoldable pub unregister_tab_client : String → ℕ → Manager → Manager
unfolding insert get delete remove_conn
unregister_tab_client tab conn m =
    let left = remove_conn conn (clients_of tab m) in
    record m {
      tab_clients =
          if length left == 0 then delete tab m.tab_clients else insert tab left m.tab_clients;
    }

unfoldable pub holds_token : String → List TabClient → Bool
holds_token token [] = false
holds_token token (c ∷ cs) = str_eq c.token token || holds_token token cs

unfoldable pub can_attach_session : String → String → String → Manager → Bool
unfolding lookup get holds_token
can_attach_session tab session token m = elim (lookup tab m.tabs) [
  | none ↦ false
  | some t ↦ has_session session t.layout && holds_token token (clients_of tab m)
]

-- `DeleteTab`: the connections that it closes, and the manager.
unfoldable pub delete_tab : String → Bool → Manager → Result (List ℕ) × Manager
unfolding lookup delete disconnect_tab_owner delete_sessions
delete_tab id kill_sessions m = elim (lookup id m.tabs) [
  | none ↦ (err tab_not_found, m)
  | some tab ↦
      let (closed, m') = disconnect_tab_owner id (record m { tabs = delete id m.tabs }) in
      (ok closed, if kill_sessions then delete_sessions (session_ids tab.layout) m' else m')
]
