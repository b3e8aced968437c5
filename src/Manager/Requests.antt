-- ===== src/Manager/Requests.antt =====
-- The calls that clients make of the registry, one after the other.
use Prim.Native.String.{String}
use termulaa.Prelude.{ℕ, Bool, false, List, [], ◌∷◌, ◌++◌, Option, ◌≡◌, refl}
use termulaa.Layout.{LayoutNode}
use termulaa.Layout.Panes.{IsTree}
use termulaa.Manager.{
  Manager, TabClient, is_absent, create_tab, update_tab, kill_session, revive_session,
  delete_session,
}
use termulaa.Manager.Owners.{
  delete_tab, disconnect_tab_owner, resume_tab_client, register_tab_client, unregister_tab_client,
}
use termulaa.Manager.Count.{used}
use termulaa.Manager.Panes.{split_pane, close_pane, replace_tab_sessions}

pub data Request : Type 0 where
  tab_created : String → ℕ → Request
  tab_updated : String → String → LayoutNode → ℕ → Request
  tab_deleted : String → Bool → Request
  pane_split : String → String → String → ℕ → Request
  pane_closed : String → String → ℕ → Request
  sessions_replaced : String → ℕ → Request
  session_killed : String → Request
  session_revived : String → Bool → ℕ → Request
  session_deleted : String → Request
  owner_disconnected : String → Request
  client_resumed : String → String → ℕ → Request
  client_registered : String → TabClient → Request
  client_unregistered : String → ℕ → Request

-- What `UpdateTab` and `DeleteSession` do not test: the layout that a client sends is a tree, and no
-- pane names the session that it deletes.
abbrev pub IsAllowed : Request → Manager → Type 0
IsAllowed (tab_updated id name layout now) m = is_absent layout ≡ false → IsTree layout
IsAllowed (session_deleted id) m = used id m.tabs ≡ 0
IsAllowed r m = Unit {0}

module _ (generate_id : ℕ → String) (pty_start : String → Option ℕ) where
  unfoldable pub perform : Request → Manager → Manager
  perform (tab_created name now) m = (create_tab generate_id pty_start name now m).1
  perform (tab_updated id name layout now) m = (update_tab id name layout now m).1
  perform (tab_deleted id kill_sessions) m = (delete_tab id kill_sessions m).1
  perform (pane_split id session direction now) m =
      (split_pane generate_id pty_start id session direction now m).1
  perform (pane_closed id session now) m = (close_pane generate_id pty_start id session now m).1
  perform (sessions_replaced id now) m = (replace_tab_sessions generate_id pty_start id now m).1
  perform (session_killed id) m = (kill_session id m).1
  perform (session_revived id cwd_exists now) m =
      (revive_session generate_id pty_start id cwd_exists now m).1
  perform (session_deleted id) m = (delete_session id m).1
  perform (owner_disconnected tab) m = (disconnect_tab_owner tab m).1
  perform (client_resumed tab token conn) m = (resume_tab_client tab token conn m).1
  perform (client_registered tab c) m = register_tab_client tab c m
  perform (client_unregistered tab conn) m = unregister_tab_client tab conn m

  unfoldable pub perform_all : List Request → Manager → Manager
  unfolding perform
  perform_all [] m = m
  perform_all (r ∷ rs) m = perform_all rs (perform r m)

  -- Each call is allowed when its turn comes.
  abbrev pub AreAllowed : List Request → Manager → Type 0
  AreAllowed [] m = Unit {0}
  AreAllowed (r ∷ rs) m = IsAllowed r m × AreAllowed rs (perform r m)

  pub perform_all-append :
      (xs ys : List Request) (m : Manager)
      → perform_all (xs ++ ys) m ≡ perform_all ys (perform_all xs m)
  unfolding perform_all
  perform_all-append [] ys m = refl
  perform_all-append (x ∷ xs) ys m = perform_all-append xs ys (perform x m)

  pub AreAllowed-append :
      (xs ys : List Request) (m : Manager)
      → AreAllowed xs m
      → AreAllowed ys (perform_all xs m)
      → AreAllowed (xs ++ ys) m
  unfolding perform_all
  AreAllowed-append [] ys m h k = k
  AreAllowed-append (x ∷ xs) ys m h k = (h.0, AreAllowed-append xs ys (perform x m) h.1 k)
