-- ===== src/Manager.antt =====
-- cmd/termulaa/manager.go: the registry of sessions and tabs, and cmd/termulaa/tabs.go: `Tab`.
-- Each method runs alone. Maps are association lists, and a loop over a map takes their order.
-- A connection is known by a number. Nothing is logged.
pub mod Owners
pub mod Count
pub mod Fresh
pub mod Backed
pub mod Requests
pub mod Safe
pub mod Disk
pub mod Panes
use Prim.Native.String.{String}
use text.Mathlib.Text.{◌==◌ as str_eq}
use termulaa.Prelude.{
  ℕ, ◌+◌, Bool, true, false, not, ◌&&◌, List, [], ◌∷◌, ◌++◌, Option, none, some, ◌==◌, ltb,
  if◌then◌else◌,
}
use termulaa.Dict.{insert, lookup, delete}
use termulaa.Layout.{
  LayoutNode, absent, node, pane_of, is_pane, session_id, walk_layout, session_ids, has_session,
  layout_matches_session_set,
}
use termulaa.Session.{
  Session, SessionMeta, default_scrollback_bytes, positive_or, new_session, kill,
}
use termulaa.Vterm.State.{Terminal}

pub record Tab : Type 0 where
  pub id : String
  pub name : String
  pub layout : LayoutNode
  pub created_at : ℕ
  pub last_active : ℕ

unfoldable pub new_tab : String → String → String → ℕ → Tab
new_tab id name session now = record {
  id = id;
  name = name;
  layout = pane_of session;
  created_at = now;
  last_active = now;
}

pub record TabInfo : Type 0 where
  pub pane_count : ℕ
  pub alive : Bool
  pub last_output : ℕ

abbrev pub later : ℕ → ℕ → ℕ
later a b = if ltb a b then b else a

-- The visit of `Info` on a node.
abbrev pub count_pane : List (String × Session) → LayoutNode → TabInfo → TabInfo
count_pane sessions n i =
    let counted = record i { pane_count = i.pane_count + 1 } in
    if not (is_pane n) then i else elim (lookup (session_id n) sessions) [
      | none ↦ counted
      | some s ↦ record counted {
        alive = if s.alive then true else i.alive;
        last_output = later i.last_output s.last_output;
      }
    ]

-- `Tab.Info`, without the fields that it copies.
unfoldable pub tab_info : List (String × Session) → Tab → TabInfo
unfolding walk_layout
tab_info sessions tab =
    walk_layout (count_pane sessions) tab.layout
      (record { pane_count = 0; alive = false; last_output = 0 })

-- `Config`, as far as the manager reads it. 0 stands for what is not positive.
pub record Config : Type 0 where
  pub cleanup_after : ℕ
  pub scrollback_bytes : ℕ
  pub default_cols : ℕ
  pub default_rows : ℕ

pub record TabClient : Type 0 where
  pub conn : ℕ
  pub token : String

-- `generated` counts the IDs generated; `home` is the home directory, and `shell` the resolved shell.
pub record Manager : Type 0 where
  pub sessions : List (String × Session)
  pub tabs : List (String × Tab)
  pub tab_clients : List (String × List TabClient)
  pub config : Config
  pub shell : String
  pub home : String
  pub generated : ℕ

-- `NewSessionManager`.
abbrev pub new_manager : Config → String → String → Manager
new_manager cfg shell home = record {
  sessions = [];
  tabs = [];
  tab_clients = [];
  config = cfg;
  shell = shell;
  home = home;
  generated = 0;
}

pub data Error : Type 0 where
  tab_not_found session_not_found invalid_layout spawn_failed : Error

pub data Result {ℓ} (A : Type ℓ) : Type ℓ where
  ok : A → Result A
  err : Error → Result A

abbrev pub scrollback_bytes : Manager → ℕ
scrollback_bytes m = positive_or default_scrollback_bytes m.config.scrollback_bytes

abbrev pub default_session_cwd : Manager → String
default_session_cwd m = if str_eq m.home "" then "/" else m.home

abbrev pub default_session_size : Manager → ℕ × ℕ
default_session_size m =
    (positive_or 80 m.config.default_cols, positive_or 24 m.config.default_rows)

-- `spawnSession` for a shell that starts with the PID given, if it does.
unfoldable pub spawn_session :
    Manager → Option ℕ → String → String → ℕ → ℕ → ℕ → Option Terminal → Option Session
unfolding new_session
spawn_session m started id cwd cols rows now carried =
    let (default_cols, default_rows) = default_session_size m in
    let info : SessionMeta = record {
      id = id;
      cwd = if str_eq cwd "" then default_session_cwd m else cwd;
      shell = m.shell;
      cols = positive_or default_cols cols;
      rows = positive_or default_rows rows;
      exit_code = 0;
      created_at = now;
      last_active = now;
    } in
    elim started [
      | none ↦ none
      | some pid ↦ some (new_session info pid (scrollback_bytes m) carried)
    ]

abbrev pub put_session : String → Session → Manager → Manager
put_session id s m = record m { sessions = insert id s m.sessions }

abbrev pub put_tab : String → Tab → Manager → Manager
put_tab id tab m = record m { tabs = insert id tab m.tabs }

-- Of a session that the registry has: killed, with its files removed.
unfoldable pub delete_session : String → Manager → Result (Unit {0}) × Manager
unfolding lookup delete
delete_session id m = elim (lookup id m.sessions) [
  | none ↦ (err session_not_found, m)
  | some s ↦ (ok tt, record m { sessions = delete id m.sessions })
]

unfoldable pub kill_session : String → Manager → Result (Unit {0}) × Manager
unfolding lookup insert kill
kill_session id m = elim (lookup id m.sessions) [
  | none ↦ (err session_not_found, m)
  | some s ↦ (ok tt, put_session id (kill s) m)
]

-- The errors of single deletions are only logged.
unfoldable pub delete_sessions : List String → Manager → Manager
unfolding delete_session
delete_sessions [] m = m
delete_sessions (id ∷ ids) m = delete_sessions ids (delete_session id m).1

abbrev pub is_absent : LayoutNode → Bool
is_absent absent = true
is_absent (node k id d r first second) = false

abbrev pub with_name : String → Tab → Tab
with_name name tab = record tab { name = if str_eq name "" then tab.name else name }

-- `UpdateTab` on the tab found, from the layout on.
unfoldable pub set_layout : String → Tab → LayoutNode → ℕ → Manager → Result (Unit {0}) × Manager
unfolding insert
set_layout id tab layout now m =
    if is_absent layout
    then (ok tt, put_tab id (record tab { last_active = now }) m)
    else if not (layout_matches_session_set layout (session_ids tab.layout))
    then (err invalid_layout, put_tab id tab m)
    else (ok tt, put_tab id (record tab { layout = layout; last_active = now }) m)

unfoldable pub update_tab : String → String → LayoutNode → ℕ → Manager → Result (Unit {0}) × Manager
unfolding lookup set_layout
update_tab id name layout now m = elim (lookup id m.tabs) [
  | none ↦ (err tab_not_found, m)
  | some tab ↦ set_layout id (with_name name tab) layout now m
]

module _ (generate_id : ℕ → String) (pty_start : String → Option ℕ) where
  -- The ID of the new session; when the shell does not start, only the ID is used up.
  unfoldable pub create_session : ℕ → Manager → Result String × Manager
  unfolding spawn_session insert
  create_session now m =
      let id = generate_id m.generated in
      let m' = record m { generated = m.generated + 1 } in
      let (cols, rows) = default_session_size m in
      elim (spawn_session m (pty_start id) id (default_session_cwd m) cols rows now none) [
        | none ↦ (err spawn_failed, m')
        | some s ↦ (ok id, put_session id s m')
      ]

  -- `cwd_exists` is whether the directory of the old session is still there.
  unfoldable pub revive_session : String → Bool → ℕ → Manager → Result String × Manager
  unfolding spawn_session insert lookup
  revive_session id cwd_exists now m = elim (lookup id m.sessions) [
    | none ↦ (err session_not_found, m)
    | some old ↦
        if old.alive
        then (ok id, m)
        else elim (spawn_session m (pty_start id) id
            (if cwd_exists then old.info.cwd else default_session_cwd m) old.info.cols old.info.rows
            now (some old.term)) [
              | none ↦ (err spawn_failed, m)
              | some s ↦ (ok id, put_session id s m)
            ]
  ]

  unfoldable pub finish_tab : String → ℕ → Result String × Manager → Result String × Manager
  unfolding insert new_tab
  finish_tab name now (err e, m) = (err e, m)
  finish_tab name now (ok session, m) =
      let id = generate_id m.generated in
      (ok id, put_tab id (new_tab id name session now) (record m { generated = m.generated + 1 }))

  unfoldable pub create_tab : String → ℕ → Manager → Result String × Manager
  unfolding finish_tab
  create_tab name now m = finish_tab name now (create_session now m)
