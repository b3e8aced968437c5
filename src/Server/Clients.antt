-- ===== src/Server/Clients.antt =====
-- The operations of the registry that leave the tab connections alone.
use Prim.Native.String.{String}
use termulaa.Prelude.{
  ℕ, Bool, true, false, List, [], ◌∷◌, ◌++◌, Option, none, ◌≡◌, refl, ◌∙◌, arith, Bool-cases,
  Option-cases, inl, inr,
}
use termulaa.Dict.{lookup}
use termulaa.Layout.{
  LayoutNode, is_pane_of, has_session, split_layout_node, close_pane_in_layout,
  replace_all_sessions,
}
use termulaa.Manager.{
  Manager, Tab, Result, ok, err, delete_session, delete_sessions, create_session, spawn_session,
  default_session_cwd, default_session_size, update_tab, set_layout, with_name, put_session,
}
use termulaa.Manager.Panes.{
  values, place_split, finish_last, finish_close, finish_replace, finish_split, split_pane,
  close_pane, create_replacements, replace_tab_sessions,
}

abbrev pub SameClients : Manager → Manager → Type 0
SameClients m n = n.tab_clients ≡ m.tab_clients

delete_session-SameClients : (id : String) (m : Manager) → SameClients m (delete_session id m).1
unfolding delete_session
delete_session-SameClients id m = ground arith

delete_sessions-SameClients :
    (ids : List String) (m : Manager) → SameClients m (delete_sessions ids m)
unfolding delete_sessions
delete_sessions-SameClients [] m = refl
delete_sessions-SameClients (id ∷ ids) m =
    delete_sessions-SameClients ids (delete_session id m).1 ∙ delete_session-SameClients id m

set_layout-SameClients :
    (id : String) (tab : Tab) (layout : LayoutNode) (now : ℕ) (m : Manager)
    → SameClients m (set_layout id tab layout now m).1
unfolding set_layout
set_layout-SameClients id tab layout now m = ground arith

pub update_tab-SameClients :
    (id name : String) (layout : LayoutNode) (now : ℕ) (m : Manager)
    → SameClients m (update_tab id name layout now m).1
unfolding update_tab
update_tab-SameClients id name layout now m = elim (Option-cases (lookup id m.tabs)) [
  | inl missing ↦ rw (missing, update_tab) refl
  | inr (tab, found) ↦
      rw (found, update_tab) (set_layout-SameClients id (with_name name tab) layout now m)
]

place_split-SameClients :
    (id : String) (tab : Tab) (new : String) (now : ℕ) (m : Manager) (out : LayoutNode × Bool)
    → SameClients m (place_split id tab new now m out).1
unfolding place_split
place_split-SameClients id tab new now m (layout, false) = delete_session-SameClients new m
place_split-SameClients id tab new now m (layout, true) = refl

finish_last-SameClients :
    (id : String) (tab : Tab) (session : String) (now : ℕ) (out : Result String × Manager)
    → SameClients out.1 (finish_last id tab session now out).1
unfolding finish_last
finish_last-SameClients id tab session now (err e, m) = refl
finish_last-SameClients id tab session now (ok new, m) = delete_session-SameClients session _

finish_close-SameClients :
    (id : String) (tab : Tab) (session : String) (now : ℕ) (m : Manager) (out : LayoutNode × Bool)
    → SameClients m (finish_close id tab session now m out).1
unfolding finish_close
finish_close-SameClients id tab session now m (layout, false) = refl
finish_close-SameClients id tab session now m (layout, true) = delete_session-SameClients session _

finish_replace-SameClients :
    (id : String) (tab : Tab) (layout : LayoutNode) (now : ℕ) (out : Bool × Manager)
    → SameClients out.1 (finish_replace id tab layout now out).1
unfolding finish_replace
finish_replace-SameClients id tab layout now (false, m) = refl
finish_replace-SameClients id tab layout now (true, m) = delete_sessions-SameClients _ _

module _ (generate_id : ℕ → String) (pty_start : String → Option ℕ) where
  create_session-SameClients :
      (now : ℕ) (m : Manager) → SameClients m (create_session generate_id pty_start now m).1
  unfolding create_session
  create_session-SameClients now m = ground arith

  finish_split-SameClients :
      (id : String) (tab : Tab) (session direction : String) (now : ℕ)
      (out : Result String × Manager)
      → SameClients out.1 (finish_split generate_id pty_start id tab session direction now out).1
  unfolding finish_split
  finish_split-SameClients id tab session direction now (err e, m) = refl
  finish_split-SameClients id tab session direction now (ok new, m) =
      place_split-SameClients id tab new now m (split_layout_node tab.layout session new direction)

  pub split_pane-SameClients :
      (id session direction : String) (now : ℕ) (m : Manager)
      → SameClients m (split_pane generate_id pty_start id session direction now m).1
  unfolding split_pane
  split_pane-SameClients id session direction now m = elim (Option-cases (lookup id m.tabs)) [
    | inl missing ↦ rw (missing, split_pane) refl
    | inr (tab, found) ↦ elim (Bool-cases (has_session session tab.layout)) [
      | inr absent ↦ rw (found, absent, split_pane) refl
      | inl there ↦
          let made = create_session generate_id pty_start now m in
          rw (found, there, split_pane)
            (finish_split-SameClients id tab session direction now made
              ∙ create_session-SameClients now m)
    ]
  ]

  pub close_pane-SameClients :
      (id session : String) (now : ℕ) (m : Manager)
      → SameClients m (close_pane generate_id pty_start id session now m).1
  unfolding close_pane
  close_pane-SameClients id session now m = elim (Option-cases (lookup id m.tabs)) [
    | inl missing ↦ rw (missing, close_pane) refl
    | inr (tab, found) ↦ elim (Bool-cases (has_session session tab.layout)) [
      | inr absent ↦ rw (found, absent, close_pane) refl
      | inl there ↦ elim (Bool-cases (is_pane_of session tab.layout)) [
        | inl only ↦
            rw (found, there, only, close_pane)
              (finish_last-SameClients id tab session now
                  (create_session generate_id pty_start now m)
                ∙ create_session-SameClients now m)
        | inr among ↦
            rw (found, there, among, close_pane)
              (finish_close-SameClients id tab session now m
                (close_pane_in_layout tab.layout session))
      ]
    ]
  ]

  create_replacements-SameClients :
      (ids created : List String) (now : ℕ) (m : Manager)
      → SameClients m (create_replacements generate_id pty_start ids created now m).1
  unfolding create_replacements
  create_replacements-SameClients [] created now m = refl
  create_replacements-SameClients (id ∷ ids) created now m =
      let (cols, rows) = default_session_size m in
      elim (Option-cases
        (spawn_session m (pty_start id) id (default_session_cwd m) cols rows now none)) [
          | inl failed ↦ rw (failed, create_replacements) (delete_sessions-SameClients created m)
          | inr (s, started) ↦
              rw (started, create_replacements)
                (create_replacements-SameClients ids (created ++ id ∷ []) now (put_session id s m))
        ]

  pub replace_tab_sessions-SameClients :
      (id : String) (now : ℕ) (m : Manager)
      → SameClients m (replace_tab_sessions generate_id pty_start id now m).1
  unfolding replace_tab_sessions
  replace_tab_sessions-SameClients id now m = elim (Option-cases (lookup id m.tabs)) [
    | inl missing ↦ rw (missing, replace_tab_sessions) refl
    | inr (tab, found) ↦
        let (layout, renamed) = replace_all_sessions generate_id tab.layout m.generated in
        let counted = record m { generated = renamed.generated } in
        let made =
          create_replacements generate_id pty_start (values renamed.mapping) [] now counted in
        rw (found, replace_tab_sessions)
          (finish_replace-SameClients id tab layout now made
            ∙ create_replacements-SameClients (values renamed.mapping) [] now counted)
  ]
