-- ===== src/Manager/Panes.antt =====
-- cmd/termulaa/manager.go: the operations of a tab that create and delete sessions.
-- `SaveState`, which each calls at its end, changes only files and stands in Disk.
use Prim.Native.String.{String}
use termulaa.Prelude.{
  ℕ, Bool, true, false, not, List, [], ◌∷◌, ◌++◌, Option, none, some, if◌then◌else◌,
}
use termulaa.Dict.{lookup}
use termulaa.Layout.{
  LayoutNode, pane_of, is_pane_of, has_session, session_ids, split_layout_node,
  close_pane_in_layout, replace_all_sessions,
}
use termulaa.Session.{Session}
use termulaa.Manager.{
  Manager, Tab, Result, ok, err, tab_not_found, session_not_found, spawn_failed, put_tab,
  put_session, create_session, delete_session, delete_sessions, spawn_session, default_session_cwd,
  default_session_size,
}

abbrev pub with_layout : LayoutNode → ℕ → Tab → Tab
with_layout layout now tab = record tab { layout = layout; last_active = now }

abbrev pub values : List (String × String) → List String
values [] = []
values ((old, new) ∷ m) = new ∷ values m

-- What `SplitPane` does with the layout that `splitLayoutNode` returns.
unfoldable pub place_split :
    String → Tab → String → ℕ → Manager → LayoutNode × Bool → Result String × Manager
place_split id tab new now m (layout, false) = (err session_not_found, (delete_session new m).1)
place_split id tab new now m (layout, true) = (ok new, put_tab id (with_layout layout now tab) m)

-- The last pane is replaced by one with a new session.
unfoldable pub finish_last :
    String → Tab → String → ℕ → Result String × Manager → Result LayoutNode × Manager
finish_last id tab session now (err e, m) = (err e, m)
finish_last id tab session now (ok new, m) = (
  ok (pane_of new),
  (delete_session session (put_tab id (with_layout (pane_of new) now tab) m)).1,
)

-- What `ClosePane` does with the layout that `closePaneInLayout` returns.
unfoldable pub finish_close :
    String → Tab → String → ℕ → Manager → LayoutNode × Bool → Result LayoutNode × Manager
finish_close id tab session now m (layout, false) = (err session_not_found, m)
finish_close id tab session now m (layout, true) =
    (ok layout, (delete_session session (put_tab id (with_layout layout now tab) m)).1)

-- What `ReplaceTabSessions` does when the sessions have been made, or not.
unfoldable pub finish_replace :
    String → Tab → LayoutNode → ℕ → Bool × Manager → Result LayoutNode × Manager
finish_replace id tab layout now (false, m) = (err spawn_failed, m)
finish_replace id tab layout now (true, m) = (
  ok layout,
  delete_sessions (session_ids tab.layout) (put_tab id (with_layout layout now tab) m),
)

module _ (generate_id : ℕ → String) (pty_start : String → Option ℕ) where
  -- `SplitPane` on the tab found, from the new session on.
  unfoldable pub finish_split :
      String → Tab → String → String → ℕ → Result String × Manager → Result String × Manager
  unfolding place_split
  finish_split id tab session direction now (err e, m) = (err e, m)
  finish_split id tab session direction now (ok new, m) =
      place_split id tab new now m (split_layout_node tab.layout session new direction)

  unfoldable pub split_pane : String → String → String → ℕ → Manager → Result String × Manager
  unfolding lookup finish_split
  split_pane id session direction now m = elim (lookup id m.tabs) [
    | none ↦ (err tab_not_found, m)
    | some tab ↦
        if not (has_session session tab.layout)
        then (err session_not_found, m)
        else finish_split id tab session direction now (create_session generate_id pty_start now m)
  ]

  unfoldable pub close_pane : String → String → ℕ → Manager → Result LayoutNode × Manager
  unfolding lookup finish_last finish_close
  close_pane id session now m = elim (lookup id m.tabs) [
    | none ↦ (err tab_not_found, m)
    | some tab ↦
        if not (has_session session tab.layout)
        then (err session_not_found, m)
        else if is_pane_of session tab.layout
        then finish_last id tab session now (create_session generate_id pty_start now m)
        else finish_close id tab session now m (close_pane_in_layout tab.layout session)
  ]

  -- Sessions for the new IDs. When a shell does not start, those made are deleted again.
  unfoldable pub create_replacements : List String → List String → ℕ → Manager → Bool × Manager
  create_replacements [] created now m = (true, m)
  create_replacements (id ∷ ids) created now m =
      let (cols, rows) = default_session_size m in
      let rest =
        λ (s : Session). create_replacements ids (created ++ id ∷ []) now (put_session id s m) in
      elim (spawn_session m (pty_start id) id (default_session_cwd m) cols rows now none) [
        | none ↦ (false, delete_sessions created m)
        | some s ↦ rest s
      ]

  unfoldable pub replace_tab_sessions : String → ℕ → Manager → Result LayoutNode × Manager
  unfolding lookup finish_replace
  replace_tab_sessions id now m = elim (lookup id m.tabs) [
    | none ↦ (err tab_not_found, m)
    | some tab ↦
        let (layout, renamed) = replace_all_sessions generate_id tab.layout m.generated in
        let counted = record m { generated = renamed.generated } in
        finish_replace id tab layout now
          (create_replacements (values renamed.mapping) [] now counted)
  ]
