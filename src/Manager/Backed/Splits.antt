-- ===== src/Manager/Backed/Splits.antt =====
-- The invariant of the registry under `SplitPane` and `ClosePane`.
use Prim.Native.String.{String}
use termulaa.Prelude.{
  ℕ, Bool, [], ◌∷◌, Option, some, ◌≡◌, ◌≢◌, ap, arith, Bool-cases, Option-cases, inl, inr,
}
use text.Mathlib.TextEquality.{eq_iff}
use termulaa.Dict.{lookup}
use termulaa.Layout.{LayoutNode, pane_of, is_pane_of, has_session}
use termulaa.Layout.Panes.{panes, leaf}
use termulaa.Layout.Split.{SplitResult, did, did_not, split_layout_node-SplitResult}
use termulaa.Layout.Close as Close
use termulaa.Layout.Close.{CloseResult, close_pane_in_layout-CloseResult, is_pane_of-panes}
use termulaa.Session.{Session}
use termulaa.Manager.{Tab, Manager, Result, put_session, put_tab}
use termulaa.Layout.Count.{count, once}
use termulaa.Manager.Count.{used-insert, used-lookup, count-Inserted, count-Removed}
use termulaa.Manager.Fresh.{IsInjective}
use termulaa.Manager.Panes.{
  with_layout, place_split, finish_split, split_pane, finish_last, finish_close, close_pane,
}
use termulaa.Manager.Backed.{lookup-IsTree, Backed, put_tab-Backed, delete_session-Backed}
use termulaa.Manager.Backed.Creates.{
  counted, Created, made, not_made, create_session-Created, counted-Backed, made-Backed, made_fits,
  next_unused,
}

module _ (generate_id : ℕ → String) (pty_start : String → Option ℕ) where
  -- The manager with the session that `CreateSession` makes.
  abbrev made_in : Manager → Session → Manager
  made_in m s = put_session (generate_id m.generated) s (counted generate_id pty_start m)

  place_split-Backed :
      (id session : String) (tab : Tab) (now : ℕ) (m : Manager) (s : Session)
      {x : LayoutNode × Bool}
      → IsInjective generate_id
      → Backed generate_id m
      → lookup id m.tabs ≡ some tab
      → SplitResult session (generate_id m.generated) tab.layout x
      → Backed generate_id (place_split id tab (generate_id m.generated) now (made_in m s) x).1
  unfolding place_split
  place_split-Backed id session tab now m s inj b found (did tree i) =
      put_tab-Backed generate_id (made_in m s) id tab _
        (made-Backed generate_id pty_start m s inj b) found tree
        (λ x. omega (
          arith,
          made_fits generate_id pty_start m s x b,
          count-Inserted x session (generate_id m.generated) i,
        ))
  place_split-Backed id session tab now m s inj b found (did_not absent_pane) =
      (delete_session-Backed generate_id (made_in m s) (generate_id m.generated)
        (made-Backed generate_id pty_start m s inj b) (next_unused generate_id pty_start m b)).0

  finish_split-Backed :
      (id session direction : String) (tab : Tab) (now : ℕ) (m : Manager)
      {x : Result String × Manager}
      → IsInjective generate_id
      → ((k : ℕ) → generate_id k ≢ "")
      → Backed generate_id m
      → lookup id m.tabs ≡ some tab
      → Created generate_id pty_start m x
      → Backed generate_id (finish_split generate_id pty_start id tab session direction now x).1
  unfolding finish_split
  finish_split-Backed id session direction tab now m inj ne b found (made s) =
      place_split-Backed id session tab now m s inj b found (
        split_layout_node-SplitResult session (generate_id m.generated) direction (ne m.generated)
          (lookup-IsTree id tab m.tabs b.trees found))
  finish_split-Backed id session direction tab now m inj ne b found not_made =
      counted-Backed generate_id pty_start m b

  pub split_pane-Backed :
      (id session direction : String) (now : ℕ) (m : Manager)
      → IsInjective generate_id
      → ((k : ℕ) → generate_id k ≢ "")
      → Backed generate_id m
      → Backed generate_id (split_pane generate_id pty_start id session direction now m).1
  unfolding split_pane
  split_pane-Backed id session direction now m inj ne b = elim (Option-cases (lookup id m.tabs)) [
    | inl missing ↦ rw (missing, split_pane) b
    | inr (tab, found) ↦
        rw (found, split_pane)
          (elim (Bool-cases (has_session session tab.layout)) [
            | inr not_there ↦ rw not_there b
            | inl there ↦ rw there (
                finish_split-Backed id session direction tab now m inj ne b found
                  (create_session-Created generate_id pty_start now m))
          ])
  ]

  finish_last-Backed :
      (id session : String) (tab : Tab) (now : ℕ) (m : Manager) {x : Result String × Manager}
      → IsInjective generate_id
      → ((k : ℕ) → generate_id k ≢ "")
      → Backed generate_id m
      → lookup id m.tabs ≡ some tab
      → panes tab.layout ≡ session ∷ []
      → Created generate_id pty_start m x
      → Backed generate_id (finish_last id tab session now x).1
  unfolding finish_last
  finish_last-Backed id session tab now m inj ne b found only (made s) =
      let new = generate_id m.generated in
      let placed = with_layout (pane_of new) now tab in
      let old_count : (x : String) → count x (panes tab.layout) ≡ once x session =
        λ x. omega (arith, ap (count x) only) in
      (delete_session-Backed generate_id (put_tab id placed (made_in m s)) session
        (put_tab-Backed generate_id (made_in m s) id tab placed
          (made-Backed generate_id pty_start m s inj b) found (leaf (ne m.generated))
          (λ x. omega (arith, made_fits generate_id pty_start m s x b)))
        (ground (
          arith,
          eq_iff session session,
          eq_iff new session,
          next_unused generate_id pty_start m b,
          used-insert session id placed tab m.tabs found,
          used-lookup session id tab m.tabs found,
          old_count session,
          made_fits generate_id pty_start m s session b,
          b.backed session,
        ))).0
  finish_last-Backed id session tab now m inj ne b found only not_made =
      counted-Backed generate_id pty_start m b

  finish_close-Backed :
      (id session : String) (tab : Tab) (now : ℕ) (m : Manager) {x : LayoutNode × Bool}
      → Backed generate_id m
      → lookup id m.tabs ≡ some tab
      → CloseResult session tab.layout x
      → Backed generate_id (finish_close id tab session now m x).1
  unfolding finish_close
  finish_close-Backed id session tab now m b found (Close.did {m = layout} tree r) =
      let placed = with_layout layout now tab in
      (delete_session-Backed generate_id (put_tab id placed m) session
        (put_tab-Backed generate_id m id tab placed b found tree
          (λ x. omega (arith, b.backed x, count-Removed x session r)))
        (ground (
          arith,
          eq_iff session session,
          used-insert session id placed tab m.tabs found,
          count-Removed session session r,
          b.backed session,
        ))).0
  finish_close-Backed id session tab now m b found (Close.single p) = b
  finish_close-Backed id session tab now m b found (Close.did_not n) = b

  pub close_pane-Backed :
      (id session : String) (now : ℕ) (m : Manager)
      → IsInjective generate_id
      → ((k : ℕ) → generate_id k ≢ "")
      → Backed generate_id m
      → Backed generate_id (close_pane generate_id pty_start id session now m).1
  unfolding close_pane
  close_pane-Backed id session now m inj ne b = elim (Option-cases (lookup id m.tabs)) [
    | inl missing ↦ rw (missing, close_pane) b
    | inr (tab, found) ↦
        rw (found, close_pane)
          (elim (Bool-cases (has_session session tab.layout)) [
            | inr not_there ↦ rw not_there b
            | inl there ↦ rw there (elim (Bool-cases (is_pane_of session tab.layout)) [
              | inl last ↦ rw last (
                  finish_last-Backed id session tab now m inj ne b found
                    (is_pane_of-panes session (lookup-IsTree id tab m.tabs b.trees found) last)
                    (create_session-Created generate_id pty_start now m))
              | inr more ↦ rw more (
                  finish_close-Backed id session tab now m b found (
                    close_pane_in_layout-CloseResult session
                      (lookup-IsTree id tab m.tabs b.trees found)))
            ])
          ])
  ]
