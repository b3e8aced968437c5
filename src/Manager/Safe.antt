-- ===== src/Manager/Safe.antt =====
-- The invariant of the registry along any calls, and what it means for `CanAttachSession`.
use Prim.Native.String.{String}
use text.Mathlib.TextEquality.{eq_iff}
use termulaa.Prelude.{
  ℕ, ◌<◌, Bool, true, false, List, [], ◌∷◌, Option, some, ◌≡◌, ◌≢◌, refl, arith, if◌then◌else◌,
  Bool-cases, Option-cases, inl, inr, nil,
}
use termulaa.Dict.{lookup, delete, has, lookup-has, lookup-delete}
use termulaa.Layout.{LayoutNode, is_pane_of, has_session, walk_layout}
use termulaa.Layout.Panes.{panes, IsTree, leaf, branch}
use termulaa.Layout.Count.{count, count-append}
use termulaa.Session.{Session}
use termulaa.Manager.{Manager, Tab, Config, new_manager}
use termulaa.Manager.Count.{used-lookup, used-delete}
use termulaa.Manager.Fresh.{IsInjective}
use termulaa.Manager.Owners.{can_attach_session, register_tab_client, unregister_tab_client}
use termulaa.Manager.Requests.{
  Request, tab_created, tab_updated, tab_deleted, pane_split, pane_closed, sessions_replaced,
  session_killed, session_revived, session_deleted, owner_disconnected, client_resumed,
  client_registered, client_unregistered, IsAllowed, AreAllowed, perform, perform_all,
}
use termulaa.Manager.Backed.{lookup-IsTree, Backed, delete_session-Backed}
use termulaa.Manager.Backed.Creates.{kill_session-Backed, revive_session-Backed, create_tab-Backed}
use termulaa.Manager.Backed.Splits.{split_pane-Backed, close_pane-Backed}
use termulaa.Manager.Backed.Replaces.{replace_tab_sessions-Backed}
use termulaa.Manager.Backed.Tabs.{
  disconnect_tab_owner-Backed, delete_tab-Backed, resume_tab_client-Backed, update_tab-Backed,
}

walk-has_session :
    {layout : LayoutNode} (session : String) (found : Bool)
    → IsTree layout
    → walk_layout (λ n hit. if is_pane_of session n then true else hit) layout found ≡ true
    → (found ≡ false → 0 < count session (panes layout))
unfolding walk_layout
walk-has_session session found (leaf {id} ne) h nothing = ground arith
walk-has_session session found (branch {first = a} {second = b} f s) h nothing =
    elim (Bool-cases (walk_layout (λ n hit. if is_pane_of session n then true else hit) a found)) [
      | inl in_first ↦ omega (
        arith,
        walk-has_session session found f in_first nothing,
        count-append session (panes a) (panes b),
      )
      | inr not_first ↦ omega (
        arith,
        walk-has_session session _ s h not_first,
        count-append session (panes a) (panes b),
      )
    ]

pub has_session-count :
    {layout : LayoutNode} (session : String)
    → IsTree layout
    → has_session session layout ≡ true
    → 0 < count session (panes layout)
unfolding has_session
has_session-count session t h = walk-has_session session false t h refl

module _ (generate_id : ℕ → String) (pty_start : String → Option ℕ) where
  perform-Backed :
      (r : Request) (m : Manager)
      → IsInjective generate_id
      → ((k : ℕ) → generate_id k ≢ "")
      → IsAllowed r m
      → Backed generate_id m
      → Backed generate_id (perform generate_id pty_start r m)
  unfolding perform register_tab_client unregister_tab_client
  perform-Backed (tab_created name now) m inj ne w b =
      create_tab-Backed generate_id pty_start name now m inj ne b
  perform-Backed (tab_updated id name layout now) m inj ne w b =
      update_tab-Backed generate_id m id name layout now w b
  perform-Backed (tab_deleted id kill_sessions) m inj ne w b =
      delete_tab-Backed generate_id m id kill_sessions b
  perform-Backed (pane_split id session direction now) m inj ne w b =
      split_pane-Backed generate_id pty_start id session direction now m inj ne b
  perform-Backed (pane_closed id session now) m inj ne w b =
      close_pane-Backed generate_id pty_start id session now m inj ne b
  perform-Backed (sessions_replaced id now) m inj ne w b =
      replace_tab_sessions-Backed generate_id pty_start id now m inj ne b
  perform-Backed (session_killed id) m inj ne w b = kill_session-Backed generate_id pty_start m id b
  perform-Backed (session_revived id cwd_exists now) m inj ne w b =
      revive_session-Backed generate_id pty_start m id cwd_exists now b
  perform-Backed (session_deleted id) m inj ne w b = (delete_session-Backed generate_id m id b w).0
  perform-Backed (owner_disconnected tab) m inj ne w b =
      disconnect_tab_owner-Backed generate_id m tab b
  perform-Backed (client_resumed tab token conn) m inj ne w b =
      resume_tab_client-Backed generate_id m tab token conn b
  perform-Backed (client_registered tab c) m inj ne w b = record {
    trees = b.trees;
    backed = b.backed;
    fresh = b.fresh;
  }
  perform-Backed (client_unregistered tab conn) m inj ne w b = record {
    trees = b.trees;
    backed = b.backed;
    fresh = b.fresh;
  }

  -- Calls keep the registry sound, whatever shells fail to start, on three conditions: no ID is
  -- generated twice and none is empty, the layouts that clients send are trees, and a session that
  -- is deleted by `DeleteSession` is at that moment named by no pane. Sound means that the layouts
  -- of the tabs are trees, every pane names a session that the registry has, no two panes of any
  -- tabs the same one, and no session has an ID still to be generated.
  pub perform_all-Backed :
      (rs : List Request) (m : Manager)
      → IsInjective generate_id
      → ((k : ℕ) → generate_id k ≢ "")
      → AreAllowed generate_id pty_start rs m
      → Backed generate_id m
      → Backed generate_id (perform_all generate_id pty_start rs m)
  unfolding perform_all
  perform_all-Backed [] m inj ne w b = b
  perform_all-Backed (r ∷ rs) m inj ne w b =
      perform_all-Backed rs (perform generate_id pty_start r m) inj ne w.1
        (perform-Backed r m inj ne w.0 b)

  pub new_manager-Backed :
      (cfg : Config) (shell home : String) → Backed generate_id (new_manager cfg shell home)
  unfolding lookup has
  new_manager-Backed cfg shell home = record {
    trees = nil;
    backed = λ x. omega arith;
    fresh = λ k h. refl;
  }

  attach_has :
      (m : Manager) (tab session token : String)
      → Backed generate_id m
      → can_attach_session tab session token m ≡ true
      → (t : Tab) × (lookup tab m.tabs ≡ some t) × (0 < count session (panes t.layout))
  unfolding can_attach_session
  attach_has m tab session token b h = elim (Option-cases (lookup tab m.tabs)) [
    | inl missing ↦ absurd (ground (arith, missing))
    | inr (t, found) ↦ (
      t,
      found,
      has_session-count session (lookup-IsTree tab t m.tabs b.trees found) (ground (arith, found)),
    )
  ]

  -- In a sound registry, a connection that `CanAttachSession` lets in to a session finds that
  -- session, and it is let in through one tab alone: the tokens of two tabs never open the same
  -- session.
  pub can_attach_session-lookup :
      (m : Manager) (tab session token : String)
      → Backed generate_id m
      → can_attach_session tab session token m ≡ true
      → ((s : Session) × (lookup session m.sessions ≡ some s))
        × ((tab' token' : String) → can_attach_session tab' session token' m ≡ true → tab' ≡ tab)
  can_attach_session-lookup m tab session token b h =
      let (t, found, here) = attach_has m tab session token b h in
      (
        lookup-has session m.sessions
            (ground (arith, b.backed session, used-lookup session tab t m.tabs found)),
        λ tab' token' h'.
            let (t', found', here') = attach_has m tab' session token' b h' in
            ground (
              arith,
              b.backed session,
              eq_iff tab tab',
              lookup-delete tab tab' m.tabs,
              used-delete session tab t m.tabs found,
              used-lookup session tab' t' (delete tab m.tabs),
            ),
      )
