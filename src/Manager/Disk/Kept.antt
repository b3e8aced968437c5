-- ===== src/Manager/Disk/Kept.antt =====
-- `SaveState`, then `LoadState` in a new process.
use Prim.Native.String.{String}
use mathlib.Core.Path.{subst}
use termulaa.Prelude.{
  ℕ, ◌≤◌, ◌<◌, Bool, true, false, [], Option, none, some, ◌≡◌, refl, ap, sym, ◌∙◌, arith,
  if◌then◌else◌, ltb, Bool-cases, inl, inr, All,
}
use termulaa.Dict.{lookup, has, has-lookup, lookup-has}
use termulaa.Ring.{Bytes, read_all}
use termulaa.Ring.Split.{last}
use termulaa.Layout.Panes.{panes}
use termulaa.Layout.Count.{count}
use termulaa.Session.{Session}
use termulaa.Manager.{Manager, Tab, Config, new_manager, scrollback_bytes}
use termulaa.Manager.Count.{used}
use termulaa.Manager.Backed.{Backed, HasTree, kept}
use termulaa.Manager.Disk.{
  StateFile, Disk, metas_of, save_rings, state_of, too_old, load_tabs, referenced_sessions,
  save_state, restored, load_sessions, cutoff_of, load_from, load_state,
}
use termulaa.Manager.Disk.Restart.{
  has-metas_of, lookup-metas_of, count-referenced_sessions, lookup-drop_orphans, load_tabs-HasTree,
  used-load_tabs, used-load_tabs_old, lookup-load_sessions, has-load_sessions,
}

-- The registry of a new process, which generates other IDs than `m` did.
abbrev pub fresh_process : Config → String → String → Manager → Manager
fresh_process cfg shell home m = record (new_manager cfg shell home) { generated = m.generated }

abbrev pub cutoff_at : (ℕ → ℕ → ℕ) → ℕ → Config → String → String → Manager → Option ℕ
cutoff_at days_before now cfg shell home m =
    cutoff_of days_before (fresh_process cfg shell home m) now

-- What is left of a session after a restart: its data, no shell, and as much of the end of its
-- output as fits, where the shell ran when the state was saved.
pub record Restored (size : ℕ) (s s' : Session) : Type 0 where
  pub same_info : s'.info ≡ s.info
  pub not_alive : s'.alive ≡ false
  pub no_clients : s'.clients ≡ []
  pub replay : s.alive ≡ true → read_all s'.scrollback ≡ last size (read_all s.scrollback)

module _ (is_mark : ℕ → Bool) (days_before : ℕ → ℕ → ℕ) (marshal : StateFile → Bytes)
    (unmarshal : Bytes → Option StateFile) (generate_id : ℕ → String) where
  -- The registry that a new process loads from what `m` saved.
  abbrev pub restart : ℕ → Config → String → String → Manager → Disk → Manager
  restart now cfg shell home m d =
      (load_state is_mark days_before unmarshal now (fresh_process cfg shell home m)
        (save_state marshal m d)).0

  restart-eq :
      (now : ℕ) (cfg : Config) (shell home : String) (m : Manager) (d : Disk)
      → unmarshal (marshal (state_of m)) ≡ some (state_of m)
      → restart now cfg shell home m d
        ≡ (load_from is_mark
            (cutoff_at days_before now cfg shell home m)
            (state_of m)
            (fresh_process cfg shell home m)
            (save_state marshal m d)).0
  unfolding load_state save_state
  restart-eq now cfg shell home m d codec = rw codec refl

  lookup-restart :
      (now : ℕ) (cfg : Config) (shell home : String) (m : Manager) (d : Disk) (x : String)
      → unmarshal (marshal (state_of m)) ≡ some (state_of m)
      → All HasTree m.tabs
      → lookup x (restart now cfg shell home m d).sessions ≡ (
          if ltb 0 (used x (load_tabs (cutoff_at days_before now cfg shell home m) m.tabs []))
          then lookup x
              (load_sessions is_mark
                (cutoff_at days_before now cfg shell home m)
                (scrollback_bytes (fresh_process cfg shell home m))
                (save_rings m.sessions d.scrollback)
                (metas_of m.sessions)
                []).sessions
          else none)
  unfolding load_from save_state
  lookup-restart now cfg shell home m d x codec trees =
      let cutoff = cutoff_at days_before now cfg shell home m in
      let tabs = load_tabs cutoff m.tabs [] in
      let loaded =
        load_sessions is_mark cutoff (scrollback_bytes (fresh_process cfg shell home m))
          (save_rings m.sessions d.scrollback) (metas_of m.sessions) [] in
      ap (λ m'. lookup x m'.sessions) (restart-eq now cfg shell home m d codec)
      ∙ lookup-drop_orphans x (referenced_sessions tabs) loaded.sessions
      ∙ ap (λ n. if ltb 0 n then lookup x loaded.sessions else none)
          (count-referenced_sessions x (load_tabs-HasTree cutoff trees))

  tabs-restart :
      (now : ℕ) (cfg : Config) (shell home : String) (m : Manager) (d : Disk)
      → unmarshal (marshal (state_of m)) ≡ some (state_of m)
      → (restart now cfg shell home m d).tabs
        ≡ load_tabs (cutoff_at days_before now cfg shell home m) m.tabs []
  unfolding load_from
  tabs-restart now cfg shell home m d codec =
      ap (λ m'. m'.tabs) (restart-eq now cfg shell home m d codec)

  -- A restart takes over the settings of the new process.
  rest-restart :
      (now : ℕ) (cfg : Config) (shell home : String) (m : Manager) (d : Disk)
      → unmarshal (marshal (state_of m)) ≡ some (state_of m)
      → let m' = restart now cfg shell home m d in (m'.generated ≡ m.generated) × (m'.config ≡ cfg)
  unfolding load_from
  rest-restart now cfg shell home m d codec =
      let e = restart-eq now cfg shell home m d codec in
      (ap (λ m'. m'.generated) e, ap (λ m'. m'.config) e)

  used_again :
      (now : ℕ) (cfg : Config) (shell home : String) (m : Manager) (d : Disk) (x : String)
      → unmarshal (marshal (state_of m)) ≡ some (state_of m)
      → Backed generate_id m
      → ((y : String) (s : Session)
          → lookup y m.sessions ≡ some s
          → too_old (cutoff_at days_before now cfg shell home m) s.info.last_active ≡ false)
      → let m' = restart now cfg shell home m d in used x m'.tabs ≤ kept (has x m'.sessions)
  used_again now cfg shell home m d x codec b young =
      let cutoff = cutoff_at days_before now cfg shell home m in
      let tabs = load_tabs cutoff m.tabs [] in
      let size = scrollback_bytes (fresh_process cfg shell home m) in
      let m' = restart now cfg shell home m d in
      let same : used x m'.tabs ≡ used x tabs =
        ap (used x) (tabs-restart now cfg shell home m d codec) in
      elim (Bool-cases (ltb 0 (used x tabs))) [
        | inr nowhere ↦ ground (arith, same, nowhere)
        | inl named ↦
            let there : has x m.sessions ≡ true =
              ground (arith, named, used-load_tabs x cutoff m.tabs, b.backed x) in
            let (s, found) = lookup-has x m.sessions there in
            let back =
              lookup-load_sessions is_mark x s.info cutoff size (save_rings m.sessions d.scrollback)
                (metas_of m.sessions) (lookup-metas_of x s m.sessions found) (young x s found) in
            let again =
              has-lookup x
                (restored is_mark size (lookup x (save_rings m.sessions d.scrollback)) s.info)
                m'.sessions
                (ground
                  (arith, lookup-restart now cfg shell home m d x codec b.trees, named, back)) in
            ground (arith, same, again, there, used-load_tabs x cutoff m.tabs, b.backed x)
      ]

  unused_again :
      (now : ℕ) (cfg : Config) (shell home : String) (m : Manager) (d : Disk) (x : String)
      → unmarshal (marshal (state_of m)) ≡ some (state_of m)
      → All HasTree m.tabs
      → has x m.sessions ≡ false
      → has x (restart now cfg shell home m d).sessions ≡ false
  unused_again now cfg shell home m d x codec trees missing =
      let cutoff = cutoff_at days_before now cfg shell home m in
      let size = scrollback_bytes (fresh_process cfg shell home m) in
      let files = save_rings m.sessions d.scrollback in
      let loaded = (load_sessions is_mark cutoff size files (metas_of m.sessions) []).sessions in
      let m' = restart now cfg shell home m d in
      elim (Bool-cases (has x m'.sessions)) [
        | inr gone ↦ gone
        | inl there ↦
            let (s, found) = lookup-has x m'.sessions there in
            let from : lookup x loaded ≡ some s =
              ground (arith, lookup-restart now cfg shell home m d x codec trees, found) in
            ground (
              arith,
              missing,
              has-metas_of x m.sessions,
              has-load_sessions is_mark x cutoff size files (metas_of m.sessions)
                  (has-lookup x s loaded from),
            )
      ]

  -- When the encoding of the registry's state can be read back, a sound registry is sound again after a
  -- restart that finds no session too old for the clean-up window: every pane still names a session
  -- that is there.
  pub load_state-Backed :
      (now : ℕ) (cfg : Config) (shell home : String) (m : Manager) (d : Disk)
      → unmarshal (marshal (state_of m)) ≡ some (state_of m)
      → Backed generate_id m
      → ((x : String) (s : Session)
          → lookup x m.sessions ≡ some s
          → too_old (cutoff_at days_before now cfg shell home m) s.info.last_active ≡ false)
      → Backed generate_id (restart now cfg shell home m d)
  load_state-Backed now cfg shell home m d codec b young =
      let cutoff = cutoff_at days_before now cfg shell home m in
      let same_tabs = tabs-restart now cfg shell home m d codec in
      record {
        trees = subst (λ tabs. All HasTree tabs) (sym same_tabs) (load_tabs-HasTree cutoff b.trees);
        backed = λ x. used_again now cfg shell home m d x codec b young;
        fresh = λ k h.
            unused_again now cfg shell home m d (generate_id k) codec b.trees
              (b.fresh k (omega (arith, h, (rest-restart now cfg shell home m d codec).0)));
      }

  -- When the encoding of the registry's state can be read back, a session of a sound registry that a tab
  -- names is gone after a restart if the tab is too old, however recently the session was active.
  pub load_state-drops :
      (now : ℕ) (cfg : Config) (shell home : String) (m : Manager) (d : Disk) (id x : String)
      (tab : Tab)
      → unmarshal (marshal (state_of m)) ≡ some (state_of m)
      → Backed generate_id m
      → lookup id m.tabs ≡ some tab
      → too_old (cutoff_at days_before now cfg shell home m) tab.last_active ≡ true
      → 0 < count x (panes tab.layout)
      → lookup x (restart now cfg shell home m d).sessions ≡ none
  load_state-drops now cfg shell home m d id x tab codec b found old here =
      let cutoff = cutoff_at days_before now cfg shell home m in
      ground (
        arith,
        lookup-restart now cfg shell home m d x codec b.trees,
        used-load_tabs_old x id tab cutoff m.tabs found old,
        b.backed x,
      )
