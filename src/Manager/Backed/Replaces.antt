-- ===== src/Manager/Backed/Replaces.antt =====
-- The invariant of the registry under `ReplaceTabSessions`.
use Prim.Native.String.{String}
use text.Mathlib.Text.{◌==◌ as str_eq}
use text.Mathlib.TextEquality.{eq_iff}
use termulaa.Prelude.{
  ℕ, ◌≤◌, ◌<◌, Bool, true, false, List, [], ◌∷◌, ◌++◌, Option, none, some, ◌≡◌, ◌≢◌, refl, ap, sym,
  arith, if◌then◌else◌, ltb, Bool-cases, Option-cases, inl, inr,
}
use mathlib.Core.Path.{subst}
use termulaa.Dict.{lookup, has, has-insert}
use termulaa.Layout.{LayoutNode, session_ids, replace_all_sessions}
use termulaa.Layout.Panes.{panes, IsTree, session_ids-eq-panes}
use termulaa.Layout.Copy.{fresh_ids, replace_all_sessions-copies}
use termulaa.Session.{Session}
use termulaa.Manager.{
  Tab, Manager, put_session, put_tab, spawn_session, default_session_cwd, default_session_size,
}
use termulaa.Layout.Count.{count, count-append}
use termulaa.Manager.Count.{used, used-insert, used-lookup}
use termulaa.Manager.Fresh.{
  IsInjective, count-fresh_le, count-fresh_later, fresh_has, replace_all_sessions-values,
}
use termulaa.Manager.Panes.{with_layout, create_replacements, finish_replace, replace_tab_sessions}
use termulaa.Manager.Backed.{
  lookup-IsTree, Backed, put_session-Backed, put_tab-Backed, delete_sessions-Backed,
}

module _ (generate_id : ℕ → String) (pty_start : String → Option ℕ) where
  -- What `createReplacements` leaves: all the sessions made, or none named by a tab made.
  data Replaced (ids : List String) (m : Manager) : Bool × Manager → Type 0 where
    all_made :
        {ss : List (String × Session)}
        → ((x : String) → has x ss ≡ (if ltb 0 (count x ids) then true else has x m.sessions))
        → Backed generate_id (record m { sessions = ss })
        → Replaced ids m (true, record m { sessions = ss })
    undone : {m' : Manager} → Backed generate_id m' → Replaced ids m (false, m')

  more_made :
      {id : String} {ids : List String} (s : Session) (m : Manager) {x : Bool × Manager}
      → Replaced ids (put_session id s m) x
      → Replaced (id ∷ ids) m x
  more_made {id} s m (all_made h b) =
      all_made (λ x. ground (arith, h x, has-insert id x s m.sessions)) b
  more_made s m (undone b) = undone b

  create_replacements-Replaced :
      (ids created : List String) (now : ℕ) (m : Manager)
      → Backed generate_id m
      → ((x : String) → 0 < count x created → used x m.tabs ≡ 0)
      → ((x : String) → 0 < count x ids → used x m.tabs ≡ 0)
      → ((x : String) → 0 < count x ids → (k : ℕ) → m.generated ≤ k → x ≢ generate_id k)
      → Replaced ids m (create_replacements generate_id pty_start ids created now m)
  unfolding create_replacements
  create_replacements-Replaced [] created now m b free free' apart = all_made (λ x. refl) b
  create_replacements-Replaced (id ∷ ids) created now m b free free' apart =
      let size = default_session_size m in
      let here : 0 < count id (id ∷ ids) = ground (arith, eq_iff id id) in
      elim (Option-cases
        (spawn_session m (pty_start id) id (default_session_cwd m) size.0 size.1 now none)) [
          | inl failed ↦
              rw (failed, create_replacements)
                (undone (delete_sessions-Backed generate_id created m b free).0)
          | inr (s, started) ↦
              rw (started, create_replacements)
                (more_made s m (
                  create_replacements-Replaced ids (created ++ id ∷ []) now (put_session id s m)
                    (put_session-Backed generate_id m id s b (apart id here))
                    (λ x h. elim (Bool-cases (str_eq id x)) [
                      | inl same ↦
                          subst (λ y. used y m.tabs ≡ 0) ((eq_iff id x).0 same) (free' id here)
                      | inr other ↦ free x (ground (arith, other, count-append x created (id ∷ [])))
                    ])
                    (λ x h. free' x (omega (arith, h))) (λ x h. apart x (omega (arith, h)))))
        ]

  -- At most one pane of each session, in a layout of a tab.
  layout_apart :
      (id x : String) (tab : Tab) (m : Manager)
      → Backed generate_id m
      → lookup id m.tabs ≡ some tab
      → count x (panes tab.layout) ≤ 1
  layout_apart id x tab m b found = ground (arith, b.backed x, used-lookup x id tab m.tabs found)

  -- No session of a pane is new.
  old_or_new :
      (id x : String) (tab : Tab) (m : Manager)
      → Backed generate_id m
      → lookup id m.tabs ≡ some tab
      → 0 < count x (fresh_ids generate_id m.generated (panes tab.layout))
      → used x m.tabs ≡ 0
  old_or_new id x tab m b found h = ground (
    arith,
    b.backed x,
    fresh_has generate_id x m.generated (panes tab.layout) m.sessions b.fresh h,
  )

  finish_reput_tab_lem :
      (id : String) (tab : Tab) (layout : LayoutNode) (ids : List String) (now : ℕ) (m : Manager)
      {x : Bool × Manager}
      → Backed generate_id m
      → lookup id m.tabs ≡ some tab
      → IsTree layout
      → panes layout ≡ ids
      → ((y : String) → count y ids ≤ 1)
      → ((y : String) → 0 < count y ids → used y m.tabs ≡ 0)
      → Replaced ids m x
      → Backed generate_id (finish_replace id tab layout now x).1
  unfolding finish_replace
  finish_reput_tab_lem id tab layout ids now m b found tree are apart free (all_made {ss} h made) =
      let placed = with_layout layout now tab in
      let m' = record m { sessions = ss } in
      let sum : (y : String) → count y (panes layout) ≡ count y ids = λ y. ap (count y) are in
      let same : (y : String) → count y (session_ids tab.layout) ≡ count y (panes tab.layout) =
        λ y. ap (count y) (session_ids-eq-panes (lookup-IsTree id tab m.tabs b.trees found)) in
      (delete_sessions-Backed generate_id (session_ids tab.layout) (put_tab id placed m')
        (put_tab-Backed generate_id m' id tab placed made found tree
          (λ y. ground (arith, h y, sum y, apart y, free y, b.backed y)))
        (λ y k. ground (
          arith,
          same y,
          sum y,
          free y,
          b.backed y,
          used-lookup y id tab m.tabs found,
          used-insert y id placed tab m.tabs found,
        ))).0
  finish_reput_tab_lem id tab layout ids now m b found tree are apart free (undone left) = left

  pub replace_tab_sessions-Backed :
      (id : String) (now : ℕ) (m : Manager)
      → IsInjective generate_id
      → ((k : ℕ) → generate_id k ≢ "")
      → Backed generate_id m
      → Backed generate_id (replace_tab_sessions generate_id pty_start id now m).1
  unfolding replace_tab_sessions
  replace_tab_sessions-Backed id now m inj ne b = elim (Option-cases (lookup id m.tabs)) [
    | inl missing ↦ rw (missing, replace_tab_sessions) b
    | inr (tab, found) ↦
        rw (found, replace_tab_sessions)
          (let out = replace_all_sessions generate_id tab.layout m.generated in
            let ids = fresh_ids generate_id m.generated (panes tab.layout) in
            let tree = lookup-IsTree id tab m.tabs b.trees found in
            let (shape, copy, are, counted) =
              replace_all_sessions-copies generate_id m.generated ne tree in
            let new =
              replace_all_sessions-values generate_id m.generated tree
                (λ x. layout_apart id x tab m b found) in
            let m' = record m { generated = out.1.generated } in
            let b' : Backed generate_id m' = record {
              trees = b.trees;
              backed = b.backed;
              fresh = λ k h. b.fresh k (omega (arith, h, counted));
            } in
            finish_reput_tab_lem id tab out.0 ids now m' b' found copy are
              (λ y. count-fresh_le generate_id y m.generated (panes tab.layout) inj)
              (λ y. old_or_new id y tab m b found)
              (subst
                (λ xs. Replaced ids m' (create_replacements generate_id pty_start xs [] now m'))
                (sym new)
                (create_replacements-Replaced ids [] now m' b' (λ x h. absurd (omega (arith, h)))
                  (λ x. old_or_new id x tab m b found)
                  (λ x h k le e. absurd (
                    omega (
                      arith,
                      h,
                      ap (λ y. count y ids) e,
                      count-fresh_later generate_id k m.generated (panes tab.layout) inj
                          (omega (arith, le, counted)),
                    ))))))
  ]
