-- ===== src/Manager/Backed/Tabs.antt =====
-- The invariant of the registry under `UpdateTab`, `DeleteTab` and the tab connections.
use Prim.Native.String.{String}
use text.Mathlib.Text.{◌==◌ as str_eq}
use termulaa.Prelude.{
  ℕ, Bool, true, false, List, [], ◌∷◌, some, ◌≡◌, refl, ap, sym, ◌∙◌, arith, Bool-cases,
  Option-cases, inl, inr,
}
use mathlib.Core.Path.{subst}
use termulaa.Dict.{lookup, delete, has}
use termulaa.Layout.{LayoutNode, layout_matches_session_set, session_ids}
use termulaa.Layout.Panes.{panes, IsTree, session_ids-eq-panes}
use termulaa.Layout.Count.{count}
use termulaa.Layout.Matches.{layout_matches_session_set-count}
use termulaa.Session.{Session}
use termulaa.Manager.{Tab, Manager, put_tab, is_absent, with_name, set_layout, update_tab}
use termulaa.Manager.Count.{used-delete, used-lookup}
use termulaa.Manager.Owners.{
  disconnect_in, disconnect_tab_owner, swap_holder, resume_tab_client, delete_tab, clients_of,
  tokens_of,
}
use termulaa.Manager.Backed.{
  lookup-IsTree, Backed, put_tab-Backed, delete-Backed, delete_sessions-Backed,
}

has-disconnect_in :
    (x tab : String) (tokens : List String) (m : List (String × Session))
    → has x (disconnect_in tab tokens m) ≡ has x m
unfolding has
has-disconnect_in x tab tokens [] = refl
has-disconnect_in x tab tokens ((id, s) ∷ m) = rw (has-disconnect_in x tab tokens m) refl

module _ (generate_id : ℕ → String) where
  pub disconnect_tab_owner-Backed :
      (m : Manager) (tab : String)
      → Backed generate_id m
      → Backed generate_id (disconnect_tab_owner tab m).1
  unfolding disconnect_tab_owner
  disconnect_tab_owner-Backed m tab b = record {
    trees = b.trees;
    backed = λ x.
        ground
          (arith, b.backed x, has-disconnect_in x tab (tokens_of (clients_of tab m)) m.sessions);
    fresh = λ k h.
        has-disconnect_in (generate_id k) tab (tokens_of (clients_of tab m)) m.sessions
        ∙ b.fresh k h;
  }

  pub delete_tab-Backed :
      (m : Manager) (id : String) (kill_sessions : Bool)
      → Backed generate_id m
      → Backed generate_id (delete_tab id kill_sessions m).1
  unfolding delete_tab disconnect_tab_owner
  delete_tab-Backed m id kill_sessions b = elim (Option-cases (lookup id m.tabs)) [
    | inl missing ↦ rw (missing, delete_tab) b
    | inr (tab, found) ↦
        let m' = record m { tabs = delete id m.tabs } in
        let b' = disconnect_tab_owner-Backed m' id (delete-Backed generate_id m id b) in
        rw (found, delete_tab)
          (elim (Bool-cases kill_sessions) [
            | inr keep ↦ rw keep b'
            | inl kills ↦ rw kills (
                (delete_sessions-Backed generate_id (session_ids tab.layout)
                  (disconnect_tab_owner id m').1 b'
                  (λ x h. ground (
                    arith,
                    ap (count x) (session_ids-eq-panes (lookup-IsTree id tab m.tabs b.trees found)),
                    b.backed x,
                    used-delete x id tab m.tabs found,
                  ))).0)
          ])
  ]

  pub resume_tab_client-Backed :
      (m : Manager) (tab token : String) (conn : ℕ)
      → Backed generate_id m
      → Backed generate_id (resume_tab_client tab token conn m).1
  unfolding resume_tab_client
  resume_tab_client-Backed m tab token conn b = elim (Bool-cases (str_eq token "")) [
    | inl empty ↦ rw (empty, resume_tab_client) b
    | inr named ↦
        rw (named, resume_tab_client)
          (elim (Option-cases (swap_holder token conn (clients_of tab m))) [
            | inl other ↦ rw other b
            | inr (r, held) ↦
                rw held (record { trees = b.trees; backed = b.backed; fresh = b.fresh })
          ])
  ]

  same_layout :
      (m : Manager) (id : String) (old new : Tab)
      → Backed generate_id m
      → lookup id m.tabs ≡ some old
      → new.layout ≡ old.layout
      → Backed generate_id (put_tab id new m)
  same_layout m id old new b found same =
      put_tab-Backed generate_id m id old new b found
        (subst IsTree (sym same) (lookup-IsTree id old m.tabs b.trees found))
        (λ x. omega (arith, b.backed x, ap (λ l. count x (panes l)) same))

  set_layout-Backed :
      (m : Manager) (id : String) (old tab : Tab) (layout : LayoutNode) (now : ℕ)
      → (is_absent layout ≡ false → IsTree layout)
      → Backed generate_id m
      → lookup id m.tabs ≡ some old
      → tab.layout ≡ old.layout
      → Backed generate_id (set_layout id tab layout now m).1
  unfolding set_layout
  set_layout-Backed m id old tab layout now well b found same =
      elim (Bool-cases (is_absent layout)) [
        | inl none_sent ↦ rw (none_sent, set_layout) (same_layout m id old _ b found same)
        | inr sent ↦
            rw (sent, set_layout)
              (elim (Bool-cases (layout_matches_session_set layout (session_ids tab.layout))) [
                | inr differs ↦ rw differs (same_layout m id old _ b found same)
                | inl matches ↦ rw matches (
                    put_tab-Backed generate_id m id old _ b found (well sent)
                      (λ x. omega (arith, b.backed x, matched x (well sent) matches)))
              ])
      ]
    where
      named : session_ids tab.layout ≡ panes old.layout
      named = ap session_ids same ∙ session_ids-eq-panes (lookup-IsTree id old m.tabs b.trees found)

      matched :
          (x : String)
          → IsTree layout
          → layout_matches_session_set layout (session_ids tab.layout) ≡ true
          → count x (panes layout) ≡ count x (panes old.layout)
      matched x tree h =
          layout_matches_session_set-count (session_ids tab.layout) x tree
            (λ y. ground (arith, ap (count y) named, b.backed y, used-lookup y id old m.tabs found))
            h
          ∙ ap (count x) named

  pub update_tab-Backed :
      (m : Manager) (id name : String) (layout : LayoutNode) (now : ℕ)
      → (is_absent layout ≡ false → IsTree layout)
      → Backed generate_id m
      → Backed generate_id (update_tab id name layout now m).1
  unfolding update_tab
  update_tab-Backed m id name layout now well b = elim (Option-cases (lookup id m.tabs)) [
    | inl missing ↦ rw (missing, update_tab) b
    | inr (tab, found) ↦
        rw (found, update_tab)
          (set_layout-Backed m id tab (with_name name tab) layout now well b found refl)
  ]
