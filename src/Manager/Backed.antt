-- ===== src/Manager/Backed.antt =====
-- cmd/termulaa/manager.go: an invariant of the registry, and the steps that its operations are made
-- of.
pub mod Creates
pub mod Splits
pub mod Replaces
pub mod Tabs
use Prim.Native.String.{String}
use text.Mathlib.Text.{◌==◌ as str_eq}
use text.Mathlib.TextEquality.{eq_iff}
use termulaa.Prelude.{
  ℕ, zero, suc, ◌+◌, ◌≤◌, ◌<◌, Bool, true, false, List, [], ◌∷◌, ◌++◌, Option, none, some, ◌≡◌, ◌≢◌,
  refl, ap, sym, ◌∙◌, arith, if◌then◌else◌, ltb, Bool-cases, Option-cases, inl, inr, All, nil, cons,
}
use mathlib.Core.Path.{subst}
use termulaa.Dict.{
  insert, lookup, delete, has, has-insert, has-delete, has-lookup, lookup-insert, lookup-delete,
}
use termulaa.Layout.Panes.{panes, IsTree}
use termulaa.Session.{Session}
use termulaa.Manager.{Tab, Manager, put_session, put_tab, delete_session, delete_sessions}
use termulaa.Layout.Count.{count, once}
use termulaa.Manager.Count.{used, used-insert, used-insert_le, used-delete_le}

abbrev pub kept : Bool → ℕ
kept b = if b then 1 else 0

abbrev pub HasTree : String × Tab → Type 0
HasTree e = IsTree (e.1).layout

pub All-insert :
    (id : String) (tab : Tab) (tabs : List (String × Tab))
    → IsTree tab.layout
    → All HasTree tabs
    → All HasTree (insert id tab tabs)
unfolding insert
All-insert id tab [] t nil = cons t nil
All-insert id tab ((j, u) ∷ tabs) t (cons h hs) = elim (Bool-cases (str_eq j id)) [
  | inl same ↦ rw same (cons t hs)
  | inr other ↦ rw other (cons h (All-insert id tab tabs t hs))
]

All-delete :
    (id : String) (tabs : List (String × Tab)) → All HasTree tabs → All HasTree (delete id tabs)
unfolding delete
All-delete id [] nil = nil
All-delete id ((j, u) ∷ tabs) (cons h hs) = elim (Bool-cases (str_eq j id)) [
  | inl same ↦ rw same (All-delete id tabs hs)
  | inr other ↦ rw other (cons h (All-delete id tabs hs))
]

pub lookup-IsTree :
    (id : String) (tab : Tab) (tabs : List (String × Tab))
    → All HasTree tabs
    → lookup id tabs ≡ some tab
    → IsTree tab.layout
unfolding lookup
lookup-IsTree id tab [] nil found = absurd (cc)
lookup-IsTree id tab ((j, u) ∷ tabs) (cons h hs) found = elim (Bool-cases (str_eq j id)) [
  | inl same ↦ let e : u ≡ tab = ground (arith, same) in subst {A = Tab} (λ t. IsTree t.layout) e h
  | inr other ↦ lookup-IsTree id tab tabs hs (ground (arith, other))
]

module _ (generate_id : ℕ → String) where
  -- Layouts are well-formed; a session is named by one pane of one tab at most, and only if the
  -- registry has it; and no session has an ID that is still to be generated.
  pub record BackedBy (sessions : List (String × Session)) (tabs : List (String × Tab))
      (generated : ℕ) : Type 0 where
    pub trees : All HasTree tabs
    pub backed : (x : String) → used x tabs ≤ kept (has x sessions)
    pub fresh : (k : ℕ) → generated ≤ k → has (generate_id k) sessions ≡ false

  abbrev pub Backed : Manager → Type 0
  Backed m = BackedBy m.sessions m.tabs m.generated

  pub put_session-Backed :
      (m : Manager) (id : String) (s : Session)
      → Backed m
      → ((k : ℕ) → m.generated ≤ k → id ≢ generate_id k)
      → Backed (put_session id s m)
  put_session-Backed m id s b apart = record {
    trees = b.trees;
    backed = λ x. ground (arith, has-insert id x s m.sessions, b.backed x);
    fresh = λ k h. ground (
      arith,
      has-insert id (generate_id k) s m.sessions,
      eq_iff id (generate_id k),
      apart k h,
      b.fresh k h,
    );
  }

  put_tab_lem :
      (m : Manager) (id : String) (new : Tab)
      → Backed m
      → IsTree new.layout
      → ((x : String) → used x (insert id new m.tabs) ≤ kept (has x m.sessions))
      → Backed (put_tab id new m)
  put_tab_lem m id new b tree fits = record {
    trees = All-insert id new m.tabs tree b.trees;
    backed = fits;
    fresh = b.fresh;
  }

  pub put_tab-Backed :
      (m : Manager) (id : String) (old new : Tab)
      → Backed m
      → lookup id m.tabs ≡ some old
      → IsTree new.layout
      → ((x : String)
          → used x m.tabs + count x (panes new.layout)
            ≤ kept (has x m.sessions) + count x (panes old.layout))
      → Backed (put_tab id new m)
  put_tab-Backed m id old new b found tree fits =
      put_tab_lem m id new b tree
        (λ x. omega (arith, used-insert x id new old m.tabs found, fits x))

  pub put_new_tab-Backed :
      (m : Manager) (id : String) (new : Tab)
      → Backed m
      → IsTree new.layout
      → ((x : String) → used x m.tabs + count x (panes new.layout) ≤ kept (has x m.sessions))
      → Backed (put_tab id new m)
  put_new_tab-Backed m id new b tree fits =
      put_tab_lem m id new b tree (λ x. omega (arith, used-insert_le x id new m.tabs, fits x))

  pub delete_session-Backed :
      (m : Manager) (id : String)
      → Backed m
      → used id m.tabs ≡ 0
      → Backed (delete_session id m).1 × ((delete_session id m).1.tabs ≡ m.tabs)
  unfolding delete_session
  delete_session-Backed m id b free = elim (Option-cases (lookup id m.sessions)) [
    | inl missing ↦ rw (missing, delete_session) (b, refl)
    | inr (s, found) ↦
        rw (found, delete_session)
          (
            record {
              trees = b.trees;
              backed = λ x. elim (Bool-cases (str_eq id x)) [
                | inl same ↦
                    subst (λ y. used y m.tabs ≤ kept (has y (delete id m.sessions)))
                      ((eq_iff id x).0 same) (omega (arith, free))
                | inr other ↦ ground (arith, has-delete id x m.sessions, other, b.backed x)
              ];
              fresh = λ k h. ground (arith, has-delete id (generate_id k) m.sessions, b.fresh k h);
            },
            refl,
          )
  ]

  pub delete_sessions-Backed :
      (ids : List String) (m : Manager)
      → Backed m
      → ((x : String) → 0 < count x ids → used x m.tabs ≡ 0)
      → Backed (delete_sessions ids m) × ((delete_sessions ids m).tabs ≡ m.tabs)
  unfolding delete_sessions
  delete_sessions-Backed [] m b free = (b, refl)
  delete_sessions-Backed (id ∷ ids) m b free =
      let d = delete_session-Backed m id b (free id (ground (arith, eq_iff id id))) in
      let e =
        delete_sessions-Backed ids (delete_session id m).1 d.0
          (λ x h. ap (used x) d.1 ∙ free x (omega (arith, h))) in
      (e.0, e.1 ∙ d.1)

  pub delete-Backed :
      (m : Manager) (id : String) → Backed m → Backed (record m { tabs = delete id m.tabs })
  delete-Backed m id b = record {
    trees = All-delete id m.tabs b.trees;
    backed = λ x. omega (arith, used-delete_le x id m.tabs, b.backed x);
    fresh = b.fresh;
  }
