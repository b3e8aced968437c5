-- ===== src/Manager/Disk/Restart.antt =====
-- What `SaveState` writes and `LoadState` reads, entry by entry.
use Prim.Native.String.{String}
use text.Mathlib.Text.{◌==◌ as str_eq}
use text.Mathlib.TextEquality.{eq_iff}
use termulaa.Prelude.{
  ℕ, ◌+◌, ◌≤◌, Bool, true, false, List, [], ◌∷◌, ◌++◌, Option, none, some, ◌≡◌, refl, ap, ◌∙◌,
  arith, if◌then◌else◌, ltb, Bool-cases, inl, inr, All, nil, cons,
}
use termulaa.Dict.{lookup, has, has-insert, lookup-insert}
use termulaa.Ring.{Bytes, read_all}
use termulaa.Layout.Panes.{panes, session_ids-eq-panes}
use termulaa.Layout.Count.{count, count-append}
use termulaa.Session.{Session, SessionMeta}
use termulaa.Manager.{Tab}
use termulaa.Manager.Count.{all_panes, used, used-insert_le}
use termulaa.Manager.Backed.{HasTree, All-insert}
use termulaa.Manager.Disk.{
  metas_of, save_rings, too_old, load_tabs, referenced_sessions, is_referenced, drop_orphans,
  restored, load_sessions,
}

pub has-metas_of : (x : String) (ss : List (String × Session)) → has x (metas_of ss) ≡ has x ss
unfolding has
has-metas_of x [] = refl
has-metas_of x ((id, s) ∷ ss) = ground (arith, has-metas_of x ss)

pub lookup-metas_of :
    (x : String) (s : Session) (ss : List (String × Session))
    → lookup x ss ≡ some s
    → lookup x (metas_of ss) ≡ some s.info
unfolding lookup
lookup-metas_of x s [] h = absurd (cc)
lookup-metas_of x s ((id, u) ∷ ss) h = elim (Bool-cases (str_eq id x)) [
  | inl same ↦ let e : u ≡ s = ground (arith, same) in rw same (ap (λ v. some v.info) e)
  | inr other ↦ rw other (lookup-metas_of x s ss (ground (arith, other)))
]

pub lookup-save_rings :
    (x : String) (s : Session) (ss : List (String × Session)) (files : List (String × Bytes))
    → lookup x ss ≡ some s
    → s.alive ≡ true
    → lookup x (save_rings ss files) ≡ some (read_all s.scrollback)
unfolding lookup save_rings
lookup-save_rings x s [] files h alive = absurd (cc)
lookup-save_rings x s ((id, u) ∷ ss) files h alive = elim (Bool-cases (str_eq id x)) [
  | inl same ↦
      let e : u ≡ s = ground (arith, same) in
      let up : u.alive ≡ true = ap (λ v. v.alive) e ∙ alive in
      rw (up, lookup-insert id x (read_all u.scrollback) (save_rings ss files), same)
        (ap (λ v. some (read_all v.scrollback)) e)
  | inr other ↦
      let rest = lookup-save_rings x s ss files (ground (arith, other)) alive in
      elim (Bool-cases u.alive) [
        | inl up ↦
            rw (up, lookup-insert id x (read_all u.scrollback) (save_rings ss files), other) rest
        | inr down ↦ rw down rest
      ]
]

is_referenced-count :
    (x : String) (refs : List String) → is_referenced x refs ≡ ltb 0 (count x refs)
unfolding is_referenced
is_referenced-count x [] = refl
is_referenced-count x (r ∷ refs) = ground (arith, is_referenced-count x refs)

pub count-referenced_sessions :
    (x : String) {tabs : List (String × Tab)}
    → All HasTree tabs
    → count x (referenced_sessions tabs) ≡ used x tabs
unfolding referenced_sessions
count-referenced_sessions x nil = refl
count-referenced_sessions x (cons {x = e} {xs = tabs} h hs) = ground (
  arith,
  count-append x (panes (e.1).layout) (referenced_sessions tabs),
  ap (λ ids. count x (ids ++ referenced_sessions tabs)) (session_ids-eq-panes h),
  count-append x (panes (e.1).layout) (all_panes tabs),
  count-referenced_sessions x hs,
)

pub lookup-drop_orphans :
    (x : String) (refs : List String) (ss : List (String × Session))
    → lookup x (drop_orphans refs ss).sessions
      ≡ (if ltb 0 (count x refs) then lookup x ss else none)
unfolding lookup drop_orphans
lookup-drop_orphans x refs [] = ground arith
lookup-drop_orphans x refs ((id, s) ∷ ss) = elim (Bool-cases (str_eq id x)) [
  | inl same ↦ ground (
    arith,
    same,
    is_referenced-count id refs,
    ap (λ y. count y refs) ((eq_iff id x).0 same),
    lookup-drop_orphans x refs ss,
  )
  | inr other ↦ ground (arith, other, is_referenced-count id refs, lookup-drop_orphans x refs ss)
]

pub load_tabs-HasTree :
    (cutoff : Option ℕ) {saved : List (String × Tab)}
    → All HasTree saved
    → All HasTree (load_tabs cutoff saved [])
unfolding load_tabs
load_tabs-HasTree cutoff nil = nil
load_tabs-HasTree cutoff (cons {x = e} {xs = saved} h hs) =
    let rest = load_tabs-HasTree cutoff hs in
    elim (Bool-cases (too_old cutoff (e.1).last_active)) [
      | inl old ↦ rw old rest
      | inr recent ↦ rw recent (All-insert e.0 e.1 (load_tabs cutoff saved []) h rest)
    ]

pub used-load_tabs :
    (x : String) (cutoff : Option ℕ) (saved : List (String × Tab))
    → used x (load_tabs cutoff saved []) ≤ used x saved
unfolding load_tabs
used-load_tabs x cutoff [] = omega arith
used-load_tabs x cutoff ((id, tab) ∷ saved) = ground (
  arith,
  used-load_tabs x cutoff saved,
  used-insert_le x id tab (load_tabs cutoff saved []),
  count-append x (panes tab.layout) (all_panes saved),
)

-- A tab that is too old is not loaded.
pub used-load_tabs_old :
    (x id : String) (tab : Tab) (cutoff : Option ℕ) (saved : List (String × Tab))
    → lookup id saved ≡ some tab
    → too_old cutoff tab.last_active ≡ true
    → used x (load_tabs cutoff saved []) + count x (panes tab.layout) ≤ used x saved
unfolding lookup load_tabs
used-load_tabs_old x id tab cutoff [] h old = absurd (cc)
used-load_tabs_old x id tab cutoff ((j, u) ∷ saved) h old = elim (Bool-cases (str_eq j id)) [
  | inl same ↦
      let e : u ≡ tab = ground (arith, same) in
      let gone : too_old cutoff u.last_active ≡ true =
        ap (λ t. too_old cutoff t.last_active) e ∙ old in
      ground (
        arith,
        gone,
        ap (λ t. count x (panes t.layout)) e,
        used-load_tabs x cutoff saved,
        count-append x (panes u.layout) (all_panes saved),
      )
  | inr other ↦ ground (
    arith,
    other,
    used-load_tabs_old x id tab cutoff saved (ground (arith, other)) old,
    used-insert_le x j u (load_tabs cutoff saved []),
    count-append x (panes u.layout) (all_panes saved),
  )
]

pub lookup-load_tabs :
    (id : String) (tab : Tab) (cutoff : Option ℕ) (saved : List (String × Tab))
    → lookup id saved ≡ some tab
    → too_old cutoff tab.last_active ≡ false
    → lookup id (load_tabs cutoff saved []) ≡ some tab
unfolding lookup load_tabs
lookup-load_tabs id tab cutoff [] h recent = absurd (cc)
lookup-load_tabs id tab cutoff ((j, u) ∷ saved) h recent = elim (Bool-cases (str_eq j id)) [
  | inl same ↦
      let e : u ≡ tab = ground (arith, same) in
      let new : too_old cutoff u.last_active ≡ false =
        ap (λ t. too_old cutoff t.last_active) e ∙ recent in
      rw (new, lookup-insert j id u (load_tabs cutoff saved []), same) (ap some e)
  | inr other ↦
      let rest = lookup-load_tabs id tab cutoff saved (ground (arith, other)) recent in
      elim (Bool-cases (too_old cutoff u.last_active)) [
        | inl old ↦ rw old rest
        | inr new ↦ rw (new, lookup-insert j id u (load_tabs cutoff saved []), other) rest
      ]
]

module _ (is_mark : ℕ → Bool) where
  -- A session in the state file that is not too old is loaded.
  pub lookup-load_sessions :
      (x : String) (meta : SessionMeta) (cutoff : Option ℕ) (size : ℕ)
      (files : List (String × Bytes)) (saved : List (String × SessionMeta))
      → lookup x saved ≡ some meta
      → too_old cutoff meta.last_active ≡ false
      → lookup x (load_sessions is_mark cutoff size files saved []).sessions
        ≡ some (restored is_mark size (lookup x files) meta)
  unfolding lookup load_sessions
  lookup-load_sessions x meta cutoff size files [] h recent = absurd (cc)
  lookup-load_sessions x meta cutoff size files ((id, u) ∷ saved) h recent =
      let made = restored is_mark size (lookup id files) u in
      let rest = (load_sessions is_mark cutoff size files saved []).sessions in
      elim (Bool-cases (str_eq id x)) [
        | inl same ↦
            let e : u ≡ meta = ground (arith, same) in
            let new : too_old cutoff u.last_active ≡ false =
              ap (λ t. too_old cutoff t.last_active) e ∙ recent in
            rw (new, lookup-insert id x made rest, same)
              (ap (λ y. some (restored is_mark size (lookup y files) u)) ((eq_iff id x).0 same)
                ∙ ap (λ t. some (restored is_mark size (lookup x files) t)) e)
        | inr other ↦
            let there =
              lookup-load_sessions x meta cutoff size files saved (ground (arith, other)) recent in
            elim (Bool-cases (too_old cutoff u.last_active)) [
              | inl old ↦ rw old there
              | inr new ↦ rw (new, lookup-insert id x made rest, other) there
            ]
      ]

  pub has-load_sessions :
      (x : String) (cutoff : Option ℕ) (size : ℕ) (files : List (String × Bytes))
      (saved : List (String × SessionMeta))
      → has x (load_sessions is_mark cutoff size files saved []).sessions ≡ true
      → has x saved ≡ true
  unfolding has load_sessions
  has-load_sessions x cutoff size files [] h = h
  has-load_sessions x cutoff size files ((id, u) ∷ saved) h =
      let made = restored is_mark size (lookup id files) u in
      let rest = (load_sessions is_mark cutoff size files saved []).sessions in
      ground (arith, has-insert id x made rest, has-load_sessions x cutoff size files saved)
