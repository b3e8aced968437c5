-- ===== src/Manager/Count.antt =====
-- How often the layouts of the tabs name a session.
use Prim.Native.String.{String}
use termulaa.Prelude.{ℕ, ◌+◌, ◌≤◌, List, [], ◌∷◌, ◌++◌, some, ◌≡◌, ap, arith}
use termulaa.Dict.{insert, lookup, delete}
use termulaa.Layout.Panes.{panes}
use termulaa.Layout.Split.{Inserted}
use termulaa.Layout.Close.{Removed}
use termulaa.Layout.Count.{once, count, count-append}
use termulaa.Manager.{Tab}

-- The panes of all tabs.
abbrev pub all_panes : List (String × Tab) → List String
all_panes [] = []
all_panes ((id, tab) ∷ tabs) = panes tab.layout ++ all_panes tabs

abbrev pub used : String → List (String × Tab) → ℕ
used x tabs = count x (all_panes tabs)

pub used-insert :
    (x id : String) (new old : Tab) (tabs : List (String × Tab))
    → lookup id tabs ≡ some old
    → used x (insert id new tabs) + count x (panes old.layout)
      ≡ used x tabs + count x (panes new.layout)
unfolding insert lookup
used-insert x id new old [] h = cc
used-insert x id new old ((j, tab) ∷ tabs) h = ground (
  arith,
  count-append x (panes tab.layout) (all_panes tabs),
  count-append x (panes new.layout) (all_panes tabs),
  count-append x (panes tab.layout) (all_panes (insert id new tabs)),
  used-insert x id new old tabs,
)

pub used-insert_le :
    (x id : String) (new : Tab) (tabs : List (String × Tab))
    → used x (insert id new tabs) ≤ used x tabs + count x (panes new.layout)
unfolding insert
used-insert_le x id new [] = omega (arith, count-append x (panes new.layout) [])
used-insert_le x id new ((j, tab) ∷ tabs) = ground (
  arith,
  count-append x (panes tab.layout) (all_panes tabs),
  count-append x (panes new.layout) (all_panes tabs),
  count-append x (panes tab.layout) (all_panes (insert id new tabs)),
  used-insert_le x id new tabs,
)

pub used-delete_le :
    (x id : String) (tabs : List (String × Tab)) → used x (delete id tabs) ≤ used x tabs
unfolding delete
used-delete_le x id [] = omega arith
used-delete_le x id ((j, tab) ∷ tabs) = ground (
  arith,
  count-append x (panes tab.layout) (all_panes tabs),
  count-append x (panes tab.layout) (all_panes (delete id tabs)),
  used-delete_le x id tabs,
)

pub used-delete :
    (x id : String) (old : Tab) (tabs : List (String × Tab))
    → lookup id tabs ≡ some old
    → used x (delete id tabs) + count x (panes old.layout) ≤ used x tabs
unfolding delete lookup
used-delete x id old [] h = cc
used-delete x id old ((j, tab) ∷ tabs) h = ground (
  arith,
  count-append x (panes tab.layout) (all_panes tabs),
  count-append x (panes tab.layout) (all_panes (delete id tabs)),
  used-delete x id old tabs,
  used-delete_le x id tabs,
)

pub used-lookup :
    (x id : String) (old : Tab) (tabs : List (String × Tab))
    → lookup id tabs ≡ some old
    → count x (panes old.layout) ≤ used x tabs
unfolding lookup
used-lookup x id old [] h = cc
used-lookup x id old ((j, tab) ∷ tabs) h =
    ground (arith, count-append x (panes tab.layout) (all_panes tabs), used-lookup x id old tabs)

pub count-Inserted :
    (x target new : String) {before after : List String}
    → Inserted target new before after
    → count x after ≡ count x before + once x new
count-Inserted x target new i = omega (
  arith,
  ap (count x) i.before_is,
  ap (count x) i.after_is,
  count-append x i.front (target ∷ i.back),
  count-append x i.front (target ∷ new ∷ i.back),
)

pub count-Removed :
    (x target : String) {before after : List String}
    → Removed target before after
    → count x after + once x target ≡ count x before
count-Removed x target r = omega (
  arith,
  ap (count x) r.before_is,
  ap (count x) r.after_is,
  count-append x r.front (target ∷ r.back),
  count-append x r.front r.back,
)
