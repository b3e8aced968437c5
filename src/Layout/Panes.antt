-- ===== src/Layout/Panes.antt =====
-- The panes of a layout, from first to second.
use Prim.Native.String.{String}
use text.Mathlib.TextEquality.{eq_iff}
use termulaa.Prelude.{ℕ, List, [], ◌∷◌, ◌++◌, ◌≡◌, ◌≢◌, ◌∙◌, ap, arith, append_assoc}
use termulaa.Layout.{
  pane, split, other, LayoutNode, absent, node, session_ids, walk_layout, collect_id,
}

-- The sessions of the panes: only a split has children that count.
abbrev pub panes : LayoutNode → List String
panes absent = []
panes (node pane id d r first second) = id ∷ []
panes (node split id d r first second) = panes first ++ panes second
panes (node other id d r first second) = []

-- Panes are leaves with a session, and splits have two children.
pub data IsTree : LayoutNode → Type 0 where
  leaf : {id d : String} {r : ℕ} → id ≢ "" → IsTree (node pane id d r absent absent)
  branch :
      {id d : String} {r : ℕ} {first second : LayoutNode}
      → IsTree first
      → IsTree second
      → IsTree (node split id d r first second)

walk-collect_id :
    {layout : LayoutNode} (ids : List String)
    → IsTree layout
    → walk_layout collect_id layout ids ≡ ids ++ panes layout
unfolding walk_layout
walk-collect_id ids (leaf {id} ne) = ground (arith, eq_iff id "")
walk-collect_id ids (branch {first = l} {second = m} f s) =
    walk-collect_id (walk_layout collect_id l ids) s
    ∙ ap (λ xs. xs ++ panes m) (walk-collect_id ids f)
    ∙ append_assoc ids (panes l) (panes m)

-- On a well-formed layout `SessionIDs` lists the sessions of the panes, in the order of the tree.
pub session_ids-eq-panes : {layout : LayoutNode} → IsTree layout → session_ids layout ≡ panes layout
unfolding session_ids
session_ids-eq-panes t = walk-collect_id [] t
