-- ===== src/Layout.antt =====
-- cmd/termulaa/tabs.go: the tree of split panes of a tab. A node keeps every field of the struct,
-- whatever its `Type` says; `absent` is the nil pointer. The functions that change a tree in place
-- return the new tree. The ratio is in thousandths; it is only set and copied.
pub mod Panes
pub mod Split
pub mod Close
pub mod Copy
pub mod Count
pub mod Matches
use Prim.Native.String.{String}
use text.Mathlib.Text.{◌==◌ as str_eq}
use termulaa.Dict.{insert, get}
use termulaa.Prelude.{
  ℕ, ◌+◌, Bool, true, false, not, ◌&&◌, List, [], ◌∷◌, ◌++◌, ◌==◌, length, if◌then◌else◌,
}

-- `Type`: "pane", "split", or any other string.
pub data NodeType : Type 0 where
  pane split other : NodeType

pub data LayoutNode : Type 0 where
  absent : LayoutNode
  node : NodeType → String → String → ℕ → LayoutNode → LayoutNode → LayoutNode

abbrev pub pane_of : String → LayoutNode
pane_of id = node pane id "" 0 absent absent

abbrev pub is_pane : LayoutNode → Bool
is_pane absent = false
is_pane (node pane id d r first second) = true
is_pane (node split id d r first second) = false
is_pane (node other id d r first second) = false

abbrev pub session_id : LayoutNode → String
session_id absent = ""
session_id (node k id d r first second) = id

-- node != nil && node.Type == "pane" && node.SessionID == id
abbrev pub is_pane_of : String → LayoutNode → Bool
is_pane_of id n = is_pane n && str_eq (session_id n) id

-- `walkLayout`: `visit` is called on every node, a parent before its children.
unfoldable pub walk_layout {ℓ} : {S : Type ℓ} → (LayoutNode → S → S) → LayoutNode → S → S
walk_layout visit absent s = s
walk_layout visit (node k id d r first second) s =
    walk_layout visit second (walk_layout visit first (visit (node k id d r first second) s))

abbrev pub collect_id : LayoutNode → List String → List String
collect_id n ids =
    if is_pane n && not (str_eq (session_id n) "") then ids ++ session_id n ∷ [] else ids

unfoldable pub session_ids : LayoutNode → List String
unfolding walk_layout
session_ids layout = walk_layout collect_id layout []

unfoldable pub has_session : String → LayoutNode → Bool
unfolding walk_layout
has_session id layout =
    walk_layout (λ n found. if is_pane_of id n then true else found) layout false

unfoldable pub pane_count : LayoutNode → ℕ
unfolding walk_layout
pane_count layout = walk_layout (λ n count. if is_pane n then count + 1 else count) layout 0

-- What a search in two children returns: the second is searched if the first has no result.
abbrev pub in_children :
    (LayoutNode → LayoutNode → LayoutNode)
    → LayoutNode
    → LayoutNode
    → LayoutNode × Bool
    → LayoutNode × Bool
    → LayoutNode × Bool
in_children build first second (first', found) (second', found') =
    if found then (build first' second, true) else (build first' second', found')

unfoldable pub split_layout_node : LayoutNode → String → String → String → LayoutNode × Bool
split_layout_node absent target new direction = (absent, false)
split_layout_node (node pane id d r first second) target new direction =
    if str_eq id target
    then (node split "" direction 500 (node pane id d r first second) (pane_of new), true)
    else (node pane id d r first second, false)
split_layout_node (node split id d r first second) target new direction =
    in_children (node split id d r) first second (split_layout_node first target new direction)
      (split_layout_node second target new direction)
split_layout_node (node other id d r first second) target new direction =
    (node other id d r first second, false)

unfoldable pub close_pane_in_layout : LayoutNode → String → LayoutNode × Bool
close_pane_in_layout absent id = (absent, false)
close_pane_in_layout (node pane k d r first second) id = (node pane k d r first second, false)
close_pane_in_layout (node split k d r first second) id =
    if is_pane_of id first
    then (second, true)
    else if is_pane_of id second
    then (first, true)
    else in_children (node split k d r) first second (close_pane_in_layout first id)
        (close_pane_in_layout second id)
close_pane_in_layout (node other k d r first second) id = (node other k d r first second, false)

abbrev pub count_id : LayoutNode → List (String × ℕ) → List (String × ℕ)
count_id n counts =
    if is_pane n && not (str_eq (session_id n) "")
    then insert (session_id n) (get 0 (session_id n) counts + 1) counts
    else counts

unfoldable pub all_once : List (String × ℕ) → List String → Bool
all_once counts [] = true
all_once counts (id ∷ expected) = get 0 id counts == 1 && all_once counts expected

unfoldable pub layout_matches_session_set : LayoutNode → List String → Bool
unfolding walk_layout insert get all_once
layout_matches_session_set layout expected =
    let counts = walk_layout count_id layout [] in
    if not (length counts == length expected) then false else all_once counts expected

-- What `replaceAllSessions` carries: how many IDs have been generated, and the map from old to new.
pub record Renaming : Type 0 where
  pub generated : ℕ
  pub mapping : List (String × String)

module _ (generate_id : ℕ → String) where
  unfoldable pub replace_all_sessions_recursive : LayoutNode → Renaming → LayoutNode × Renaming
  replace_all_sessions_recursive absent m = (absent, m)
  replace_all_sessions_recursive (node pane id d r first second) m =
      let new = generate_id m.generated in
      (pane_of new, record { generated = m.generated + 1; mapping = insert id new m.mapping })
  replace_all_sessions_recursive (node split id d r first second) m =
      let (first', m') = replace_all_sessions_recursive first m in
      let (second', m'') = replace_all_sessions_recursive second m' in
      (node split "" d r first' second', m'')
  replace_all_sessions_recursive (node other id d r first second) m = (absent, m)

  unfoldable pub replace_all_sessions : LayoutNode → ℕ → LayoutNode × Renaming
  unfolding replace_all_sessions_recursive
  replace_all_sessions n generated =
      replace_all_sessions_recursive n (record { generated = generated; mapping = [] })
