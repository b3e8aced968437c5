-- ===== src/Tests/Layouts.antt =====
-- cmd/termulaa/tabs.go: a tab of two panes.
use Prim.Native.String.{String}
use text.Mathlib.Text.{◌==◌ as str_eq}
use text.Mathlib.TextEquality.{eq_iff}
use termulaa.Prelude.{
  ℕ, ◌≡◌, ◌≢◌, refl, Bool-cases, inl, inr, false, ◌==◌, length, ◌+◌, if◌then◌else◌, arith,
}
use termulaa.Layout.{
  split, LayoutNode, pane_of, node, split_layout_node, close_pane_in_layout, replace_all_sessions,
}
use termulaa.Layout.Panes.{panes, IsTree, leaf, branch}
use termulaa.Layout.Split.{SplitResult, split_layout_node-SplitResult}
use termulaa.Layout.Close.{CloseResult, close_pane_in_layout-CloseResult}
use termulaa.Layout.Copy.{SameShape, fresh_ids, replace_all_sessions-copies}

distinct : (s t : String) → str_eq s t ≡ false → s ≢ t
distinct s t h = ground (arith, eq_iff s t)

abbrev two_panes : LayoutNode
two_panes = node split "" "horizontal" 500 (pane_of "a") (pane_of "b")

two_panes-IsTree : IsTree two_panes
two_panes-IsTree = branch (leaf (distinct "a" "" refl)) (leaf (distinct "b" "" refl))

split_layout_node-SplitResult_example :
    SplitResult "b" "c" two_panes (split_layout_node two_panes "b" "c" "vertical")
split_layout_node-SplitResult_example =
    split_layout_node-SplitResult "b" "c" "vertical" (distinct "c" "" refl) two_panes-IsTree

close_pane_in_layout-CloseResult_example :
    CloseResult "a" two_panes (close_pane_in_layout two_panes "a")
close_pane_in_layout-CloseResult_example = close_pane_in_layout-CloseResult "a" two_panes-IsTree

abbrev some_id : ℕ → String
some_id k = if k == 0 then "x" else "y"

some_id_not_empty : (k : ℕ) → some_id k ≢ ""
some_id_not_empty k = elim (Bool-cases (k == 0)) [
  | inl first ↦ rw first (distinct "x" "" refl)
  | inr later ↦ rw later (distinct "y" "" refl)
]

replace_all_sessions-copies_example :
    let out = replace_all_sessions some_id two_panes 0 in
    SameShape two_panes out.0
    × IsTree out.0
    × (panes out.0 ≡ fresh_ids some_id 0 (panes two_panes))
    × (out.1.generated ≡ 0 + length (panes two_panes))
replace_all_sessions-copies_example =
    replace_all_sessions-copies some_id 0 some_id_not_empty two_panes-IsTree
