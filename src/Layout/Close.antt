-- ===== src/Layout/Close.antt =====
-- `closePaneInLayout`: one pane goes and its sibling takes the place of their split.
use Prim.Native.String.{String}
use text.Mathlib.TextEquality.{eq_iff}
use termulaa.Prelude.{
  ℕ, Bool, true, false, List, [], ◌∷◌, ◌++◌, ◌≡◌, ◌≢◌, inl, inr, refl, sym, ◌∙◌, ap, arith,
  append-nil, append_assoc, Bool-cases, All, nil, cons, All-append,
}
use termulaa.Layout.{
  split, LayoutNode, node, is_pane, is_pane_of, close_pane_in_layout, in_children,
}
use termulaa.Layout.Panes.{panes, IsTree, leaf, branch}

-- `after` is `before` without one `target`.
pub record Removed (target : String) (before after : List String) : Type 0 where
  pub front : List String
  pub back : List String
  pub before_is : before ≡ front ++ (target ∷ back)
  pub after_is : after ≡ front ++ back

-- What a call returns: a tree with one pane less and `true`, or the same tree and `false`, and then
-- it is a single pane or has no such pane.
pub data CloseResult (target : String) (n : LayoutNode) : LayoutNode × Bool → Type 0 where
  did :
      {m : LayoutNode}
      → IsTree m
      → Removed target (panes n) (panes m)
      → CloseResult target n (m, true)
  single : is_pane n ≡ true → CloseResult target n (n, false)
  did_not : All (λ id. id ≢ target) (panes n) → CloseResult target n (n, false)

module _ {target : String} where
  Removed-append :
      {before after : List String} (more : List String)
      → Removed target before after
      → Removed target (before ++ more) (after ++ more)
  Removed-append more i = record {
    front = i.front;
    back = i.back ++ more;
    before_is = ap (λ xs. xs ++ more) i.before_is ∙ append_assoc i.front (target ∷ i.back) more;
    after_is = ap (λ xs. xs ++ more) i.after_is ∙ append_assoc i.front i.back more;
  }

  append-Removed :
      {before after : List String} (more : List String)
      → Removed target before after
      → Removed target (more ++ before) (more ++ after)
  append-Removed more i = record {
    front = more ++ i.front;
    back = i.back;
    before_is =
        ap (λ xs. more ++ xs) i.before_is ∙ sym (append_assoc more i.front (target ∷ i.back));
    after_is = ap (λ xs. more ++ xs) i.after_is ∙ sym (append_assoc more i.front i.back);
  }

-- A child that is not the pane sought, and is a pane, holds no such pane.
no_pane :
    {n : LayoutNode} (target : String)
    → IsTree n
    → is_pane_of target n ≡ false
    → is_pane n ≡ true
    → All (λ id. id ≢ target) (panes n)
no_pane target (leaf {id} p) differs k = cons (ground (arith, eq_iff id target)) nil
no_pane target (branch f s) differs k = absurd (cc)

-- A child that is the pane sought.
pub is_pane_of-panes :
    {n : LayoutNode} (target : String)
    → IsTree n
    → is_pane_of target n ≡ true
    → panes n ≡ target ∷ []
is_pane_of-panes target (leaf {id} p) same = ap (λ x. x ∷ []) ((eq_iff id target).0 same)
is_pane_of-panes target (branch f s) same = absurd (cc)

-- A child's result, where the child is not the pane sought.
data ChildResult (target : String) (n : LayoutNode) : LayoutNode × Bool → Type 0 where
  child_did :
      {m : LayoutNode}
      → IsTree m
      → Removed target (panes n) (panes m)
      → ChildResult target n (m, true)
  child_did_not : All (λ id. id ≢ target) (panes n) → ChildResult target n (n, false)

in_child :
    {n : LayoutNode} {target : String} {x : LayoutNode × Bool}
    → IsTree n
    → is_pane_of target n ≡ false
    → CloseResult target n x
    → ChildResult target n x
in_child t differs (did m i) = child_did m i
in_child {target} t differs (single k) = child_did_not (no_pane target t differs k)
in_child t differs (did_not none_there) = child_did_not none_there

close_children :
    {target id d : String} {r : ℕ} {first second : LayoutNode} {x y : LayoutNode × Bool}
    → IsTree first
    → IsTree second
    → ChildResult target first x
    → ChildResult target second y
    → CloseResult target
        (node split id d r first second)
        (in_children (node split id d r) first second x y)
close_children {second = b} f s (child_did t i) y = did (branch t s) (Removed-append (panes b) i)
close_children {first = a} f s (child_did_not no_first) (child_did t i) =
    did (branch f t) (append-Removed (panes a) i)
close_children f s (child_did_not no_first) (child_did_not no_second) =
    did_not (All-append no_first no_second)

-- Closing a pane of a well-formed layout either removes one pane of that session and keeps the
-- layout well-formed, or returns it unchanged with `false`, and then it is a single pane or no pane
-- has that session.
pub close_pane_in_layout-CloseResult :
    {n : LayoutNode} (target : String)
    → IsTree n
    → CloseResult target n (close_pane_in_layout n target)
unfolding close_pane_in_layout
close_pane_in_layout-CloseResult target (leaf p) = single refl
close_pane_in_layout-CloseResult target (branch {first = a} {second = b} f s) =
    elim (Bool-cases (is_pane_of target a)) [
      | inl first_is ↦ rw first_is (
          did s (record {
            front = [];
            back = panes b;
            before_is = ap (λ xs. xs ++ panes b) (is_pane_of-panes target f first_is);
            after_is = refl;
          }))
      | inr not_first ↦ rw not_first (elim (Bool-cases (is_pane_of target b)) [
        | inl second_is ↦ rw second_is (
            did f (record {
              front = panes a;
              back = [];
              before_is = ap (λ xs. panes a ++ xs) (is_pane_of-panes target s second_is);
              after_is = sym (append-nil (panes a));
            }))
        | inr not_second ↦ rw not_second (
            close_children f s (in_child f not_first (close_pane_in_layout-CloseResult target f))
              (in_child s not_second (close_pane_in_layout-CloseResult target s)))
      ])
    ]
