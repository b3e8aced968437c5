-- ===== src/Layout/Split.antt =====
-- `splitLayoutNode`: the target's pane is split, or the tree is as it was.
use Prim.Native.String.{String}
use text.Mathlib.Text.{◌==◌ as str_eq}
use text.Mathlib.TextEquality.{eq_iff}
use termulaa.Prelude.{
  ℕ, Bool, true, false, List, [], ◌∷◌, ◌++◌, ◌≡◌, ◌≢◌, inl, inr, sym, ◌∙◌, ap, arith, append_assoc,
  Bool-cases, All, nil, cons, All-append,
}
use termulaa.Layout.{split, LayoutNode, node, split_layout_node, in_children}
use termulaa.Layout.Panes.{panes, IsTree, leaf, branch}

-- `after` has `new` right behind one `target` of `before`.
pub record Inserted (target new : String) (before after : List String) : Type 0 where
  pub front : List String
  pub back : List String
  pub before_is : before ≡ front ++ (target ∷ back)
  pub after_is : after ≡ front ++ (target ∷ new ∷ back)

-- What a call returns: a tree with one pane more and `true`, or the same tree and `false`, and then
-- there is no such pane.
pub data SplitResult (target new : String) (n : LayoutNode) : LayoutNode × Bool → Type 0 where
  did :
      {m : LayoutNode}
      → IsTree m
      → Inserted target new (panes n) (panes m)
      → SplitResult target new n (m, true)
  did_not : All (λ id. id ≢ target) (panes n) → SplitResult target new n (n, false)

module _ {target new : String} where
  Inserted-append :
      {before after : List String} (more : List String)
      → Inserted target new before after
      → Inserted target new (before ++ more) (after ++ more)
  Inserted-append more i = record {
    front = i.front;
    back = i.back ++ more;
    before_is = ap (λ xs. xs ++ more) i.before_is ∙ append_assoc i.front (target ∷ i.back) more;
    after_is = ap (λ xs. xs ++ more) i.after_is ∙ append_assoc i.front (target ∷ new ∷ i.back) more;
  }

  append-Inserted :
      {before after : List String} (more : List String)
      → Inserted target new before after
      → Inserted target new (more ++ before) (more ++ after)
  append-Inserted more i = record {
    front = more ++ i.front;
    back = i.back;
    before_is =
        ap (λ xs. more ++ xs) i.before_is ∙ sym (append_assoc more i.front (target ∷ i.back));
    after_is =
        ap (λ xs. more ++ xs) i.after_is ∙ sym (append_assoc more i.front (target ∷ new ∷ i.back));
  }

  split_children :
      {id d : String} {r : ℕ} {first second : LayoutNode} {x y : LayoutNode × Bool}
      → IsTree first
      → IsTree second
      → SplitResult target new first x
      → SplitResult target new second y
      → SplitResult target new
          (node split id d r first second)
          (in_children (node split id d r) first second x y)
  split_children {second = b} f s (did t i) y = did (branch t s) (Inserted-append (panes b) i)
  split_children {first = a} f s (did_not no_first) (did t i) =
      did (branch f t) (append-Inserted (panes a) i)
  split_children f s (did_not no_first) (did_not no_second) =
      did_not (All-append no_first no_second)

-- Splitting a well-formed layout for a new session with a non-empty ID either puts the new pane right behind the target's and keeps it
-- well-formed, or returns it unchanged with `false`, and then no pane has the target's session.
pub split_layout_node-SplitResult :
    {n : LayoutNode} (target new direction : String)
    → new ≢ ""
    → IsTree n
    → SplitResult target new n (split_layout_node n target new direction)
unfolding split_layout_node
split_layout_node-SplitResult target new direction ne (leaf {id} {d} {r} p) =
    elim (Bool-cases (str_eq id target)) [
      | inl same ↦ rw same (
          did (branch (leaf p) (leaf ne)) (record {
            front = [];
            back = [];
            before_is = rw ((eq_iff id target).0 same);
            after_is = rw ((eq_iff id target).0 same);
          }))
      | inr differs ↦ rw differs (did_not (cons (ground (arith, eq_iff id target)) nil))
    ]
split_layout_node-SplitResult target new direction ne (branch f s) =
    split_children f s (split_layout_node-SplitResult target new direction ne f)
      (split_layout_node-SplitResult target new direction ne s)
