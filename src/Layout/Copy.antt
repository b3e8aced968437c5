-- ===== src/Layout/Copy.antt =====
-- `replaceAllSessions`: a copy of the same shape over fresh sessions.
use Prim.Native.String.{String}
use termulaa.Prelude.{
  ℕ, ◌+◌, List, [], ◌∷◌, ◌++◌, ◌≡◌, ◌≢◌, refl, sym, ◌∙◌, ap, arith, length, length-append,
}
use termulaa.Layout.{
  pane, split, LayoutNode, absent, node, Renaming, replace_all_sessions_recursive,
  replace_all_sessions,
}
use termulaa.Layout.Panes.{panes, IsTree, leaf, branch}

-- Two layouts that differ in their sessions alone.
pub data SameShape : LayoutNode → LayoutNode → Type 0 where
  both_panes :
      {id id' d d' : String} {r r' : ℕ}
      → SameShape (node pane id d r absent absent) (node pane id' d' r' absent absent)
  both_splits :
      {id id' d : String} {r : ℕ} {first first' second second' : LayoutNode}
      → SameShape first first'
      → SameShape second second'
      → SameShape (node split id d r first second) (node split id' d r first' second')

module _ (generate_id : ℕ → String) where
  -- The next `n` IDs.
  abbrev pub fresh_ids : ℕ → List String → List String
  fresh_ids k [] = []
  fresh_ids k (id ∷ ids) = generate_id k ∷ fresh_ids (k + 1) ids

  pub fresh_ids-append :
      (k : ℕ) (xs ys : List String)
      → fresh_ids k (xs ++ ys) ≡ fresh_ids k xs ++ fresh_ids (k + length xs) ys
  fresh_ids-append k [] ys = ap (λ j. fresh_ids j ys) (omega arith)
  fresh_ids-append k (x ∷ xs) ys = ap (◌∷◌ (generate_id k)) (
      fresh_ids-append (k + 1) xs ys
      ∙ ap (λ j. fresh_ids (k + 1) xs ++ fresh_ids j ys) (omega arith))

  -- What copying `n` from the renaming `m` gives.
  record Copied (n : LayoutNode) (m : Renaming) (out : LayoutNode × Renaming) : Type 0 where
    shape : SameShape n out.0
    tree : IsTree out.0
    ids : panes out.0 ≡ fresh_ids m.generated (panes n)
    count : out.1.generated ≡ m.generated + length (panes n)

  copy-Copied :
      {n : LayoutNode} (m : Renaming)
      → ((k : ℕ) → generate_id k ≢ "")
      → IsTree n
      → Copied n m (replace_all_sessions_recursive generate_id n m)
  unfolding replace_all_sessions_recursive
  copy-Copied m ne (leaf p) = record {
    shape = both_panes;
    tree = leaf (ne m.generated);
    ids = refl;
    count = omega arith;
  }
  copy-Copied m ne (branch {first = a} {second = b} f s) =
      let x = replace_all_sessions_recursive generate_id a m in
      let c = copy-Copied m ne f in
      let e = copy-Copied x.1 ne s in
      record {
        shape = both_splits c.shape e.shape;
        tree = branch c.tree e.tree;
        ids =
            ap (λ xs. panes x.0 ++ xs) (e.ids ∙ ap (λ k. fresh_ids k (panes b)) c.count)
            ∙ ap (λ xs. xs ++ fresh_ids (m.generated + length (panes a)) (panes b)) c.ids
            ∙ sym (fresh_ids-append m.generated (panes a) (panes b));
        count = omega (arith, c.count, e.count, length-append (panes a) (panes b));
      }

  -- With IDs that are never empty, the copy of a well-formed layout is well-formed and of the same shape, directions and ratios
  -- included, and its panes have the next generated IDs, in the order of the tree, one for each.
  pub replace_all_sessions-copies :
      {n : LayoutNode} (generated : ℕ)
      → ((k : ℕ) → generate_id k ≢ "")
      → IsTree n
      → let out = replace_all_sessions generate_id n generated in
        SameShape n out.0
        × IsTree out.0
        × (panes out.0 ≡ fresh_ids generated (panes n))
        × (out.1.generated ≡ generated + length (panes n))
  unfolding replace_all_sessions
  replace_all_sessions-copies {n} generated ne t =
      let c = copy-Copied (record { generated = generated; mapping = [] }) ne t in
      (c.shape, c.tree, c.ids, c.count)
