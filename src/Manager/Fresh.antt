-- ===== src/Manager/Fresh.antt =====
-- The IDs generated for a copied layout.
use Prim.Native.String.{String}
use text.Mathlib.Text.{◌==◌ as str_eq}
use text.Mathlib.TextEquality.{eq_iff}
use termulaa.Prelude.{
  ℕ, ◌+◌, ◌≤◌, ◌<◌, false, List, [], ◌∷◌, ◌++◌, ◌≡◌, refl, ap, sym, ◌∙◌, arith, append_assoc,
  length, length-append, Bool-cases, inl, inr,
}
use mathlib.Core.Path.{subst}
use termulaa.Dict.{insert, has}
use termulaa.Layout.{LayoutNode, Renaming, replace_all_sessions_recursive, replace_all_sessions}
use termulaa.Layout.Panes.{panes, IsTree, leaf, branch}
use termulaa.Layout.Copy.{fresh_ids, fresh_ids-append}
use termulaa.Layout.Count.{count, count-append}
use termulaa.Manager.Panes.{values}

abbrev pub keys : List (String × String) → List String
keys [] = []
keys ((old, new) ∷ m) = old ∷ keys m

insert_new :
    (k v : String) (m : List (String × String))
    → count k (keys m) ≡ 0
    → (values (insert k v m) ≡ values m ++ v ∷ []) × (keys (insert k v m) ≡ keys m ++ k ∷ [])
unfolding insert
insert_new k v [] h = (refl, refl)
insert_new k v ((j, u) ∷ m) h = ground (arith, insert_new k v m)

module _ (generate_id : ℕ → String) where
  -- No ID is generated twice.
  abbrev pub IsInjective : Type 0
  IsInjective = (j k : ℕ) → generate_id j ≡ generate_id k → j ≡ k

  pub count-fresh_older :
      (j k : ℕ) (ids : List String)
      → IsInjective
      → j < k
      → count (generate_id j) (fresh_ids generate_id k ids) ≡ 0
  count-fresh_older j k [] inj h = refl
  count-fresh_older j k (id ∷ ids) inj h =
      ground (
        arith,
        eq_iff (generate_id k) (generate_id j),
        inj k j,
        count-fresh_older j (k + 1) ids inj,
      )

  pub count-fresh_le :
      (x : String) (k : ℕ) (ids : List String)
      → IsInjective
      → count x (fresh_ids generate_id k ids) ≤ 1
  count-fresh_le x k [] inj = omega arith
  count-fresh_le x k (id ∷ ids) inj = ground (
    arith,
    eq_iff (generate_id k) x,
    count-fresh_older k (k + 1) ids inj,
    count-fresh_le x (k + 1) ids inj,
  )

  pub count-fresh_later :
      (j k : ℕ) (ids : List String)
      → IsInjective
      → k + length ids ≤ j
      → count (generate_id j) (fresh_ids generate_id k ids) ≡ 0
  count-fresh_later j k [] inj h = refl
  count-fresh_later j k (id ∷ ids) inj h =
      ground (
        arith,
        eq_iff (generate_id k) (generate_id j),
        inj k j,
        count-fresh_later j (k + 1) ids inj,
      )

  -- A property of all IDs not generated yet.
  pub fresh_has {ℓ} :
      {V : Type ℓ} (x : String) (k : ℕ) (ids : List String) (m : List (String × V))
      → ((j : ℕ) → k ≤ j → has (generate_id j) m ≡ false)
      → 0 < count x (fresh_ids generate_id k ids)
      → has x m ≡ false
  fresh_has x k [] m unused h = absurd (omega arith)
  fresh_has x k (id ∷ ids) m unused h = elim (Bool-cases (str_eq (generate_id k) x)) [
    | inl same ↦
        subst (λ y. has y m ≡ false) ((eq_iff (generate_id k) x).0 same) (unused k (omega arith))
    | inr other ↦ fresh_has x (k + 1) ids m (λ j a. unused j (omega arith)) (ground (arith, other))
  ]

  record Mapped (ids : List String) (m : Renaming) (out : Renaming) : Type 0 where
    values_are : values out.mapping ≡ values m.mapping ++ fresh_ids generate_id m.generated ids
    keys_are : keys out.mapping ≡ keys m.mapping ++ ids
    counted : out.generated ≡ m.generated + length ids

  copy-Mapped :
      {n : LayoutNode} (m : Renaming)
      → IsTree n
      → ((x : String) → count x (keys m.mapping) + count x (panes n) ≤ 1)
      → Mapped (panes n) m (replace_all_sessions_recursive generate_id n m).1
  unfolding replace_all_sessions_recursive
  copy-Mapped m (leaf {id} p) apart =
      let new = generate_id m.generated in
      let e = insert_new id new m.mapping (ground (arith, apart id, eq_iff id id)) in
      record { values_are = e.0; keys_are = e.1; counted = omega arith }
  copy-Mapped m (branch {first = a} {second = b} f s) apart =
      let x = replace_all_sessions_recursive generate_id a m in
      let c = copy-Mapped m f (λ y. omega (arith, apart y, count-append y (panes a) (panes b))) in
      let e = copy-Mapped x.1 s (λ y. omega (
        arith,
        apart y,
        ap (count y) c.keys_are,
        count-append y (keys m.mapping) (panes a),
        count-append y (panes a) (panes b),
      )) in
      record {
        values_are =
            e.values_are
            ∙ ap (λ k. values x.1.mapping ++ fresh_ids generate_id k (panes b)) c.counted
            ∙ ap (λ xs. xs ++ fresh_ids generate_id (m.generated + length (panes a)) (panes b))
                c.values_are
            ∙ append_assoc (values m.mapping) (fresh_ids generate_id m.generated (panes a))
                (fresh_ids generate_id (m.generated + length (panes a)) (panes b))
            ∙ ap (λ xs. values m.mapping ++ xs)
                (sym (fresh_ids-append generate_id m.generated (panes a) (panes b)));
        keys_are =
            e.keys_are
            ∙ ap (λ xs. xs ++ panes b) c.keys_are
            ∙ append_assoc (keys m.mapping) (panes a) (panes b);
        counted = omega (arith, c.counted, e.counted, length-append (panes a) (panes b));
      }

  -- When no pane has the session of another, the map has one new ID for each pane.
  pub replace_all_sessions-values :
      {n : LayoutNode} (generated : ℕ)
      → IsTree n
      → ((x : String) → count x (panes n) ≤ 1)
      → values (replace_all_sessions generate_id n generated).1.mapping
        ≡ fresh_ids generate_id generated (panes n)
  unfolding replace_all_sessions
  replace_all_sessions-values {n} generated t apart =
      (copy-Mapped (record { generated = generated; mapping = [] }) t
        (λ x. omega (arith, apart x))).values_are
