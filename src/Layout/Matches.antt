-- ===== src/Layout/Matches.antt =====
-- `layoutMatchesSessionSet`: the layouts that a client may send name the sessions that the tab has.
use Prim.Native.String.{String}
use text.Mathlib.Text.{◌==◌ as str_eq}
use text.Mathlib.TextEquality.{eq_iff}
use termulaa.Prelude.{
  ℕ, suc, ◌+◌, ◌≤◌, ◌<◌, true, List, [], ◌∷◌, ◌≡◌, refl, ap, sym, ◌∙◌, arith, if◌then◌else◌, length,
  ltb, Bool-cases, inl, inr,
}
use mathlib.Core.Path.{subst}
use termulaa.Dict.{insert, get}
use termulaa.Layout.{LayoutNode, walk_layout, count_id, all_once, layout_matches_session_set}
use termulaa.Layout.Panes.{panes, IsTree, leaf, branch}
use termulaa.Layout.Count.{count, count-append, count-length}

names : List (String × ℕ) → List String
names [] = []
names ((k, v) ∷ m) = k ∷ names m

length-names : (m : List (String × ℕ)) → length (names m) ≡ length m
unfolding names
length-names [] = refl
length-names ((k, v) ∷ m) = ap suc (length-names m)

get-names : (x : String) (m : List (String × ℕ)) → 0 < get 0 x m → 0 < count x (names m)
unfolding names get
get-names x [] h = h
get-names x ((k, v) ∷ m) h = ground (arith, get-names x m)

get-insert :
    (k j : String) (v : ℕ) (m : List (String × ℕ))
    → get 0 j (insert k v m) ≡ (if str_eq k j then v else get 0 j m)
unfolding get insert
get-insert k j v [] = ground arith
get-insert k j v ((i, u) ∷ m) =
    ground (arith, eq_iff k j, eq_iff i k, eq_iff i j, get-insert k j v m)

get-walk :
    {layout : LayoutNode} (x : String) (m : List (String × ℕ))
    → IsTree layout
    → get 0 x (walk_layout count_id layout m) ≡ get 0 x m + count x (panes layout)
unfolding walk_layout
get-walk x m (leaf {id} ne) = elim (Bool-cases (str_eq id "")) [
  | inl empty ↦ absurd (ne ((eq_iff id "").0 empty))
  | inr named ↦
      rw (named, get-insert id x (get 0 id m + 1) m)
        (elim (Bool-cases (str_eq id x)) [
          | inl same ↦ rw (same, (eq_iff id x).0 same) (omega arith)
          | inr other ↦ rw other (omega arith)
        ])
]
get-walk x m (branch {first = a} {second = b} f s) = omega (
  arith,
  get-walk x (walk_layout count_id a m) s,
  get-walk x m f,
  count-append x (panes a) (panes b),
)

all_once-get :
    (x : String) (m : List (String × ℕ)) (ids : List String)
    → all_once m ids ≡ true
    → 0 < count x ids
    → get 0 x m ≡ 1
unfolding all_once
all_once-get x m [] h k = absurd (omega arith)
all_once-get x m (id ∷ ids) h k =
    let (one, rest) : (get 0 id m ≡ 1) × (all_once m ids ≡ true) = ground arith in
    elim (Bool-cases (str_eq id x)) [
      | inl same ↦ ap (λ y. get 0 y m) (sym ((eq_iff id x).0 same)) ∙ one
      | inr other ↦ all_once-get x m ids rest (ground (arith, other))
    ]

-- When the counts have no more names than are expected, a name that is not expected has count 0.
no_other :
    (x : String) (m : List (String × ℕ)) (expected : List String)
    → ((y : String) → count y expected ≤ 1)
    → length m ≡ length expected
    → all_once m expected ≡ true
    → count x expected ≡ 0
    → get 0 x m ≡ 0
no_other x m expected apart long all missing = elim (Bool-cases (ltb 0 (get 0 x m))) [
  | inr absent_there ↦ ground arith
  | inl there ↦
      let here = get-names x m (ground (arith, there)) in
      let fits : (y : String) → count y (x ∷ expected) ≤ count y (names m) = λ y.
        elim (Bool-cases (str_eq x y)) [
          | inl same ↦
              subst (λ z. count z (x ∷ expected) ≤ count z (names m)) ((eq_iff x y).0 same)
                (ground (arith, eq_iff x x, missing, here))
          | inr other ↦ ground (arith, other, apart y, all_once-get y m expected all, get-names y m)
        ] in
      absurd (omega (arith, count-length (x ∷ expected) (names m) fits, length-names m, long))
]

-- With no session expected twice, a well-formed layout that `layoutMatchesSessionSet` accepts has
-- as many panes of each session as the sessions expected name it: one for each, and no other.
pub layout_matches_session_set-count :
    {layout : LayoutNode} (expected : List String) (x : String)
    → IsTree layout
    → ((y : String) → count y expected ≤ 1)
    → layout_matches_session_set layout expected ≡ true
    → count x (panes layout) ≡ count x expected
unfolding layout_matches_session_set
layout_matches_session_set-count {layout} expected x tree apart h =
    let counts = walk_layout count_id layout [] in
    let long : length counts ≡ length expected = ground arith in
    let all : all_once counts expected ≡ true = ground arith in
    ground (
      arith,
      apart x,
      all_once-get x counts expected all,
      no_other x counts expected apart long all,
      get-walk x [] tree,
    )
