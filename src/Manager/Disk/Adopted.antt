-- ===== src/Manager/Disk/Adopted.antt =====
-- `Adopt`: the sessions before and after it.
use Prim.Native.String.{String}
use text.Mathlib.Text.{◌==◌ as str_eq}
use text.Mathlib.TextEquality.{eq_iff}
use mathlib.Core.Path.{subst}
use termulaa.Prelude.{
  ℕ, Bool, true, not, ◌||◌, List, [], ◌∷◌, Option, none, some, ◌≡◌, refl, ap, ◌∙◌, arith, ◌==◌,
  Bool-cases, Option-cases, inl, inr,
}
use termulaa.Dict.{insert, lookup, has, has-insert, has-lookup, lookup-insert}
use termulaa.Session.{Session, adopt_session}
use termulaa.Manager.{Manager}
use termulaa.Manager.Disk.{adopt_file, adopt}

-- The session keeps its picture and its output, and it has the ID it had; it runs if it ran.
pub record KeptOn (s s' : Session) : Type 0 where
  pub same_term : s'.term ≡ s.term
  pub same_ring : s'.scrollback ≡ s.scrollback
  pub same_id : s'.info.id ≡ s.info.id
  pub still_alive : s.alive ≡ true → s'.alive ≡ true

pub same_KeptOn : (s : Session) → KeptOn s s
same_KeptOn s = record { same_term = refl; same_ring = refl; same_id = refl; still_alive = λ h. h }

pub adopted-KeptOn :
    (s : Session) (pid now : ℕ) → KeptOn s (adopt_session s.info pid now s.scrollback s.term)
unfolding adopt_session
adopted-KeptOn s pid now = record {
  same_term = refl;
  same_ring = refl;
  same_id = refl;
  still_alive = λ h. refl;
}

pub trans_KeptOn : {s s' s'' : Session} → KeptOn s s' → KeptOn s' s'' → KeptOn s s''
trans_KeptOn a b = record {
  same_term = b.same_term ∙ a.same_term;
  same_ring = b.same_ring ∙ a.same_ring;
  same_id = b.same_id ∙ a.same_id;
  still_alive = λ h. b.still_alive (a.still_alive h);
}

module _ (is_running : ℕ → Bool) where
  -- What `Adopt` does with one file.
  data Adopting (m : Manager) : Manager × ℕ → Type 0 where
    left : Adopting m (m, 0)
    taken :
        (id : String) (pid now : ℕ) (old : Session)
        → lookup id m.sessions ≡ some old
        → Adopting m (
          record m {
            sessions =
                insert id (adopt_session old.info pid now old.scrollback old.term) m.sessions;
          },
          1,
        )

  adopt_file-Adopting :
      (f : Option (String × ℕ)) (now : ℕ) (m : Manager) → Adopting m (adopt_file is_running f now m)
  unfolding adopt_file
  adopt_file-Adopting none now m = left
  adopt_file-Adopting (some (id, pid)) now m = elim (Option-cases (lookup id m.sessions)) [
    | inl missing ↦ rw (missing, adopt_file) left
    | inr (old, found) ↦
        rw (found, adopt_file)
          (elim (Bool-cases (pid == 0 || not (is_running pid))) [
            | inl dead ↦ rw dead left
            | inr running ↦ rw running (taken id pid now old found)
          ])
  ]

  record StepKept (m : Manager) (out : Manager × ℕ) : Type 0 where
    has_same : (x : String) → has x (out.0).sessions ≡ has x m.sessions
    tabs_same : (out.0).tabs ≡ m.tabs
    kept_on :
        (x : String) (s : Session)
        → lookup x m.sessions ≡ some s
        → (s' : Session) × (lookup x (out.0).sessions ≡ some s') × KeptOn s s'

  Adopting-StepKept : {m : Manager} {out : Manager × ℕ} → Adopting m out → StepKept m out
  Adopting-StepKept left = record {
    has_same = λ x. refl;
    tabs_same = refl;
    kept_on = λ x s h. (s, h, same_KeptOn s);
  }
  Adopting-StepKept {m} (taken id pid now old found) =
      let new = adopt_session old.info pid now old.scrollback old.term in
      record {
        has_same = λ x. elim (Bool-cases (str_eq id x)) [
          | inl same ↦
              has-insert id x new m.sessions
              ∙ ground (
                arith,
                same,
                has-lookup id old m.sessions found,
                ap (λ y. has y m.sessions) ((eq_iff id x).0 same),
              )
          | inr other ↦ ground (arith, other, has-insert id x new m.sessions)
        ];
        tabs_same = refl;
        kept_on = λ x s h. elim (Bool-cases (str_eq id x)) [
          | inl same ↦
              let e : old ≡ s =
                ground (arith, found, h, ap (λ y. lookup y m.sessions) ((eq_iff id x).0 same)) in
              (
                new,
                ground (arith, same, lookup-insert id x new m.sessions),
                subst (λ t. KeptOn t new) e (adopted-KeptOn old pid now),
              )
          | inr other ↦
              (s, ground (arith, other, h, lookup-insert id x new m.sessions), same_KeptOn s)
        ];
      }

  pub adopt-KeptOn :
      (files : List (Option (String × ℕ))) (now : ℕ) (m : Manager)
      → let m' = (adopt is_running files now m).0 in
        (m'.tabs ≡ m.tabs)
        × ((x : String) → has x m'.sessions ≡ has x m.sessions)
        × ((x : String) (s : Session)
            → lookup x m.sessions ≡ some s
            → (s' : Session) × (lookup x m'.sessions ≡ some s') × KeptOn s s')
  unfolding adopt
  adopt-KeptOn [] now m = (refl, λ x. refl, λ x s h. (s, h, same_KeptOn s))
  adopt-KeptOn (f ∷ files) now m =
      let first = Adopting-StepKept (adopt_file-Adopting f now m) in
      let m' = (adopt_file is_running f now m).0 in
      let rest = adopt-KeptOn files now m' in
      (
        rest.0 ∙ first.tabs_same,
        λ x. rest.1 x ∙ first.has_same x,
        λ x s h.
            let (s', found, k) = first.kept_on x s h in
            let (s'', found', k') = rest.2 x s' found in (s'', found', trans_KeptOn k k'),
      )
