-- ===== src/Manager/Disk/Running.antt =====
-- `Adopt`: which sessions run behind it, and with which shell.
use Prim.Native.String.{String}
use text.Mathlib.Text.{◌==◌ as str_eq}
use text.Mathlib.TextEquality.{eq_iff}
use termulaa.Prelude.{
  ℕ, Bool, true, false, not, ◌&&◌, ◌||◌, List, [], ◌∷◌, Option, none, some, ◌≡◌, refl, ap, sym,
  arith, ◌==◌, Bool-cases, Option-cases, inl, inr, if◌then◌else◌,
}
use mathlib.Core.Path.{subst}
use termulaa.Dict.{insert, lookup, has, lookup-insert}
use termulaa.Session.{Session, adopt_session}
use termulaa.Manager.{Manager}
use termulaa.Manager.Disk.{adopt_file, adopt}
use termulaa.Manager.Disk.Adopted.{KeptOn, same_KeptOn, adopted-KeptOn, trans_KeptOn, adopt-KeptOn}

-- The second, unless the first is there.
abbrev pub later : Option ℕ → Option ℕ → Option ℕ
later (some p) r = some p
later none r = r

-- The session runs, with the shell of this PID and its PTY.
pub record Runs (pid : ℕ) (s : Session) : Type 0 where
  pub same_pid : s.pid ≡ pid
  pub with_pty : s.has_pty ≡ true
  pub is_alive : s.alive ≡ true
  pub not_done : s.done ≡ false

-- A session before and after: with a PID it runs, without one nothing of it has changed.
pub data Outcome (s : Session) : Option ℕ → Session → Type 0 where
  untouched : Outcome s none s
  taken_over : {s' : Session} (pid : ℕ) → Runs pid s' → Outcome s (some pid) s'

Outcome-later :
    {s s' s'' : Session} {r r' : Option ℕ}
    → Outcome s r s'
    → Outcome s' r' s''
    → Outcome s (later r' r) s''
Outcome-later first untouched = first
Outcome-later first (taken_over pid runs) = taken_over pid runs

module _ (is_running : ℕ → Bool) where
  -- The PID in the name of the file, if it is for session `x` and is a process.
  abbrev pub running_in : String → Option (String × ℕ) → Option ℕ
  running_in x none = none
  running_in x (some (id, pid)) =
      if str_eq id x && (not (pid == 0) && is_running pid) then some pid else none

  -- That of the last such file.
  abbrev pub running_pid : String → List (Option (String × ℕ)) → Option ℕ
  running_pid x [] = none
  running_pid x (f ∷ files) = later (running_pid x files) (running_in x f)

  -- Session `x` in the registry behind the call.
  record Ends (x : String) (s : Session) (r : Option ℕ) (m : Manager) : Type 0 where
    session : Session
    found : lookup x m.sessions ≡ some session
    kept_on : KeptOn s session
    outcome : Outcome s r session

  left_alone :
      {x : String} {s : Session} {r : Option ℕ} {m : Manager}
      → lookup x m.sessions ≡ some s
      → r ≡ none
      → Ends x s r m
  left_alone {x} {s} {r} {m} found e = record {
    session = s;
    found = found;
    kept_on = same_KeptOn s;
    outcome = subst (λ q. Outcome s q s) (sym e) untouched;
  }

  adopted_Ends :
      (x id : String) (pid now : ℕ) (m : Manager) (s old : Session)
      → lookup x m.sessions ≡ some s
      → lookup id m.sessions ≡ some old
      → (pid == 0 || not (is_running pid)) ≡ false
      → Ends x s (running_in x (some (id, pid))) (record m {
        sessions = insert id (adopt_session old.info pid now old.scrollback old.term) m.sessions;
      })
  unfolding adopt_session
  adopted_Ends x id pid now m s old h found running =
      let new = adopt_session old.info pid now old.scrollback old.term in
      elim (Bool-cases (str_eq id x)) [
        | inl same ↦
            let e : old ≡ s =
              ground (arith, found, h, ap (λ y. lookup y m.sessions) ((eq_iff id x).0 same)) in
            let r : some pid ≡ running_in x (some (id, pid)) = ground (arith, same, running) in
            record {
              session = new;
              found = ground (arith, same, lookup-insert id x new m.sessions);
              kept_on = subst (λ t. KeptOn t new) e (adopted-KeptOn old pid now);
              outcome =
                  subst (λ q. Outcome s q new) r
                    (taken_over pid (record {
                      same_pid = refl;
                      with_pty = refl;
                      is_alive = refl;
                      not_done = refl;
                    }));
            }
        | inr other ↦
            left_alone (ground (arith, other, h, lookup-insert id x new m.sessions))
              (ground (arith, other))
      ]

  adopt_file-Ends :
      (x : String) (f : Option (String × ℕ)) (now : ℕ) (m : Manager) (s : Session)
      → lookup x m.sessions ≡ some s
      → Ends x s (running_in x f) (adopt_file is_running f now m).0
  unfolding adopt_file
  adopt_file-Ends x none now m s h = left_alone h refl
  adopt_file-Ends x (some (id, pid)) now m s h = elim (Option-cases (lookup id m.sessions)) [
    | inl missing ↦
        let other : str_eq id x ≡ false =
          ground (arith, missing, h, eq_iff id x, ap (λ y. lookup y m.sessions)) in
        rw (missing, adopt_file) (left_alone h (ground (arith, other)))
    | inr (old, found) ↦
        rw (found, adopt_file)
          (elim (Bool-cases (pid == 0 || not (is_running pid))) [
            | inl dead ↦ rw dead (left_alone h (ground (arith, dead)))
            | inr running ↦ rw running (adopted_Ends x id pid now m s old h found running)
          ])
  ]

  adopt-Ends :
      (x : String) (files : List (Option (String × ℕ))) (now : ℕ) (m : Manager) (s : Session)
      → lookup x m.sessions ≡ some s
      → Ends x s (running_pid x files) (adopt is_running files now m).0
  unfolding adopt
  adopt-Ends x [] now m s h = left_alone h refl
  adopt-Ends x (f ∷ files) now m s h =
      let first = adopt_file-Ends x f now m s h in
      let m' = (adopt_file is_running f now m).0 in
      let rest = adopt-Ends x files now m' first.session first.found in
      record {
        session = rest.session;
        found = rest.found;
        kept_on = trans_KeptOn first.kept_on rest.kept_on;
        outcome = Outcome-later first.outcome rest.outcome;
      }

  -- Whatever files are handed over, `Adopt` leaves the tabs as they are and makes and removes no
  -- session. A session for which a file names a PID other than 0 that is a process runs afterwards,
  -- with the PID of the last such file and a PTY, and keeps its ID, its picture and its output; a
  -- session without such a file is exactly what it was.
  pub adopt-Outcome :
      (x : String) (files : List (Option (String × ℕ))) (now : ℕ) (m : Manager) (s : Session)
      → lookup x m.sessions ≡ some s
      → let m' = (adopt is_running files now m).0 in
        (m'.tabs ≡ m.tabs)
        × ((y : String) → has y m'.sessions ≡ has y m.sessions)
        × (s' : Session) × (lookup x m'.sessions ≡ some s')
        × KeptOn s s'
        × Outcome s (running_pid x files) s'
  adopt-Outcome x files now m s h =
      let same = adopt-KeptOn is_running files now m in
      let ends = adopt-Ends x files now m s h in
      (same.0, same.1, ends.session, ends.found, ends.kept_on, ends.outcome)
