-- ===== src/Server/Joins.antt =====
-- Who gets in to a session, and a client that joins too late.
use Prim.Native.String.{String}
use text.Mathlib.TextEquality.{eq_iff}
use termulaa.Prelude.{
  ℕ, Bool, true, false, not, ◌||◌, Option, none, some, ◌≡◌, refl, sym, ap, arith, if◌then◌else◌,
  Option-cases, inl, inr,
}
use termulaa.Dict.{lookup, insert, lookup-insert}
use termulaa.Vterm.State.{Terminal}
use termulaa.Session.{Session, new_session}
use termulaa.Manager.{Manager, ok, revive_session, spawn_session, put_session, default_session_cwd}
use termulaa.Manager.Owners.{can_attach_session}
use termulaa.Server.{is_valid_id}
use termulaa.Server.SessionSocket.{
  Entry, refused, entered, revived, enter, new_pane, resize_pane, join, finish,
}

-- An entry is to session `id`, which the registry has and whose shell runs.
abbrev pub IsAlive : String → Entry × Manager → Type 0
IsAlive id (refused code, m) = Unit {0}
IsAlive id (entered s r, m) = (lookup id m.sessions ≡ some s) × (s.alive ≡ true)

otherwise {ℓ κ} :
    {A : Type ℓ} (P : A → Type κ) {x y : A} (b : Bool)
    → (b ≡ true → P x)
    → (b ≡ false → P y)
    → P (if b then x else y)
otherwise P true p q = p refl
otherwise P false p q = q refl

abbrev pub is_entered : Entry → Bool
is_entered (entered s r) = true
is_entered (refused code) = false

abbrev runs : Option Session → Bool
runs none = true
runs (some s) = s.alive

spawn_session-alive :
    (m : Manager) (started : Option ℕ) (id cwd : String) (cols rows now : ℕ)
    (carried : Option Terminal) (s : Session)
    → spawn_session m started id cwd cols rows now carried ≡ some s
    → s.alive ≡ true
unfolding spawn_session new_session
spawn_session-alive m none id cwd cols rows now carried s e = absurd cc
spawn_session-alive m (some pid) id cwd cols rows now carried s e = sym (ap runs e)

module _ (generate_id : ℕ → String) (pty_start : String → Option ℕ) where
  revived-ok :
      (id : String) (m : Manager) (s : Session)
      → lookup id m.sessions ≡ some s
      → s.alive ≡ true
      → IsAlive id (revived generate_id pty_start id (ok id, m))
  unfolding revived
  revived-ok id m s found alive = rw (found, revived, IsAlive) (found, alive)

  revived-IsAlive :
      (id : String) (cwd_exists : Bool) (now : ℕ) (m : Manager) (old : Session)
      → lookup id m.sessions ≡ some old
      → old.alive ≡ false
      → IsAlive id (
          revived generate_id pty_start id
            (revive_session generate_id pty_start id cwd_exists now m))
  unfolding revived revive_session
  revived-IsAlive id cwd_exists now m old found dead =
      let spawned =
        spawn_session m (pty_start id) id
          (if cwd_exists then old.info.cwd else default_session_cwd m) old.info.cols old.info.rows
          now (some old.term) in
      elim (Option-cases spawned) [
        | inl failed ↦ rw (found, dead, failed, revive_session) tt
        | inr (s, started) ↦
            let there : lookup id (insert id s m.sessions) ≡ some s =
              ground (arith, lookup-insert id id s m.sessions, eq_iff id id) in
            rw (found, dead, started, revive_session)
              (revived-ok id (put_session id s m) s there (
                spawn_session-alive m (pty_start id) id
                  (if cwd_exists then old.info.cwd else default_session_cwd m) old.info.cols
                  old.info.rows now (some old.term) s started))
      ]

  -- A pane connection that is not refused has a token that lets it attach, and gets a session with
  -- this ID that the registry has and whose shell runs: it ran, or has been started again.
  pub enter-IsAlive :
      (id tab token : String) (cwd_exists : Bool) (now : ℕ) (m : Manager)
      → is_entered (enter generate_id pty_start id tab token cwd_exists now m).0 ≡ true
      → (can_attach_session tab id token m ≡ true)
        × IsAlive id (enter generate_id pty_start id tab token cwd_exists now m)
  unfolding enter
  enter-IsAlive id tab token cwd_exists now m =
      otherwise Fits (not (is_valid_id id)) (λ bad h. absurd cc)
        (λ valid.
          otherwise Fits (not (is_valid_id tab) || not (is_valid_id token)) (λ bad h. absurd cc)
            (λ named.
              otherwise Fits (not (can_attach_session tab id token m)) (λ bad h. absurd cc)
                (λ held.
                  let allowed : can_attach_session tab id token m ≡ true = ground (arith, held) in
                  elim (Option-cases (lookup id m.sessions)) [
                    | inl missing ↦ rw missing (λ h. absurd cc)
                    | inr (s, found) ↦ rw found (
                        otherwise Fits s.alive (λ alive h. (allowed, (found, alive)))
                          (λ dead h. (allowed, revived-IsAlive id cwd_exists now m s found dead)))
                  ])))
    where
      Fits : Entry × Manager → Type 0
      Fits out =
          is_entered out.0 ≡ true → (can_attach_session tab id token m ≡ true) × IsAlive id out

-- The session after a page has opened a pane, sent its first size and left, and the goroutine that
-- joins the client has run behind that and has taken the size.
abbrev pub left_early : ℕ → ℕ → ℕ → String → String → Session → Session
left_early key cols rows tab token s =
    (join false false (finish (resize_pane cols rows (new_pane s key tab token)))).session
