-- ===== src/Manager/Backed/Creates.antt =====
-- The invariant of the registry under `CreateSession`, `ReviveSession`, `KillSession` and
-- `CreateTab`.
use Prim.Native.String.{String}
use text.Mathlib.Text.{◌==◌ as str_eq}
use text.Mathlib.TextEquality.{eq_iff}
use termulaa.Prelude.{
  ℕ, ◌+◌, ◌≤◌, Bool, Option, none, some, ◌≡◌, ◌≢◌, ap, sym, ◌∙◌, arith, if◌then◌else◌, Bool-cases,
  Option-cases, inl, inr,
}
use termulaa.Dict.{insert, lookup, has, has-insert, has-lookup}
use termulaa.Layout.Panes.{leaf}
use termulaa.Session.{Session}
use termulaa.Manager.{
  Manager, Result, ok, err, spawn_failed, put_session, create_session, revive_session, kill_session,
  finish_tab, create_tab, new_tab, spawn_session, default_session_cwd, default_session_size,
}
use termulaa.Layout.Count.{once}
use termulaa.Manager.Count.{used}
use termulaa.Manager.Fresh.{IsInjective}
use termulaa.Manager.Backed.{Backed, kept, put_session-Backed, put_new_tab-Backed}

module _ (generate_id : ℕ → String) (pty_start : String → Option ℕ) where
  abbrev pub counted : Manager → Manager
  counted m = record m { generated = m.generated + 1 }

  -- What `CreateSession` returns.
  pub data Created (m : Manager) : Result String × Manager → Type 0 where
    made :
        (s : Session)
        → Created m
            (ok (generate_id m.generated), put_session (generate_id m.generated) s (counted m))
    not_made : Created m (err spawn_failed, counted m)

  pub create_session-Created :
      (now : ℕ) (m : Manager) → Created m (create_session generate_id pty_start now m)
  unfolding create_session
  create_session-Created now m =
      let id = generate_id m.generated in
      let size = default_session_size m in
      elim (Option-cases
        (spawn_session m (pty_start id) id (default_session_cwd m) size.0 size.1 now none)) [
          | inl failed ↦ rw (failed, create_session) not_made
          | inr (s, started) ↦ rw (started, create_session) (made s)
        ]

  pub counted-Backed : (m : Manager) → Backed generate_id m → Backed generate_id (counted m)
  counted-Backed m b = record {
    trees = b.trees;
    backed = b.backed;
    fresh = λ k h. b.fresh k (omega (arith, h));
  }

  pub made-Backed :
      (m : Manager) (s : Session)
      → IsInjective generate_id
      → Backed generate_id m
      → Backed generate_id (put_session (generate_id m.generated) s (counted m))
  made-Backed m s inj b =
      put_session-Backed generate_id (counted m) (generate_id m.generated) s (counted-Backed m b)
        (λ k h e. absurd (omega (arith, h, inj m.generated k e)))

  -- No pane names the next session.
  pub next_unused : (m : Manager) → Backed generate_id m → used (generate_id m.generated) m.tabs ≡ 0
  next_unused m b =
      ground (arith, b.backed (generate_id m.generated), b.fresh m.generated (omega arith))

  -- The new session may be named once.
  pub made_fits :
      (m : Manager) (s : Session) (x : String)
      → Backed generate_id m
      → used x m.tabs + once x (generate_id m.generated)
        ≤ kept (has x (insert (generate_id m.generated) s m.sessions))
  made_fits m s x b =
      let new = generate_id m.generated in
      elim (Bool-cases (str_eq new x)) [
        | inl same ↦
            let e : used x m.tabs ≡ 0 =
              ap (λ y. used y m.tabs) (sym ((eq_iff new x).0 same)) ∙ next_unused m b in
            ground (arith, has-insert new x s m.sessions, same, e)
        | inr other ↦ ground (arith, has-insert new x s m.sessions, other, b.backed x)
      ]

  put_known_session :
      (m : Manager) (id : String) (s old : Session)
      → Backed generate_id m
      → lookup id m.sessions ≡ some old
      → Backed generate_id (put_session id s m)
  put_known_session m id s old b found = put_session-Backed generate_id m id s b (λ k h e. absurd (
      ground
        (arith, has-lookup id old m.sessions found, b.fresh k h, ap (λ x. has x m.sessions) e)))

  pub kill_session-Backed :
      (m : Manager) (id : String) → Backed generate_id m → Backed generate_id (kill_session id m).1
  unfolding kill_session
  kill_session-Backed m id b = elim (Option-cases (lookup id m.sessions)) [
    | inl missing ↦ rw (missing, kill_session) b
    | inr (s, found) ↦ rw (found, kill_session) (put_known_session m id _ s b found)
  ]

  pub revive_session-Backed :
      (m : Manager) (id : String) (cwd_exists : Bool) (now : ℕ)
      → Backed generate_id m
      → Backed generate_id (revive_session generate_id pty_start id cwd_exists now m).1
  unfolding revive_session
  revive_session-Backed m id cwd_exists now b = elim (Option-cases (lookup id m.sessions)) [
    | inl missing ↦ rw (missing, revive_session) b
    | inr (old, found) ↦
        rw (found, revive_session)
          (elim (Bool-cases old.alive) [
            | inl alive ↦ rw alive b
            | inr dead ↦
                rw dead
                  (elim (Option-cases (
                    spawn_session m (pty_start id) id
                      (if cwd_exists then old.info.cwd else default_session_cwd m) old.info.cols
                      old.info.rows now (some old.term))) [
                        | inl failed ↦ rw failed b
                        | inr (s, started) ↦ rw started (put_known_session m id s old b found)
                      ])
          ])
  ]

  finish_tab-Backed :
      (name : String) (now : ℕ) (m : Manager) {x : Result String × Manager}
      → IsInjective generate_id
      → ((k : ℕ) → generate_id k ≢ "")
      → Backed generate_id m
      → Created m x
      → Backed generate_id (finish_tab generate_id pty_start name now x).1
  unfolding finish_tab new_tab
  finish_tab-Backed name now m inj ne b (made s) =
      let new = generate_id m.generated in
      let m' = put_session new s (counted m) in
      put_new_tab-Backed generate_id (counted m') _ _ (counted-Backed m' (made-Backed m s inj b))
        (leaf (ne m.generated)) (λ x. omega (arith, made_fits m s x b))
  finish_tab-Backed name now m inj ne b not_made = counted-Backed m b

  pub create_tab-Backed :
      (name : String) (now : ℕ) (m : Manager)
      → IsInjective generate_id
      → ((k : ℕ) → generate_id k ≢ "")
      → Backed generate_id m
      → Backed generate_id (create_tab generate_id pty_start name now m).1
  unfolding create_tab
  create_tab-Backed name now m inj ne b =
      finish_tab-Backed name now m inj ne b (create_session-Created now m)
