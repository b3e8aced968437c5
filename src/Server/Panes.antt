-- ===== src/Server/Panes.antt =====
-- What the connection of a pane types, and when its client joins.
use Prim.Native.String.{String}
use text.Mathlib.Text.{◌==◌ as str_eq}
use termulaa.Prelude.{
  ℕ, Bool, true, false, not, ◌&&◌, ◌||◌, List, [], ◌∷◌, ◌++◌, Option, none, some, ◌≡◌, refl, sym,
  ap, ◌∙◌, arith, append_assoc, append-nil, if◌then◌else◌, Bool-cases, Option-cases, inl, inr,
}
use termulaa.Outbox.{Bytes}
use termulaa.Session.{
  Session, attach_client, detach_client, resize_session, record_output, shell_exited, broadcast,
}
use termulaa.Session.Quote.{shell_quote_path}
use termulaa.Session.Events.{
  Event, printed, joins, leaves, sized, pumped, told, exited, pump_finished, step,
}
use termulaa.Server.SessionSocket.{
  Pane, Control, write_input, tell, resize_pane, join_with, answered, join, finish, control,
  receive,
}

-- What runs for a connection, one after the other: a message, the goroutine that joins, the end, and
-- something else that happens to the session.
pub data PaneStep : Type 0 where
  received : Bool → Bytes → ℕ → PaneStep
  joining : Bool → Bool → PaneStep
  finishing : PaneStep
  happening : Event → PaneStep

module _ (is_mark : ℕ → Bool) (decode : Bytes → Option Control)
    (drop_file : String → Bytes → Option Bytes) where
  unfoldable pub pane_step : PaneStep → Pane → Pane
  unfolding receive join finish
  pane_step (received text msg now) p = receive decode drop_file text msg now p
  pane_step (joining grace_over sees_done) p = join grace_over sees_done p
  pane_step finishing p = finish p
  pane_step (happening e) p = record p { session = step is_mark e p.session }

  unfoldable pub pane_run : List PaneStep → Pane → Pane
  unfolding pane_step
  pane_run [] p = p
  pane_run (x ∷ xs) p = pane_run xs (pane_step x p)

  -- What a message is to type: nothing for a ping, a resize and the notice of closing, the quoted path
  -- of a file that was written, and else the message itself.
  abbrev pub input_of : Control → Bytes → Bytes
  input_of c msg =
      if str_eq c.type "ping" || str_eq c.type "resize"
      then []
      else if str_eq c.type "file"
      then elim (drop_file c.name c.file_data) [ none ↦ [] | some path ↦ shell_quote_path path ]
      else if str_eq c.type "closing"
      then []
      else msg

  abbrev pub typed_by : PaneStep → Bytes
  typed_by (received false msg now) = msg
  typed_by (received true msg now) = elim (decode msg) [ none ↦ msg | some c ↦ input_of c msg ]
  typed_by _ = []

  abbrev pub all_typed : List PaneStep → Bytes
  all_typed [] = []
  all_typed (x ∷ xs) = typed_by x ++ all_typed xs

  -- A step types `bs`, and the PTY stays.
  record Types (bs : Bytes) (p q : Pane) : Type 0 where
    typed : q.typed ≡ p.typed ++ bs
    has_pty : q.session.has_pty ≡ p.session.has_pty

  silent : (p : Pane) → Types [] p p
  silent p = record { typed = sym (append-nil p.typed); has_pty = refl }

  write_input-Types :
      (bs : Bytes) (now : ℕ) (p : Pane)
      → p.session.has_pty ≡ true
      → Types bs p (write_input bs now p)
  unfolding write_input
  write_input-Types bs now p h = rw h (record { typed = refl; has_pty = refl })

  tell-Types : (msg : Bytes) (p : Pane) → Types [] p (tell msg p)
  unfolding tell
  tell-Types msg p = elim (Bool-cases p.joined) [
    | inl inside ↦ rw (inside, tell) (record { typed = sym (append-nil p.typed); has_pty = refl })
    | inr outside ↦ rw (outside, tell) (record { typed = sym (append-nil p.typed); has_pty = refl })
  ]

  resize_pane-Types : (cols rows : ℕ) (p : Pane) → Types [] p (resize_pane cols rows p)
  unfolding resize_pane resize_session
  resize_pane-Types cols rows p = record {
    typed = sym (append-nil p.typed);
    has_pty = ground arith;
  }

  join_with-Types : (changed : Bool) (p : Pane) → Types [] p (join_with changed p)
  unfolding join_with attach_client
  join_with-Types changed p = record { typed = sym (append-nil p.typed); has_pty = refl }

  if-Types :
      {p q r : Pane} (b : Bool) → Types [] p q → Types [] p r → Types [] p (if b then q else r)
  if-Types true x y = x
  if-Types false x y = y

  answered-Types : (o : Option Bool) (g : Bool) (p : Pane) → Types [] p (answered o g p)
  answered-Types (some changed) g p = join_with-Types changed p
  answered-Types none g p = if-Types g (join_with-Types false p) (silent p)

  join-Types : (grace_over sees_done : Bool) (p : Pane) → Types [] p (join grace_over sees_done p)
  unfolding join
  join-Types grace_over sees_done p = if-Types (not p.waits) (silent p) (
      if-Types (p.finished && sees_done)
        (record { typed = sym (append-nil p.typed); has_pty = refl })
        (answered-Types p.sized grace_over p))

  finish-Types : (p : Pane) → Types [] p (finish p)
  unfolding finish detach_client
  finish-Types p = record { typed = sym (append-nil p.typed); has_pty = refl }

  step-has_pty : (e : Event) (s : Session) → (step is_mark e s).has_pty ≡ s.has_pty
  unfolding step record_output broadcast attach_client detach_client resize_session shell_exited
  step-has_pty (printed bs now) s = ground arith
  step-has_pty (joins c replay) s = refl
  step-has_pty (leaves k) s = refl
  step-has_pty (sized cols rows) s = ground arith
  step-has_pty (pumped k) s = refl
  step-has_pty (told k msg) s = refl
  step-has_pty (exited code) s = refl
  step-has_pty (pump_finished k notice) s = ground arith

  control-Types :
      (c : Control) (msg : Bytes) (now : ℕ) (p : Pane)
      → p.session.has_pty ≡ true
      → Types (input_of c msg) p (control decode drop_file c msg now p)
  unfolding control
  control-Types c msg now p h = elim (Bool-cases (str_eq c.type "ping")) [
    | inl pings ↦ rw (pings, control) (tell-Types _ p)
    | inr p1 ↦ elim (Bool-cases (str_eq c.type "resize")) [
      | inl sizes ↦ rw (p1, sizes, control) (resize_pane-Types c.cols c.rows p)
      | inr p2 ↦ elim (Bool-cases (str_eq c.type "file")) [
        | inl drops ↦ elim (Option-cases (drop_file c.name c.file_data)) [
          | inl lost ↦ rw (p1, p2, drops, lost, control) (silent p)
          | inr (path, kept) ↦
              rw (p1, p2, drops, kept, control) (write_input-Types (shell_quote_path path) now p h)
        ]
        | inr p3 ↦ elim (Bool-cases (str_eq c.type "closing")) [
          | inl closes ↦ rw (p1, p2, p3, closes, control) (silent p)
          | inr other ↦ rw (p1, p2, p3, other, control) (write_input-Types msg now p h)
        ]
      ]
    ]
  ]

  pane_step-Types :
      (x : PaneStep) (p : Pane) → p.session.has_pty ≡ true → Types (typed_by x) p (pane_step x p)
  unfolding pane_step receive
  pane_step-Types (received false msg now) p h = write_input-Types msg now p h
  pane_step-Types (received true msg now) p h = elim (Option-cases (decode msg)) [
    | inl plain ↦ rw (plain, receive, typed_by) (write_input-Types msg now p h)
    | inr (c, read) ↦ rw (read, receive, typed_by) (control-Types c msg now p h)
  ]
  pane_step-Types (joining grace_over sees_done) p h = join-Types grace_over sees_done p
  pane_step-Types finishing p h = finish-Types p
  pane_step-Types (happening e) p h = record {
    typed = sym (append-nil p.typed);
    has_pty = step-has_pty e p.session;
  }

  -- In whatever order messages, the client's joining, its end and other events of the session follow
  -- each other, a pane of a session with a PTY types what its messages are to type, in their order,
  -- and nothing else: input that comes before the client has joined is not lost.
  pub pane_run-typed :
      (xs : List PaneStep) (p : Pane)
      → p.session.has_pty ≡ true
      → (pane_run xs p).typed ≡ p.typed ++ all_typed xs
  unfolding pane_run
  pane_run-typed [] p h = sym (append-nil p.typed)
  pane_run-typed (x ∷ xs) p h =
      let here = pane_step-Types x p h in
      pane_run-typed xs (pane_step x p) (here.has_pty ∙ h)
      ∙ ap (λ bs. bs ++ all_typed xs) here.typed
      ∙ append_assoc p.typed (typed_by x) (all_typed xs)
