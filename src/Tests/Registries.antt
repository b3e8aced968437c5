-- ===== src/Tests/Registries.antt =====
-- cmd/termulaa/manager.go and session.go: a registry with a tab of two panes, and a client that joins
-- a session.
use Prim.Native.String.{String}
use text.Mathlib.Text.{◌==◌ as str_eq}
use text.Mathlib.TextEquality.{eq_iff}
use mathlib.Core.Path.{subst}
use termulaa.Prelude.{
  ℕ, zero, suc, ◌≤◌, Bool, true, false, List, [], ◌∷◌, ◌++◌, Option, none, some, ◌≡◌, ◌≢◌, refl, ap,
  arith, ascii, length, nil, cons, Bool-cases, inl, inr, if◌then◌else◌,
}
use termulaa.Dict.{lookup, has}
use termulaa.Layout.{
  LayoutNode, split, node, pane_of, has_session, split_layout_node, layout_matches_session_set,
  session_ids,
}
use termulaa.Layout.Panes.{panes, IsTree, leaf, branch}
use termulaa.Layout.Count.{count}
use termulaa.Layout.Matches.{layout_matches_session_set-count}
use termulaa.Session.{
  Session, SessionMeta, new_session, default_scrollback_bytes, find_client, attach_client,
  new_attached, shell_exited,
}
use termulaa.Session.Events.{
  Event, printed, pumped, sized, told, exited, pump_finished, step, run, heard,
}
use termulaa.Session.Ending.{Flushed, output_of, pump_finished-Flushed}
use termulaa.Session.Message.{scrollback_message}
use termulaa.Session.Hearing.{Hears, attach_client-Hears}
use termulaa.Outbox.Laws.{tagged}
use termulaa.Vterm.Snapshot.{snapshot}
use termulaa.Manager.{Config, Manager, new_manager, create_tab, update_tab, create_session}
use termulaa.Manager.Fresh.{IsInjective}
use termulaa.Manager.Owners.{can_attach_session, register_tab_client, delete_tab}
use termulaa.Manager.Panes.{split_pane}
use termulaa.Manager.Requests.{
  Request, tab_created, tab_updated, tab_deleted, pane_split, client_registered, session_deleted,
  perform_all, AreAllowed,
}
use termulaa.Manager.Backed.{Backed}
use termulaa.Manager.Safe.{perform_all-Backed, new_manager-Backed, can_attach_session-lookup}

-- "x", "xx", and so on.
abbrev pub id_at : ℕ → String
id_at zero = "x"
id_at (suc k) = String.◌∷◌ "x" (id_at k)

length-id_at : (k : ℕ) → length (ascii (id_at k)) ≡ suc k
length-id_at zero = refl
length-id_at (suc k) = ap suc (length-id_at k)

pub id_at_injective : IsInjective id_at
id_at_injective j k e = omega (arith, ap (λ s. length (ascii s)) e, length-id_at j, length-id_at k)

pub id_at_not_empty : (k : ℕ) → id_at k ≢ ""
id_at_not_empty k e = absurd (omega (arith, ap (λ s. length (ascii s)) e, length-id_at k))

-- The shell of the fourth session does not start.
abbrev pub some_start : String → Option ℕ
some_start id = if str_eq id "xxxx" then none else some 7

abbrev pub defaults : Config
defaults = record { cleanup_after = 0; scrollback_bytes = 0; default_cols = 0; default_rows = 0 }

abbrev pub calls : List Request
calls =
    tab_created "shell" 5
    ∷ pane_split "xx" "x" "vertical" 6
    ∷ pane_split "xx" "x" "vertical" 7
    ∷ client_registered "xx" (record { conn = 1; token = "t" })
    ∷ []

abbrev pub after : Manager
after = perform_all id_at some_start calls (new_manager defaults "/bin/sh" "/root")

pub after-Backed : Backed id_at after
after-Backed =
    perform_all-Backed id_at some_start calls (new_manager defaults "/bin/sh" "/root")
      id_at_injective id_at_not_empty (tt, (tt, (tt, (tt, tt))))
      (new_manager-Backed id_at some_start defaults "/bin/sh" "/root")

-- The panes of the tab, the other way round.
abbrev pub swapped : LayoutNode
swapped = node split "" "vertical" 300 (pane_of "xxx") (pane_of "x")

pub swapped-IsTree : IsTree swapped
swapped-IsTree =
    branch (leaf (λ e. absurd (omega (arith, ap (λ s. length (ascii s)) e))))
      (leaf (λ e. absurd (omega (arith, ap (λ s. length (ascii s)) e))))

-- A second tab is made and deleted without its session, which is then deleted.
abbrev late_calls : List Request
late_calls =
    tab_updated "xx" "" swapped 8
    ∷ tab_created "second" 9
    ∷ tab_deleted "xxxxxx" false
    ∷ session_deleted "xxxxx"
    ∷ []

abbrev left_behind : Manager
left_behind =
    perform_all id_at some_start
      (tab_updated "xx" "" swapped 8 ∷ tab_created "second" 9 ∷ tab_deleted "xxxxxx" false ∷ [])
      after

really_there : has "xxxxx" left_behind.sessions ≡ true
unfolding has perform_all update_tab create_tab delete_tab create_session layout_matches_session_set
    register_tab_client split_pane has_session split_layout_node session_ids
really_there = refl

late_calls_allowed : AreAllowed id_at some_start late_calls after
unfolding perform_all update_tab create_tab delete_tab create_session layout_matches_session_set
    register_tab_client split_pane has_session split_layout_node session_ids
late_calls_allowed = (λ there. swapped-IsTree, (tt, (tt, (refl, tt))))

perform_all-Backed_example : Backed id_at (perform_all id_at some_start late_calls after)
perform_all-Backed_example =
    perform_all-Backed id_at some_start late_calls after id_at_injective id_at_not_empty
      late_calls_allowed after-Backed

pub let_in : can_attach_session "xx" "xxx" "t" after ≡ true
unfolding can_attach_session perform_all register_tab_client split_pane create_tab create_session
    has_session split_layout_node
let_in = refl

can_attach_session-lookup_example :
    ((s : Session) × (lookup "xxx" after.sessions ≡ some s))
    × ((tab' token' : String) → can_attach_session tab' "xxx" token' after ≡ true → tab' ≡ "xx")
can_attach_session-lookup_example =
    can_attach_session-lookup id_at some_start after "xx" "xxx" "t" after-Backed let_in

abbrev turned : LayoutNode
turned = node split "" "vertical" 300 (pane_of "b") (pane_of "a")

turned-IsTree : IsTree turned
turned-IsTree =
    branch (leaf (λ e. absurd (omega (arith, ap (λ s. length (ascii s)) e))))
      (leaf (λ e. absurd (omega (arith, ap (λ s. length (ascii s)) e))))

once_each : (y : String) → count y ("a" ∷ "b" ∷ []) ≤ 1
once_each y = elim (Bool-cases (str_eq "a" y)) [
  | inl same ↦ subst (λ z. count z ("a" ∷ "b" ∷ []) ≤ 1) ((eq_iff "a" y).0 same) (omega arith)
  | inr other ↦ ground (arith, other)
]

accepted : layout_matches_session_set turned ("a" ∷ "b" ∷ []) ≡ true
unfolding layout_matches_session_set
accepted = refl

layout_matches_session_set-count_example : count "a" (panes turned) ≡ count "a" ("a" ∷ "b" ∷ [])
layout_matches_session_set-count_example =
    layout_matches_session_set-count ("a" ∷ "b" ∷ []) "a" turned-IsTree once_each accepted

pub no_marks : ℕ → Bool
no_marks r = false

abbrev shell_info : SessionMeta
shell_info = record {
  id = "x";
  cwd = "/";
  shell = "/bin/sh";
  cols = 80;
  rows = 24;
  exit_code = 0;
  created_at = 5;
  last_active = 5;
}

abbrev pub running : Session
running = new_session shell_info 7 default_scrollback_bytes none

abbrev pub happenings : List Event
happenings = printed (b'h' ∷ b'i' ∷ []) 6 ∷ pumped 1 ∷ sized 100 30 ∷ told 1 (b'{' ∷ b'}' ∷ []) ∷ []

pub none_yet : find_client 1 running.clients ≡ none
unfolding new_session find_client
none_yet = refl

attach_client-Hears_example :
    Hears 1
      (tagged true (scrollback_message (snapshot running.term)) ++ heard 1 happenings)
      (run no_marks happenings (attach_client (new_attached 1 "xx" "t") true running).0).clients
attach_client-Hears_example =
    attach_client-Hears no_marks 1 "xx" "t" happenings running none_yet
      (cons tt (cons tt (cons tt (cons tt nil))))

-- The shell prints once more and exits before the pump runs again.
abbrev last_words : List Event
last_words = happenings ++ printed (b'o' ∷ b'k' ∷ []) 7 ∷ exited 0 ∷ []

is_over :
    (run no_marks last_words (attach_client (new_attached 1 "xx" "t") true running).0).done ≡ true
unfolding run step shell_exited
is_over = refl

pump_finished-Flushed_example :
    Flushed 1
      (b'0' ∷ [])
      (output_of last_words)
      (step no_marks
        (pump_finished 1 (b'0' ∷ []))
        (run no_marks last_words (attach_client (new_attached 1 "xx" "t") true running).0)).clients
pump_finished-Flushed_example =
    pump_finished-Flushed no_marks 1 "xx" "t" last_words running (b'0' ∷ []) none_yet
      (cons tt (cons tt (cons tt (cons tt (cons tt (cons tt nil)))))) is_over
