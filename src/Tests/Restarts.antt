-- ===== src/Tests/Restarts.antt =====
-- cmd/termulaa/manager.go: a restart of a registry with one tab of one running shell.
use Prim.Native.String.{String}
use text.Mathlib.Text.{◌==◌ as str_eq}
use text.Mathlib.TextEquality.{eq_iff}
use termulaa.Prelude.{
  ◌==◌, ℕ, zero, suc, ◌-◌, ◌*◌, Bool, true, false, [], ◌∷◌, Option, none, some, ◌≡◌, ◌≢◌, refl, sym,
  ap, ◌∙◌, arith, ascii, length, nil, cons, Bool-cases, inl, inr, List,
}
use termulaa.Dict.{lookup, has}
use termulaa.Ring.{Bytes}
use termulaa.Layout.{pane_of}
use termulaa.Layout.Panes.{leaf}
use termulaa.Session.{Session, SessionMeta, new_session, default_scrollback_bytes}
use termulaa.Manager.{Config, Manager, Tab, new_manager, scrollback_bytes}
use termulaa.Manager.Backed.{Backed}
use termulaa.Manager.Disk.{StateFile, Disk, state_of, too_old, adopt}
use termulaa.Manager.Disk.Kept.{restart, cutoff_at, load_state-Backed, load_state-drops}
use termulaa.Manager.Disk.Adopted.{KeptOn}
use termulaa.Manager.Disk.Running.{Outcome, adopt-Outcome}

abbrev shell_info : SessionMeta
shell_info = record {
  id = "s";
  cwd = "/";
  shell = "/bin/sh";
  cols = 80;
  rows = 24;
  exit_code = 0;
  created_at = 500;
  last_active = 900;
}

abbrev running : Session
running = new_session shell_info 7 default_scrollback_bytes none

abbrev shell_tab : Tab
shell_tab = record {
  id = "t";
  name = "shell";
  layout = pane_of "s";
  created_at = 500;
  last_active = 500;
}

-- IDs of two characters and more.
abbrev next_id : ℕ → String
next_id zero = "xx"
next_id (suc k) = String.◌∷◌ "x" (next_id k)

abbrev week : Config
week = record { cleanup_after = 7; scrollback_bytes = 0; default_cols = 80; default_rows = 24 }

abbrev saved : Manager
saved = record (new_manager week "/bin/sh" "/root") {
  sessions = ("s", running) ∷ [];
  tabs = ("t", shell_tab) ∷ [];
}

-- A day has 100 units of time.
abbrev days : ℕ → ℕ → ℕ
days n now = now - n * 100

abbrev encode : StateFile → Bytes
encode st = []

abbrev decode : Bytes → Option StateFile
decode bytes = some (state_of saved)

abbrev empty_disk : Disk
empty_disk = record { state = none; scrollback = [] }

no_marks : ℕ → Bool
no_marks r = false

s_not_empty : ◌≢◌ {A = String} "s" ""
s_not_empty e = absurd (omega (arith, ap (λ s. length (ascii s)) e))

length-next_id : (k : ℕ) → length (ascii (next_id k)) ≡ suc (suc k)
length-next_id zero = refl
length-next_id (suc k) = ap suc (length-next_id k)

not_s : (k : ℕ) → str_eq "s" (next_id k) ≡ false
not_s k = elim (Bool-cases (str_eq "s" (next_id k))) [
  | inr other ↦ other
  | inl same ↦ absurd (
      omega (arith, ap (λ s. length (ascii s)) ((eq_iff "s" (next_id k)).0 same), length-next_id k))
]

saved-Backed : Backed next_id saved
unfolding has
saved-Backed = record {
  trees = cons (leaf s_not_empty) nil;
  backed = λ x. ground arith;
  fresh = λ k h. rw (not_s k) refl;
}

running_now : running.alive ≡ true
unfolding new_session
running_now = refl

tab_found : lookup "t" saved.tabs ≡ some shell_tab
unfolding lookup
tab_found = refl

session_found : lookup "s" saved.sessions ≡ some running
unfolding lookup
session_found = refl

recent : too_old (cutoff_at days 1100 week "/bin/sh" "/root" saved) running.info.last_active ≡ false
unfolding new_session
recent = refl

all_recent :
    (x : String) (s : Session)
    → lookup x saved.sessions ≡ some s
    → too_old (cutoff_at days 1100 week "/bin/sh" "/root" saved) s.info.last_active ≡ false
unfolding lookup
all_recent x s h =
    let e : running ≡ s = ground arith in
    ap (λ t. too_old (cutoff_at days 1100 week "/bin/sh" "/root" saved) t.info.last_active) (sym e)
    ∙ recent

load_state-Backed_example :
    Backed next_id
      (restart no_marks days encode decode next_id 1100 week "/bin/sh" "/root" saved empty_disk)
load_state-Backed_example =
    load_state-Backed no_marks days encode decode next_id 1100 week "/bin/sh" "/root" saved
      empty_disk refl saved-Backed all_recent

load_state-drops_example :
    lookup "s"
      (restart no_marks days encode decode next_id 1300 week "/bin/sh" "/root" saved
        empty_disk).sessions
    ≡ none
load_state-drops_example =
    load_state-drops no_marks days encode decode next_id 1300 week "/bin/sh" "/root" saved
      empty_disk "t" "s" shell_tab refl saved-Backed tab_found refl (omega arith)

-- A file without a name, one of another shell, which runs, and one of a shell that is gone.
abbrev handed_over : List (Option (String × ℕ))
handed_over = none ∷ some ("s", 9) ∷ some ("s", 7) ∷ []

adopt-Outcome_example :
    let m' = (adopt (λ pid. pid == 9) handed_over 1100 saved).0 in
    (m'.tabs ≡ saved.tabs)
    × ((y : String) → has y m'.sessions ≡ has y saved.sessions)
    × (s' : Session) × (lookup "s" m'.sessions ≡ some s')
    × KeptOn running s'
    × Outcome running (some 9) s'
adopt-Outcome_example =
    adopt-Outcome (λ pid. pid == 9) "s" handed_over 1100 saved running session_found
