-- ===== src/Manager/Disk.antt =====
-- cmd/termulaa/manager.go: what a restart keeps. The state file is the bytes of an encoding that is a
-- parameter, and every file is written and read without error. The history files are left out.
pub mod Restart
pub mod Kept
pub mod Adopted
pub mod Running
use Prim.Native.String.{String}
use text.Mathlib.Text.{◌==◌ as str_eq}
use termulaa.Prelude.{
  ℕ, ◌+◌, Bool, true, false, not, ◌&&◌, ◌||◌, List, [], ◌∷◌, ◌++◌, Option, none, some, ltb, ◌==◌,
  if◌then◌else◌,
}
use termulaa.Dict.{insert, lookup, delete}
use termulaa.Ring.{Bytes, RingBuffer, new_ring_buffer, read_all, load}
use termulaa.Layout.{session_ids}
use termulaa.Session.{Session, SessionMeta, restore_terminal, handoff_file, adopt_session}
use termulaa.Manager.{Manager, Tab, scrollback_bytes}

-- `stateFile`
pub record StateFile : Type 0 where
  pub sessions : List (String × SessionMeta)
  pub tabs : List (String × Tab)

-- The state file, and the scrollback file of each session ID.
pub record Disk : Type 0 where
  pub state : Option Bytes
  pub scrollback : List (String × Bytes)

abbrev pub metas_of : List (String × Session) → List (String × SessionMeta)
metas_of [] = []
metas_of ((id, s) ∷ m) = (id, s.info) ∷ metas_of m

unfoldable pub save_rings : List (String × Session) → List (String × Bytes) → List (String × Bytes)
unfolding insert read_all
save_rings [] files = files
save_rings ((id, s) ∷ m) files =
    let rest = save_rings m files in
    if s.alive then insert id (read_all s.scrollback) rest else rest

abbrev pub state_of : Manager → StateFile
state_of m = record { sessions = metas_of m.sessions; tabs = m.tabs }

-- The zero time is `none`.
abbrev pub too_old : Option ℕ → ℕ → Bool
too_old none t = false
too_old (some cutoff) t = ltb t cutoff

-- What the loops of `LoadState` leave: the sessions, and the IDs whose files they remove.
pub record Loading : Type 0 where
  pub sessions : List (String × Session)
  pub removed : List String

unfoldable pub load_tabs :
    Option ℕ → List (String × Tab) → List (String × Tab) → List (String × Tab)
unfolding insert
load_tabs cutoff [] tabs = tabs
load_tabs cutoff ((id, tab) ∷ saved) tabs =
    let rest = load_tabs cutoff saved tabs in
    if too_old cutoff tab.last_active then rest else insert id tab rest

unfoldable pub referenced_sessions : List (String × Tab) → List String
unfolding session_ids
referenced_sessions [] = []
referenced_sessions ((id, tab) ∷ tabs) = session_ids tab.layout ++ referenced_sessions tabs

unfoldable pub is_referenced : String → List String → Bool
is_referenced id [] = false
is_referenced id (r ∷ refs) = str_eq r id || is_referenced id refs

unfoldable pub drop_orphans : List String → List (String × Session) → Loading
unfolding is_referenced
drop_orphans refs [] = record { sessions = []; removed = [] }
drop_orphans refs ((id, s) ∷ m) =
    let rest = drop_orphans refs m in
    if is_referenced id refs
    then record rest { sessions = (id, s) ∷ rest.sessions }
    else record rest { removed = id ∷ rest.removed }

unfoldable pub remove_files : List String → List (String × Bytes) → List (String × Bytes)
unfolding delete
remove_files [] files = files
remove_files (id ∷ ids) files = remove_files ids (delete id files)

-- The names of the files handed over: the session's ID and the PID of its shell.
unfoldable pub handoff_files : List (String × Session) → List (String × ℕ)
unfolding handoff_file
handoff_files [] = []
handoff_files ((id, s) ∷ m) =
    let rest = handoff_files m in elim (handoff_file s) [ none ↦ rest | some f ↦ f ∷ rest ]

-- `marshal` is the encoding of the state file.
unfoldable pub save_state : (StateFile → Bytes) → Manager → Disk → Disk
unfolding save_rings
save_state marshal m d = record {
  state = some (marshal (state_of m));
  scrollback = save_rings m.sessions d.scrollback;
}

abbrev pub restored_ring : ℕ → Option Bytes → RingBuffer
restored_ring size none = new_ring_buffer size
restored_ring size (some bytes) = load bytes (new_ring_buffer size)

-- `days_before n now` is the time `n` days before `now`.
abbrev pub cutoff_of : (ℕ → ℕ → ℕ) → Manager → ℕ → Option ℕ
cutoff_of days_before m now =
    if m.config.cleanup_after == 0 then none else some (days_before m.config.cleanup_after now)

module _ (is_mark : ℕ → Bool) where
  unfoldable pub restored : ℕ → Option Bytes → SessionMeta → Session
  unfolding new_ring_buffer load restore_terminal
  restored size file meta =
      let ring = restored_ring size file in
      record {
        info = meta;
        alive = false;
        pid = 0;
        has_pty = false;
        scrollback = ring;
        term = restore_terminal is_mark meta.cols meta.rows ring;
        last_output = meta.last_active;
        clients = [];
        done = true;
      }

  -- The file of an ID is read before any file of that ID is removed.
  unfoldable pub load_sessions :
      Option ℕ
      → ℕ
      → List (String × Bytes)
      → List (String × SessionMeta)
      → List (String × Session)
      → Loading
  unfolding insert lookup restored
  load_sessions cutoff size files [] sessions = record { sessions = sessions; removed = [] }
  load_sessions cutoff size files ((id, meta) ∷ saved) sessions =
      let rest = load_sessions cutoff size files saved sessions in
      if too_old cutoff meta.last_active
      then record rest { removed = id ∷ rest.removed }
      else record rest { sessions = insert id (restored size (lookup id files) meta) rest.sessions }

  -- `LoadState` on the state that the file holds.
  unfoldable pub load_from : Option ℕ → StateFile → Manager → Disk → Manager × Disk
  unfolding load_sessions load_tabs referenced_sessions drop_orphans remove_files
  load_from cutoff st m d =
      let loaded = load_sessions cutoff (scrollback_bytes m) d.scrollback st.sessions m.sessions in
      let tabs = load_tabs cutoff st.tabs m.tabs in
      let kept = drop_orphans (referenced_sessions tabs) loaded.sessions in
      (
        record m { sessions = kept.sessions; tabs = tabs },
        record d { scrollback = remove_files (loaded.removed ++ kept.removed) d.scrollback },
      )

  -- Nothing is loaded when there is no state file or it cannot be parsed.
  unfoldable pub load_state :
      (ℕ → ℕ → ℕ) → (Bytes → Option StateFile) → ℕ → Manager → Disk → Manager × Disk
  unfolding load_from
  load_state days_before unmarshal now m d = elim d.state [
    | none ↦ (m, d)
    | some bytes ↦ elim (unmarshal bytes) [
      | none ↦ (m, d)
      | some st ↦ load_from (cutoff_of days_before m now) st m d
    ]
  ]

-- `Adopt`: `named` is what the name of a file says, if it is "pty:<id>:<pid>" with a PID, and
-- `is_running` whether the shell still runs.
module _ (is_running : ℕ → Bool) where
  unfoldable pub adopt_file : Option (String × ℕ) → ℕ → Manager → Manager × ℕ
  unfolding lookup insert adopt_session
  adopt_file none now m = (m, 0)
  adopt_file (some (id, pid)) now m = elim (lookup id m.sessions) [
    | none ↦ (m, 0)
    | some old ↦ if pid == 0 || not (is_running pid) then (m, 0) else (
      record m {
        sessions = insert id (adopt_session old.info pid now old.scrollback old.term) m.sessions;
      },
      1,
    )
  ]

  unfoldable pub adopt : List (Option (String × ℕ)) → ℕ → Manager → Manager × ℕ
  unfolding adopt_file
  adopt [] now m = (m, 0)
  adopt (f ∷ files) now m =
      let (m', n) = adopt_file f now m in
      let (m'', adopted) = adopt files now m' in (m'', n + adopted)
