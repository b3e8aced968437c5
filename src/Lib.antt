-- ===== src/Lib.antt =====
-- A model of termulaa, a server that keeps terminal sessions alive and replays them to browsers.
--
-- A session runs a shell on a PTY. What the shell prints goes three ways: into a ring of bytes for
-- the replay, into a terminal emulator that knows the screen, and into the outbound queue of every
-- client that is attached. A tab arranges sessions as a tree of split panes.
--
--   Ring.antt, Ring/      src/cmd/termulaa/session.go, `RingBuffer` and `cleanReplayStart`: `write`,
--                         `read_all`, `read_replay`, `len`, and `load` for `LoadFrom`.
--   Outbox.antt, Outbox/  src/cmd/termulaa/session.go, the queue of `wsClient`: `queue_binary`,
--                         `queue_text`, `take_pending`.
--   Session.antt, Session/
--                         src/cmd/termulaa/session.go, `Session`: the shell's output, clients that join
--                         and leave, resizing, exit, killing and adoption, and what `writePump` sends.
--                         `Events` is what can happen to a session, one step after the other,
--                         `Quote` the typed path of a dropped file, and `Environment` the variables of
--                         the shell. `Hearing` and `Ending` hold proofs on what a client is sent, where
--                         a write to its connection succeeds.
--   Manager.antt, Manager/
--                         src/cmd/termulaa/manager.go, the registry of sessions and tabs, and `Tab` of
--                         tabs.go. `Owners` is the tab connections and their tokens, `Panes` what splits,
--                         closes and replaces panes, `Disk` what a restart saves, loads and adopts,
--                         `Requests` the calls as data. `Count`, `Fresh`, `Backed` and `Safe` hold
--                         proofs.
--   Server.antt, Server/  src/cmd/termulaa/main.go and handler.go, the HTTP server before a `Manager`:
--                         `securityMiddleware` and the settings. `Settings` is the sizes in these,
--                         `Prefix` the pages and their base path, `Route` the patterns, `Rest` the
--                         handlers of the API, `TabSocket` and `SessionSocket` those of the WebSockets.
--                         The others hold proofs: `Guard` and `Calls` on requests, `Clients`,
--                         `OneOwner`, `Ownership`, `Exclusive` and `Races` on the owners of tabs,
--                         `Panes`, `Joins` and `Orphan` on sessions and panes.
--   Tunnel.antt, Tunnel/  src/cmd/termulaa/tunnel.go: `runTunnel` with its backoff and the errors that
--                         it tells apart, and `poolStatus`; src/cmd/termulaa/wsconn.go in `Stream`.
--   Dict.antt             a Go map from strings.
--   Layout.antt, Layout/  src/cmd/termulaa/tabs.go: `LayoutNode`, the walks over it, and the functions
--                         that split, close and copy panes. A `Manager` stores one in each tab.
--   Vterm.antt, Vterm/    src/internal/vterm, the emulator:
--     Cell, Width         cell.go and width.go.
--     State               the types and `New` of term.go, and the types of parser.go.
--     Screen, Cursor, Print, Modes, Resize, Text
--                         the operations of term.go.
--     Params, Feed        parser.go: parameters, `feedByte`, `feedRune` and `Write`.
--     Dispatch, Sgr       dispatch.go.
--     Snapshot            snapshot.go, the bytes that paint a terminal; a `Session` sends them to a
--                         client that joins.
--     Utf8                the part of Go's unicode/utf8 that the parser uses.
--     Inv, Laws           the invariant with its preservation, and what the operations do.
--   Prelude.antt          tests, list functions and lemmas that the parts share.
--   Tests.antt            the theorems at concrete inputs.
--
-- Names are those of the source in snake case, with `set_` or the like where a method assigns.
--
-- How the code is represented. An `int` is a natural number; where the source subtracts and then
-- raises the result to 0, subtraction stops at 0 by itself, and the parameter -1 is `none`. A pointer
-- receiver is an argument and a result; the pointer `t.s` is the flag `alt_active`, and an operation
-- on the active screen is a function of the terminal and the screen. `attrs` is a record of flags, a
-- colour is the packed number of the source. Strings of the emulator are lists of code points or
-- bytes. The cached `blankRow` is left out, since it always holds what `newRow` gives. A state that
-- the records cannot hold, after an index panic or with a cursor in column -1, is marked by the field
-- `fault` of the terminal, which `print` sets where its indexes leave the grid; elsewhere a write out of
-- range does nothing. A layout is a tree without sharing; its ratio is in thousandths. The
-- mutexes make the methods atomic, so a method is one function; the calls of a `SessionManager` are
-- taken to run one after the other, although some give up its lock in between. Connections and clients
-- are numbers, times are nanoseconds, a Go map is an association list, and a loop over a map takes its
-- entries in that order or, where they do not depend on each other, from the last on.
--
-- Parameters. `is_mark` stands for the tables of package unicode that tell combining and format
-- characters, `generate_id` for the random session IDs, and `pty_start` for the shells: the PID of one
-- that starts for a session ID, or `none`. `marshal` and `unmarshal` are the JSON of the state file,
-- `days_before` the calendar, and `is_running` whether a PID is a process. `Outside` gathers what the
-- handlers of the API take: the embedded files, the server of static files, and the JSON of bodies and
-- settings; `decode` and `drop_file` do the same for the connection of a pane.
--
-- Loops. The main loop of `Write` has a round for each byte, and the loop of `sgr` a round for each
-- parameter, since every round moves on by one or more. The loop over what is left of a cut rune has
-- four rounds, one for each byte that such a rune can have. The binary search of `isWide` has a round
-- for each range of its table, which is enough. All other loops are recursions on lists and counters.
--
-- The handler of a WebSocket is cut where it waits for a message, and each piece runs alone, but
-- for `Races`, which lets others run inside.
--
-- Not modelled: processes, PTYs, sockets with their deadlines and pings, files, the multiplexer and the
-- settings of the tunnel, flags and durations, the tickers of the manager, and the web and
-- Android clients.
pub mod Prelude
pub mod Dict
pub mod Ring
pub mod Outbox
pub mod Layout
pub mod Vterm
pub mod Tests
pub mod Session
pub mod Manager
pub mod Tunnel
pub mod Server
