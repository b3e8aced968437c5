-- ===== src/Tests/Servers.antt =====
-- cmd/termulaa/handler.go: requests and connections on a registry with a tab of two panes.
use Prim.Native.String.{String}
use termulaa.Prelude.{
  ℕ, ◌+◌, ◌-◌, ◌^◌, ◌<◌, ◌≤◌, true, false, List, [], ◌∷◌, ◌++◌, Option, none, some, ◌≡◌, ◌⊎◌, refl,
  arith, ascii, length, nil, cons,
}
use termulaa.Dict.{get, lookup}
use termulaa.Layout.{
  LayoutNode, has_session, split_layout_node, layout_matches_session_set, session_ids,
}
use termulaa.Layout.Panes.{IsTree}
use mathlib.Core.Path.{subst}
use termulaa.Outbox.{Bytes}
use termulaa.Session.{new_session}
use termulaa.Session.Quote.{shell_quote_path, plain, read_word, read_word-shell_quote_path}
use termulaa.Manager.{is_absent, Manager, Tab, new_tab, new_manager, create_tab, create_session}
use termulaa.Manager.Backed.{Backed}
use termulaa.Manager.Requests.{tab_created, perform_all}
use termulaa.Manager.Owners.{clients_of, can_attach_session, register_tab_client, delete_tab}
use termulaa.Manager.Panes.{split_pane}
use termulaa.Server.{HttpRequest, new_response, default_full_config, is_valid_id, Handler}
use termulaa.Server.Route.{Route, route, pair_route, api_route}
use termulaa.Server.Rest.{Outside, Server, serve}
use termulaa.Server.Guard.{is_socket, reads, serve-unchanged}
use termulaa.Server.Calls.{IsPlain, serve_all, serve_all-Backed}
use termulaa.Server.Settings.{manager_config, manager_config-scrollback}
use termulaa.Server.Prefix.{sanitize_prefix, max_forwarded_prefix_len}
use termulaa.Server.Prefix.Grammar.{IsPath}
use termulaa.Server.Prefix.Sanitize.{sanitize_prefix-IsPath}
use termulaa.Server.TabSocket.{Hub, crashed, open_tab, with_manager}
use termulaa.Server.OneOwner.{HasOneOwner}
use termulaa.Server.Exclusive.{start, opened, take_over, Reaches-HasOneOwner}
use termulaa.Server.Races.{delete_tab-crashes, both_in, both_in-own}
use termulaa.Server.SessionSocket.{Control, enter, revived, Pane, new_pane}
use termulaa.Server.Panes.{
  received, joining, finishing, PaneStep, pane_run, all_typed, pane_run-typed,
}
use termulaa.Server.Joins.{IsAlive, is_entered, enter-IsAlive}
use termulaa.Tests.Registries.{
  id_at, some_start, defaults, after, swapped, swapped-IsTree, no_marks, running, id_at_injective,
  id_at_not_empty, after-Backed,
}

abbrev outside : Outside
outside = record {
  generate_id = id_at;
  pty_start = some_start;
  ui_file = λ file. none;
  static_file = λ r w. w;
  decode_name = λ bs. "work";
  decode_tab = λ bs. some ("", swapped);
  decode_settings = λ bs cfg. (true, cfg);
  config_is_writable = true;
  write_error = [];
  marshal_settings = λ cfg. [];
  marshal_state = λ f. [];
}

abbrev no_sockets : Route → Handler Server
no_sockets rt r w s = (w, s)

abbrev base : Server
base = record {
  manager = after;
  settings = default_full_config;
  disk = record { state = none; scrollback = [] };
  config = none;
}

abbrev request : String → HttpRequest
request method = record {
  method = method;
  host = ascii "localhost:17380";
  origin = [];
  forwarded_prefix = [];
  path = "api" ∷ "tabs" ∷ [];
  body = [];
  at = 9;
}

listed : is_socket (route "GET" ("api" ∷ "tabs" ∷ [])) ≡ false
unfolding route pair_route api_route
listed = refl

serve-unchanged_example :
    (serve outside 17380 no_sockets (request "GET") new_response base).1 ≡ base
serve-unchanged_example =
    serve-unchanged outside no_sockets 17380 (request "GET") new_response base (reads refl listed)

-- The panes of the tab are to change places.
abbrev rearranging : HttpRequest
rearranging = record (request "PUT") { path = "api" ∷ "tabs" ∷ "xx" ∷ [] }

swapped_is_read :
    (bs : Bytes) (name : String) (layout : LayoutNode)
    → outside.decode_tab bs ≡ some (name, layout)
    → is_absent layout ≡ false
    → IsTree layout
swapped_is_read bs name layout e there = subst IsTree (cc) swapped-IsTree

posted : IsPlain outside no_sockets (request "POST")
unfolding route pair_route api_route
posted = record { no_socket = refl; no_session_delete = refl; well_sent = swapped_is_read [] }

put : IsPlain outside no_sockets rearranging
unfolding route pair_route api_route
put = record { no_socket = refl; no_session_delete = refl; well_sent = swapped_is_read [] }

serve_all-Backed_example :
    Backed id_at
      (serve_all outside no_sockets 17380 (request "POST" ∷ rearranging ∷ []) base).manager
serve_all-Backed_example =
    serve_all-Backed outside no_sockets 17380 (request "POST" ∷ rearranging ∷ []) base
      id_at_injective id_at_not_empty (cons posted (cons put nil)) after-Backed

sanitize_prefix-IsPath_example :
    (IsPath (ascii "/app/v1.2")
      × (length (ascii "/app/v1.2") ≤ max_forwarded_prefix_len)
      × (sanitize_prefix (ascii "/app/v1.2") ≡ ascii "/app/v1.2"))
    ⊎ ((IsPath (ascii "/app/v1.2") → length (ascii "/app/v1.2") ≤ max_forwarded_prefix_len → ⊥)
        × (sanitize_prefix (ascii "/app/v1.2") ≡ []))
sanitize_prefix-IsPath_example = sanitize_prefix-IsPath (ascii "/app/v1.2")

abbrev made : Manager
made =
    perform_all id_at some_start (tab_created "shell" 5 ∷ [])
      (new_manager defaults "/bin/sh" "/root")

abbrev fresh : Hub
fresh = record {
  manager = made;
  disk = record { state = none; scrollback = [] };
  sent = [];
  closed = [];
}

abbrev held : Hub
held = with_manager after fresh

made-HasOneOwner : HasOneOwner made
unfolding get perform_all create_tab create_session
made-HasOneOwner tab = omega arith

Reaches-HasOneOwner_example :
    HasOneOwner (open_tab id_at some_start (λ f. []) "xx" "" 1 true fresh).1.manager
Reaches-HasOneOwner_example =
    Reaches-HasOneOwner id_at some_start (λ f. []) (opened "xx" "" 1 true start) made-HasOneOwner

abbrev tab_of : Manager → Tab
tab_of m = get (new_tab "" "" "" 0) "xx" m.tabs

really_swapped :
    (tab_of (serve_all outside no_sockets 17380 (rearranging ∷ []) base).manager).layout ≡ swapped
unfolding get serve_all is_valid_id perform_all register_tab_client split_pane create_session
    has_session split_layout_node layout_matches_session_set session_ids
really_swapped = refl

delete_tab-crashes_example :
    (take_over id_at some_start
      (λ f. [])
      "xx"
      2
      8
      (with_manager (delete_tab "xx" true after).1 held)).0
    ≡ crashed
delete_tab-crashes_example = delete_tab-crashes id_at some_start (λ f. []) "xx" true 2 8 held

valid_two : is_valid_id "xx" ≡ true
unfolding is_valid_id
valid_two = refl

made_tab : lookup "xx" made.tabs ≡ some (tab_of made)
unfolding get lookup perform_all create_tab create_session new_tab
made_tab = refl

unowned : clients_of "xx" made ≡ []
unfolding get perform_all create_tab create_session
unowned = refl

in_tab : has_session "x" (tab_of made).layout ≡ true
unfolding get has_session perform_all create_tab create_session new_tab
in_tab = refl

both_in-own_example :
    (length (clients_of "xx" (both_in id_at some_start (λ f. []) "xx" 1 2 fresh).manager) ≡ 2)
    × (can_attach_session "xx" "x"
          (id_at made.generated)
          (both_in id_at some_start (λ f. []) "xx" 1 2 fresh).manager
        ≡ true)
    × (can_attach_session "xx" "x"
          (id_at (made.generated + 1))
          (both_in id_at some_start (λ f. []) "xx" 1 2 fresh).manager
        ≡ true)
both_in-own_example =
    both_in-own id_at some_start (λ f. []) "xx" "x" 1 2 (tab_of made) fresh valid_two made_tab
      unowned in_tab

abbrev no_control : List ℕ → Option Control
no_control bs = none

abbrev no_file : String → List ℕ → Option (List ℕ)
no_file name bs = none

abbrev pane : Pane
pane = new_pane running 1 "xx" "t"

abbrev steps : List PaneStep
steps =
    received false (ascii "ls") 6
    ∷ joining true false
    ∷ received true (ascii "x") 7
    ∷ finishing
    ∷ []

with_pty : pane.session.has_pty ≡ true
unfolding new_pane new_session
with_pty = refl

pane_run-typed_example :
    (pane_run no_marks no_control no_file steps pane).typed
    ≡ pane.typed ++ all_typed no_marks no_control no_file steps
pane_run-typed_example = pane_run-typed no_marks no_control no_file steps pane with_pty

let_through : is_entered (enter id_at some_start "xxx" "xx" "t" true 9 after).0 ≡ true
unfolding enter revived is_valid_id can_attach_session lookup perform_all create_tab create_session
    split_pane new_tab register_tab_client has_session split_layout_node
let_through = refl

enter-IsAlive_example :
    (can_attach_session "xx" "xxx" "t" after ≡ true)
    × IsAlive "xxx" (enter id_at some_start "xxx" "xx" "t" true 9 after)
enter-IsAlive_example = enter-IsAlive id_at some_start "xxx" "xx" "t" true 9 after let_through

read_word-shell_quote_path_example :
    read_word plain (shell_quote_path (ascii "/tmp/it's") ++ ascii "x")
    ≡ (ascii "/tmp/it's", true, ascii "x")
read_word-shell_quote_path_example = read_word-shell_quote_path (ascii "/tmp/it's") (ascii "x")

-- A scan that reads one digit.
abbrev scan_digit : List ℕ → ℕ
scan_digit (b ∷ []) = b - b'0'
scan_digit _ = 0

manager_config-scrollback_example :
    (1 ≤ (manager_config scan_digit default_full_config).scrollback_bytes)
    × ((manager_config scan_digit default_full_config).scrollback_bytes < 2 ^ 63)
manager_config-scrollback_example = manager_config-scrollback scan_digit default_full_config refl
