-- ===== src/Server/Rest.antt =====
-- cmd/termulaa/handler.go: the handlers of pages and of the REST API. What is decoded from a body,
-- and the encodings that are written, are parameters; writing the configuration may fail.
use Prim.Native.String.{String}
use text.Mathlib.Text.{◌==◌ as str_eq}
use termulaa.Prelude.{
  ℕ, Bool, true, not, List, [], ◌∷◌, ◌++◌, Option, none, some, ascii, length, if◌then◌else◌,
}
use termulaa.Dict.{lookup}
use termulaa.Layout.{LayoutNode}
use termulaa.Session.{Session}
use termulaa.Manager.{
  Manager, Tab, TabInfo, tab_info, Result, ok, err, create_tab, update_tab, delete_session,
}
use termulaa.Manager.Owners.{delete_tab}
use termulaa.Manager.Disk.{Disk, StateFile, save_state}
use termulaa.Server.{
  Bytes, HttpRequest, Response, FullConfig, Body, message, failure, page, tabs_json, tab_json,
  session_json, settings_json, health_json, set_header, http_error, is_valid_id, Handler,
  security_middleware,
}
use termulaa.Server.Prefix.{render_page}
use termulaa.Server.Route.{Route, route}

-- `config` is the configuration file; the settings in use are changed in place.
pub record Server : Type 0 where
  pub manager : Manager
  pub settings : FullConfig
  pub disk : Disk
  pub config : Option Bytes

abbrev pub json_response : Body → Response → Response
json_response value w = record (set_header "Content-Type" (ascii "application/json") w) {
  body = value;
}

abbrev list_tabs : List (String × Session) → List (String × Tab) → List (Tab × TabInfo)
list_tabs sessions [] = []
list_tabs sessions ((id, tab) ∷ tabs) = (tab, tab_info sessions tab) ∷ list_tabs sessions tabs

-- `if !isValidID(id)`
abbrev with_id : String → Response → Server → Response × Server → Response × Server
with_id id w s next =
    if not (is_valid_id id) then (http_error 400 (message (ascii "invalid id")) w, s) else next

-- The answer to `CreateTab`.
unfoldable pub answer_made : Response → Server → Result String × Manager → Response × Server
unfolding lookup
answer_made w s (err e, m) = (http_error 500 (failure e) w, record s { manager = m })
answer_made w s (ok id, m) =
    let s' = record s { manager = m } in
    elim (lookup id m.tabs) [ none ↦ (w, s') | some tab ↦ (json_response (tab_json tab) w, s') ]

-- The answer to a change of the registry, which `after` saves.
unfoldable pub answer_changed {ℓ} :
    {A : Type ℓ} → Response → Server → (Server → Server) → Result A × Manager → Response × Server
answer_changed w s after (err e, m) = (http_error 404 (failure e) w, record s { manager = m })
answer_changed w s after (ok a, m) = (w, after (record s { manager = m }))

abbrev content_security_policy : Bytes
content_security_policy =
    ascii "default-src 'self'; "
    ++ (ascii "script-src 'self' 'unsafe-eval' 'unsafe-inline'; "
        ++ (ascii "style-src 'self' 'unsafe-inline'; "
            ++ (ascii "img-src 'self' data: blob:; "
                ++ (ascii "font-src 'self' data:; "
                    ++ (ascii "connect-src 'self' ws:; "
                        ++ (ascii "object-src 'none'; "
                            ++ (ascii "base-uri 'self'; " ++ ascii "frame-ancestors 'none'")))))))

unfoldable pub serve_ui_page : (String → Option Bytes) → String → HttpRequest → Response → Response
unfolding render_page
serve_ui_page ui_file file r w = elim (ui_file file) [
  | none ↦ http_error 500 (message (ascii file ++ ascii " not found")) w
  | some bytes ↦
      record (set_header "Content-Type" (ascii "text/html; charset=utf-8")
        (set_header "Content-Security-Policy" content_security_policy w)) {
          body = page (render_page r.forwarded_prefix bytes);
        }
]

-- What the handlers take from outside the code: the embedded files, the server of static files, the
-- JSON of the bodies, whether the configuration file can be written, and the two encodings. Decoding
-- settings changes those in use as far as it comes, also when it fails.
pub record Outside : Type 0 where
  pub generate_id : ℕ → String
  pub pty_start : String → Option ℕ
  pub ui_file : String → Option Bytes
  pub static_file : HttpRequest → Response → Response
  pub decode_name : Bytes → String
  pub decode_tab : Bytes → Option (String × LayoutNode)
  pub decode_settings : Bytes → FullConfig → Bool × FullConfig
  pub config_is_writable : Bool
  pub write_error : Bytes
  pub marshal_settings : FullConfig → Bytes
  pub marshal_state : StateFile → Bytes

module _ (o : Outside) where
  -- `mgr.SaveState()`
  unfoldable pub saved : Server → Server
  unfolding save_state
  saved s = record s { disk = save_state o.marshal_state s.manager s.disk }

  unfoldable pub post_tabs : Handler Server
  unfolding create_tab answer_made
  post_tabs r w s =
      let name = o.decode_name r.body in
      answer_made w s (
        create_tab o.generate_id o.pty_start (if str_eq name "" then "Terminal" else name) r.at
          s.manager)

  unfoldable pub get_tab : String → Handler Server
  unfolding lookup
  get_tab id r w s = with_id id w s (elim (lookup id s.manager.tabs) [
    | none ↦ (http_error 404 (message (ascii "tab not found")) w, s)
    | some tab ↦ (json_response (tab_json tab) w, s)
  ])

  unfoldable pub put_tab : String → Handler Server
  unfolding update_tab saved answer_changed
  put_tab id r w s = with_id id w s (elim (o.decode_tab r.body) [
    | none ↦ (http_error 400 (message (ascii "invalid JSON")) w, s)
    | some (name, layout) ↦ answer_changed w s saved (update_tab id name layout r.at s.manager)
  ])

  unfoldable pub delete_tab_page : String → Handler Server
  unfolding delete_tab saved answer_changed
  delete_tab_page id r w s =
      with_id id w s (answer_changed w s saved (delete_tab id true s.manager))

  unfoldable pub get_session : String → Handler Server
  unfolding lookup
  get_session id r w s = with_id id w s (elim (lookup id s.manager.sessions) [
    | none ↦ (http_error 404 (message (ascii "session not found")) w, s)
    | some t ↦ (json_response (session_json t.info t.alive) w, s)
  ])

  unfoldable pub delete_session_page : String → Handler Server
  unfolding delete_session saved answer_changed
  delete_session_page id r w s =
      with_id id w s (answer_changed w s saved (delete_session id s.manager))

  unfoldable pub put_settings : Handler Server
  put_settings r w s =
      let (decoded, cfg) = o.decode_settings r.body s.settings in
      let s' = record s { settings = cfg } in
      if not decoded
      then (http_error 400 (message (ascii "invalid JSON")) w, s')
      else if not o.config_is_writable
      then (http_error 500 (message o.write_error) w, s')
      else (w, record s' { config = some (o.marshal_settings cfg) })

  unfoldable pub tab_page : String → Handler Server
  unfolding serve_ui_page
  tab_page id r w s = with_id id w s (serve_ui_page o.ui_file "tab.html" r w, s)

  -- The handler of a route; `sockets` takes those that become WebSocket connections.
  unfoldable pub handle : (Route → Handler Server) → Route → Handler Server
  unfolding serve_ui_page tab_page post_tabs get_tab put_tab delete_tab_page get_session
      delete_session_page put_settings
  handle sockets Route.index_page r w s = (serve_ui_page o.ui_file "index.html" r w, s)
  handle sockets Route.settings_page r w s = (serve_ui_page o.ui_file "settings.html" r w, s)
  handle sockets Route.list_tabs r w s =
      (json_response (tabs_json (list_tabs s.manager.sessions s.manager.tabs)) w, s)
  handle sockets Route.create_tab r w s = post_tabs r w s
  handle sockets Route.get_settings r w s = (json_response (settings_json s.settings) w, s)
  handle sockets Route.put_settings r w s = put_settings r w s
  handle sockets Route.health r w s =
      (json_response (health_json (length s.manager.sessions) (length s.manager.tabs)) w, s)
  handle sockets Route.files r w s = (o.static_file r w, s)
  handle sockets (Route.tab_page id) r w s = tab_page id r w s
  handle sockets (Route.get_tab id) r w s = get_tab id r w s
  handle sockets (Route.put_tab id) r w s = put_tab id r w s
  handle sockets (Route.delete_tab id) r w s = delete_tab_page id r w s
  handle sockets (Route.get_session id) r w s = get_session id r w s
  handle sockets (Route.delete_session id) r w s = delete_session_page id r w s
  handle sockets (Route.tab_socket id) r w s = sockets (Route.tab_socket id) r w s
  handle sockets (Route.session_socket id) r w s = sockets (Route.session_socket id) r w s

  -- `mux`
  unfoldable pub mux : (Route → Handler Server) → Handler Server
  unfolding route handle
  mux sockets r w s = handle sockets (route r.method r.path) r w s

  -- A request to the server on the port.
  unfoldable pub serve : ℕ → (Route → Handler Server) → Handler Server
  unfolding security_middleware mux
  serve port sockets = security_middleware port (mux sockets)
