-- ===== src/Server/Calls.antt =====
-- The calls of the registry that the requests to the server come to.
use Prim.Native.String.{String}
use text.Mathlib.Text.{◌==◌ as str_eq}
use termulaa.Prelude.{
  ℕ, Bool, true, false, List, [], ◌∷◌, ◌++◌, some, ◌≡◌, ◌≢◌, refl, sym, ap, ◌∙◌, arith,
  if◌then◌else◌, Bool-cases, Option-cases, inl, inr, All, nil, cons,
}
use mathlib.Core.Path.{subst}
use termulaa.Layout.{LayoutNode}
use termulaa.Layout.Panes.{IsTree}
use termulaa.Manager.{Manager, Result, ok, err, is_absent, create_tab, update_tab}
use termulaa.Manager.Owners.{delete_tab}
use termulaa.Manager.Requests.{
  Request, tab_created, tab_updated, tab_deleted, IsAllowed, AreAllowed, AreAllowed-append, perform,
  perform_all, perform_all-append,
}
use termulaa.Manager.Fresh.{IsInjective}
use termulaa.Manager.Backed.{Backed}
use termulaa.Manager.Safe.{perform_all-Backed}
use termulaa.Server.{
  HttpRequest, Response, is_valid_id, Handler, new_response, security_middleware, is_host_allowed,
  is_origin_allowed, base_headers,
}
use termulaa.Server.Route.{Route, route}
use termulaa.Server.Guard.{is_socket}
use termulaa.Server.Rest.{
  Outside, Server, tab_page, get_tab, get_session, handle, mux, serve, post_tabs, put_tab,
  delete_tab_page, put_settings, saved, answer_made, answer_changed,
}

abbrev is_session_delete : Route → Bool
is_session_delete (Route.delete_session id) = true
is_session_delete _ = false

module _ (o : Outside) (sockets : Route → Handler Server) where
  -- No WebSocket, no `DELETE` of a session, and a layout in the body is a tree.
  pub record IsPlain (r : HttpRequest) : Type 0 where
    pub no_socket : is_socket (route r.method r.path) ≡ false
    pub no_session_delete : is_session_delete (route r.method r.path) ≡ false
    pub well_sent :
        (name : String) (layout : LayoutNode)
        → o.decode_tab r.body ≡ some (name, layout)
        → is_absent layout ≡ false
        → IsTree layout

  -- The registry after some calls of clients.
  abbrev Called : Manager → Manager → Type 0
  Called m m' =
      (calls : List Request) × AreAllowed o.generate_id o.pty_start calls m
      × (m' ≡ perform_all o.generate_id o.pty_start calls m)

  nothing : (m : Manager) → Called m m
  nothing m = ([], tt, unfold perform_all in refl)

  called :
      (call : Request) (m n : Manager)
      → IsAllowed call m
      → n ≡ perform o.generate_id o.pty_start call m
      → Called m n
  called call m n well e = (call ∷ [], (well, tt), unfold perform_all in e)

  post_tabs-Called :
      (r : HttpRequest) (w : Response) (s : Server) → Called s.manager (post_tabs o r w s).1.manager
  unfolding post_tabs perform answer_made
  post_tabs-Called r w s =
      let name = o.decode_name r.body in
      let asked = if str_eq name "" then "Terminal" else name in
      called (tab_created asked r.at) s.manager _ tt (made (create_tab _ _ asked r.at s.manager))
    where
      made : (out : Result String × Manager) → (answer_made w s out).1.manager ≡ out.1
      made (err e, m) = refl
      made (ok id, m) = ground arith

  changed {ℓ} :
      {A : Type ℓ} (w : Response) (s : Server) (out : Result A × Manager)
      → (answer_changed w s (saved o) out).1.manager ≡ out.1
  unfolding answer_changed saved
  changed w s (err e, m) = refl
  changed w s (ok a, m) = refl

  put_tab-Called :
      (id : String) (r : HttpRequest) (w : Response) (s : Server)
      → ((name : String) (layout : LayoutNode)
          → o.decode_tab r.body ≡ some (name, layout)
          → is_absent layout ≡ false
          → IsTree layout)
      → Called s.manager (put_tab o id r w s).1.manager
  unfolding put_tab perform
  put_tab-Called id r w s well = elim (Bool-cases (is_valid_id id)) [
    | inr bad ↦ rw bad (nothing s.manager)
    | inl good ↦ elim (Option-cases (o.decode_tab r.body)) [
      | inl unread ↦ rw (good, unread) (nothing s.manager)
      | inr ((name, layout), read) ↦
          rw (good, read)
            (called (tab_updated id name layout r.at) s.manager _ (well name layout read)
              (changed w s (update_tab id name layout r.at s.manager)))
    ]
  ]

  delete_tab_page-Called :
      (id : String) (r : HttpRequest) (w : Response) (s : Server)
      → Called s.manager (delete_tab_page o id r w s).1.manager
  unfolding delete_tab_page perform
  delete_tab_page-Called id r w s = elim (Bool-cases (is_valid_id id)) [
    | inr bad ↦ rw bad (nothing s.manager)
    | inl good ↦
        rw good
          (called (tab_deleted id true) s.manager _ tt (changed w s (delete_tab id true s.manager)))
  ]

  handle-Called :
      (rt : Route) (r : HttpRequest) (w : Response) (s : Server)
      → is_socket rt ≡ false
      → is_session_delete rt ≡ false
      → ((name : String) (layout : LayoutNode)
          → o.decode_tab r.body ≡ some (name, layout)
          → is_absent layout ≡ false
          → IsTree layout)
      → Called s.manager (handle o sockets rt r w s).1.manager
  unfolding handle tab_page get_tab get_session put_settings
  handle-Called Route.index_page r w s h k well = nothing s.manager
  handle-Called Route.settings_page r w s h k well = nothing s.manager
  handle-Called Route.list_tabs r w s h k well = nothing s.manager
  handle-Called Route.create_tab r w s h k well = post_tabs-Called r w s
  handle-Called Route.get_settings r w s h k well = nothing s.manager
  handle-Called Route.put_settings r w s h k well =
      subst (Called s.manager) (ground arith) (nothing s.manager)
  handle-Called Route.health r w s h k well = nothing s.manager
  handle-Called Route.files r w s h k well = nothing s.manager
  handle-Called (Route.tab_page id) r w s h k well =
      subst (Called s.manager) (ground arith) (nothing s.manager)
  handle-Called (Route.get_tab id) r w s h k well =
      subst (Called s.manager) (ground arith) (nothing s.manager)
  handle-Called (Route.put_tab id) r w s h k well = put_tab-Called id r w s well
  handle-Called (Route.delete_tab id) r w s h k well = delete_tab_page-Called id r w s
  handle-Called (Route.get_session id) r w s h k well =
      subst (Called s.manager) (ground arith) (nothing s.manager)
  handle-Called (Route.delete_session id) r w s h k well = absurd cc
  handle-Called (Route.tab_socket id) r w s h k well = absurd cc
  handle-Called (Route.session_socket id) r w s h k well = absurd cc

  serve-Called :
      (port : ℕ) (r : HttpRequest) (w : Response) (s : Server)
      → IsPlain r
      → Called s.manager (serve o port sockets r w s).1.manager
  unfolding serve mux security_middleware
  serve-Called port r w s plain = elim (Bool-cases (is_host_allowed port r.host)) [
    | inr foreign ↦ rw foreign (nothing s.manager)
    | inl local ↦ elim (Bool-cases (is_origin_allowed port r.origin)) [
      | inr foreign ↦ rw (local, foreign) (nothing s.manager)
      | inl own ↦ elim (Bool-cases (str_eq r.method "OPTIONS")) [
        | inl asks ↦ rw (local, own, asks) (nothing s.manager)
        | inr other ↦
            rw (local, own, other)
              (handle-Called (route r.method r.path) r (base_headers r.origin w) s plain.no_socket
                plain.no_session_delete plain.well_sent)
      ]
    ]
  ]

  -- The requests one after the other, each with a fresh response.
  unfoldable pub serve_all : ℕ → List HttpRequest → Server → Server
  unfolding serve
  serve_all port [] s = s
  serve_all port (r ∷ rs) s = serve_all port rs (serve o port sockets r new_response s).1

  serve_all-performs :
      (port : ℕ) (rs : List HttpRequest) (s : Server)
      → All IsPlain rs
      → Called s.manager (serve_all port rs s).manager
  unfolding serve_all
  serve_all-performs port [] s nil = nothing s.manager
  serve_all-performs port (r ∷ rs) s (cons h hs) =
      let (first, well, e) = serve-Called port r new_response s h in
      let (later, well', e') =
        serve_all-performs port rs (serve o port sockets r new_response s).1 hs in
      (
        first ++ later,
        AreAllowed-append o.generate_id o.pty_start first later s.manager well
            (subst (AreAllowed o.generate_id o.pty_start later) e well'),
        e'
            ∙ ap (perform_all o.generate_id o.pty_start later) e
            ∙ sym (perform_all-append o.generate_id o.pty_start first later s.manager),
      )

  -- Along requests that open no WebSocket, do not `DELETE` a session and carry no layout but trees,
  -- which the handlers do not test, a sound registry stays sound: each pane names a session of its
  -- own that the registry has. The generated IDs are distinct and not empty.
  pub serve_all-Backed :
      (port : ℕ) (rs : List HttpRequest) (s : Server)
      → IsInjective o.generate_id
      → ((k : ℕ) → o.generate_id k ≢ "")
      → All IsPlain rs
      → Backed o.generate_id s.manager
      → Backed o.generate_id (serve_all port rs s).manager
  serve_all-Backed port rs s injective not_empty plain b =
      let (calls, well, e) = serve_all-performs port rs s plain in
      subst (Backed o.generate_id) (sym e)
        (perform_all-Backed o.generate_id o.pty_start calls s.manager injective not_empty well b)
