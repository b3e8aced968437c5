-- ===== src/Server/Guard.antt =====
-- What a request must have to reach the state of the server.
use Prim.Native.String.{String}
use text.Mathlib.Text.{◌==◌ as str_eq}
use termulaa.Prelude.{
  ℕ, Bool, true, false, List, [], ◌∷◌, ◌++◌, ◌≡◌, ◌≢◌, refl, ap, arith, ascii, Bool-cases, inl, inr,
}
use termulaa.Vterm.Cell.{is_empty}
use termulaa.Vterm.Snapshot.{itoa, same_bytes}
use termulaa.Server.{
  Bytes, HttpRequest, Response, is_host_allowed, is_origin_allowed, base_headers, Handler,
  security_middleware,
}
use termulaa.Server.Route.{
  Route, is_get, route, top_route, pair_route, api_route, id_route, tab_route, session_route,
}
use termulaa.Server.Rest.{Outside, Server, tab_page, get_tab, get_session, handle, mux, serve}

same_bytes-eq : (a b : Bytes) → same_bytes a b ≡ true → a ≡ b
unfolding same_bytes
same_bytes-eq [] [] h = refl
same_bytes-eq [] (c ∷ b) h = cc
same_bytes-eq (x ∷ a) [] h = cc
same_bytes-eq (x ∷ a) (c ∷ b) h = ground (arith, same_bytes-eq a b)

differ : (a b : Bytes) → a ≢ b → same_bytes a b ≡ false
differ a b ne = elim (Bool-cases (same_bytes a b)) [
  | inl same ↦ absurd (ne (same_bytes-eq a b same))
  | inr other ↦ other
]

abbrev is_writer : Route → Bool
is_writer Route.create_tab = true
is_writer Route.put_settings = true
is_writer (Route.put_tab id) = true
is_writer (Route.delete_tab id) = true
is_writer (Route.delete_session id) = true
is_writer _ = false

abbrev pub is_socket : Route → Bool
is_socket (Route.tab_socket id) = true
is_socket (Route.session_socket id) = true
is_socket _ = false

route-reads : (m : String) (p : List String) → is_get m ≡ true → is_writer (route m p) ≡ false
unfolding route top_route pair_route api_route id_route tab_route session_route
route-reads m [] h = rw h refl
route-reads m (a ∷ []) h = rw h (ground arith)
route-reads m (a ∷ b ∷ []) h = rw h (ground arith)
route-reads m (a ∷ b ∷ c ∷ []) h = rw h (ground arith)
route-reads m (a ∷ b ∷ c ∷ d ∷ rest) h = refl

-- A request that may not, or does not ask to, change anything. A host and an origin are the server's
-- own by one of three names.
pub data IsHarmless (port : ℕ) (r : HttpRequest) : Type 0 where
  foreign_host :
      r.host ≢ (ascii "127.0.0.1:" ++ itoa port)
      → r.host ≢ (ascii "localhost:" ++ itoa port)
      → r.host ≢ (ascii "[::1]:" ++ itoa port)
      → IsHarmless port r
  foreign_origin :
      r.origin ≢ []
      → r.origin ≢ (ascii "http://127.0.0.1:" ++ itoa port)
      → r.origin ≢ (ascii "http://localhost:" ++ itoa port)
      → r.origin ≢ (ascii "http://[::1]:" ++ itoa port)
      → IsHarmless port r
  preflight : r.method ≡ "OPTIONS" → IsHarmless port r
  reads : is_get r.method ≡ true → is_socket (route r.method r.path) ≡ false → IsHarmless port r

module _ {S : Type 0} (port : ℕ) (next : Handler S) (r : HttpRequest) (w : Response) (s : S) where
  wrong_host : is_host_allowed port r.host ≡ false → (security_middleware port next r w s).1 ≡ s
  unfolding security_middleware
  wrong_host h = rw h refl

  wrong_origin :
      is_origin_allowed port r.origin ≡ false → (security_middleware port next r w s).1 ≡ s
  unfolding security_middleware
  wrong_origin h = ground (arith, h)

  harmless_next :
      ((v : Response) → (next r v s).1 ≡ s) → (security_middleware port next r w s).1 ≡ s
  unfolding security_middleware
  harmless_next h = ground (arith, h (base_headers r.origin w))

  preflighted : r.method ≡ "OPTIONS" → (security_middleware port next r w s).1 ≡ s
  unfolding security_middleware
  preflighted h = ground (arith, ap (λ m. str_eq m "OPTIONS") h)

module _ (o : Outside) (sockets : Route → Handler Server) where
  handle-reads :
      (rt : Route) (r : HttpRequest) (w : Response) (s : Server)
      → is_writer rt ≡ false
      → is_socket rt ≡ false
      → (handle o sockets rt r w s).1 ≡ s
  unfolding handle tab_page get_tab get_session
  handle-reads Route.index_page r w s h k = refl
  handle-reads Route.settings_page r w s h k = refl
  handle-reads Route.list_tabs r w s h k = refl
  handle-reads Route.create_tab r w s h k = cc
  handle-reads Route.get_settings r w s h k = refl
  handle-reads Route.put_settings r w s h k = cc
  handle-reads Route.health r w s h k = refl
  handle-reads Route.files r w s h k = refl
  handle-reads (Route.tab_page id) r w s h k = ground arith
  handle-reads (Route.get_tab id) r w s h k = ground arith
  handle-reads (Route.put_tab id) r w s h k = cc
  handle-reads (Route.delete_tab id) r w s h k = cc
  handle-reads (Route.get_session id) r w s h k = ground arith
  handle-reads (Route.delete_session id) r w s h k = cc
  handle-reads (Route.tab_socket id) r w s h k = cc
  handle-reads (Route.session_socket id) r w s h k = cc

  -- A request whose host or origin is none of the server's own names, a preflight request, and one
  -- that reads, with GET or HEAD and no WebSocket, leave the server as it was, with its registry,
  -- its settings and its files.
  pub serve-unchanged :
      (port : ℕ) (r : HttpRequest) (w : Response) (s : Server)
      → IsHarmless port r
      → (serve o port sockets r w s).1 ≡ s
  unfolding serve mux is_host_allowed is_origin_allowed
  serve-unchanged port r w s (foreign_host a b c) =
      wrong_host port (mux o sockets) r w s (rw (differ _ _ a, differ _ _ b, differ _ _ c) refl)
  serve-unchanged port r w s (foreign_origin e a b c) =
      wrong_origin port (mux o sockets) r w s
        (rw (filled r.origin e, differ _ _ a, differ _ _ b, differ _ _ c) refl)
    where
      filled : (bs : Bytes) → bs ≢ [] → is_empty bs ≡ false
      filled [] ne = absurd (ne refl)
      filled (b ∷ bs) ne = refl
  serve-unchanged port r w s (preflight h) = preflighted port (mux o sockets) r w s h
  serve-unchanged port r w s (reads get plain) =
      harmless_next port (mux o sockets) r w s
        (λ v. handle-reads (route r.method r.path) r v s (route-reads r.method r.path get) plain)
