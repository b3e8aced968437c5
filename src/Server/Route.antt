-- ===== src/Server/Route.antt =====
-- cmd/termulaa/handler.go: `registerRoutes`, the patterns. A pattern with GET takes HEAD too, and a
-- path value is a segment that is not empty. What no other pattern takes is a static file.
use Prim.Native.String.{String}
use text.Mathlib.Text.{◌==◌ as str_eq}
use termulaa.Prelude.{Bool, not, ◌&&◌, ◌||◌, List, [], ◌∷◌, if◌then◌else◌}

pub data Route : Type 0 where
  index_page settings_page list_tabs create_tab get_settings put_settings health files : Route
  tab_page get_tab put_tab delete_tab get_session delete_session : String → Route
  tab_socket session_socket : String → Route

abbrev pub is_get : String → Bool
is_get m = str_eq m "GET" || str_eq m "HEAD"

unfoldable pub top_route : String → String → Route
top_route m a =
    if str_eq a "settings" && is_get m
    then settings_page
    else if str_eq a "health" && is_get m
    then health
    else files

unfoldable pub api_route : String → String → Route
api_route m a =
    if str_eq a "tabs"
    then (if is_get m then list_tabs else if str_eq m "POST" then create_tab else files)
    else if str_eq a "settings"
    then (if is_get m then get_settings else if str_eq m "PUT" then put_settings else files)
    else files

unfoldable pub tab_route : String → String → Route
tab_route m id =
    if is_get m
    then get_tab id
    else if str_eq m "PUT"
    then put_tab id
    else if str_eq m "DELETE"
    then delete_tab id
    else files

unfoldable pub session_route : String → String → Route
session_route m id =
    if is_get m then get_session id else if str_eq m "DELETE" then delete_session id else files

unfoldable pub pair_route : String → String → String → Route
unfolding api_route
pair_route m a b =
    if str_eq a "api"
    then api_route m b
    else if str_eq a "tab" && is_get m && not (str_eq b "")
    then tab_page b
    else files

unfoldable pub id_route : String → String → String → String → Route
unfolding tab_route session_route
id_route m a b id =
    if str_eq id ""
    then files
    else if str_eq a "api" && str_eq b "tabs"
    then tab_route m id
    else if str_eq a "api" && str_eq b "sessions"
    then session_route m id
    else if str_eq a "ws" && str_eq b "tab"
    then tab_socket id
    else if str_eq a "ws" && str_eq b "session"
    then session_socket id
    else files

unfoldable pub route : String → List String → Route
unfolding top_route pair_route id_route
route m [] = if is_get m then index_page else files
route m (a ∷ []) = top_route m a
route m (a ∷ b ∷ []) = pair_route m a b
route m (a ∷ b ∷ c ∷ []) = id_route m a b c
route m (a ∷ b ∷ c ∷ d ∷ rest) = files
