-- ===== src/Server.antt =====
-- cmd/termulaa/main.go: the checks of every HTTP request, and the settings. A header that the request
-- does not have is empty. What a response writer has been told is its record; `http.Error` also sets
-- the content type.
pub mod Prefix
pub mod Route
pub mod Rest
pub mod Guard
pub mod Calls
pub mod Orphan
pub mod Settings
pub mod TabSocket
pub mod Clients
pub mod OneOwner
pub mod Ownership
pub mod Exclusive
pub mod Races
pub mod SessionSocket
pub mod Panes
pub mod Joins
use Prim.Native.String.{String}
use text.Mathlib.Text.{◌==◌ as str_eq}
use termulaa.Prelude.{
  ℕ, ◌*◌, ◌^◌, Bool, true, false, not, ◌&&◌, ◌||◌, List, [], ◌∷◌, ◌++◌, Option, none, some, ◌==◌,
  within, leb, length, ascii, if◌then◌else◌,
}
use termulaa.Session.{SessionMeta}
use termulaa.Manager.{Error, Tab, TabInfo}
use termulaa.Vterm.Cell.{is_empty}
use termulaa.Vterm.Snapshot.{itoa, same_bytes}

abbrev pub Bytes : Type 0
Bytes = List ℕ

-- `path` is the cleaned path by its segments, and `at` the time at which the request is served.
pub record HttpRequest : Type 0 where
  pub method : String
  pub host : Bytes
  pub origin : Bytes
  pub forwarded_prefix : Bytes
  pub path : List String
  pub body : Bytes
  pub at : ℕ

pub record FullConfig : Type 0 where
  pub port : ℕ
  pub shell : String
  pub delete_on_close : Bool
  pub cleanup_after_days : ℕ
  pub scrollback_limit : String
  pub history_limit : ℕ
  pub default_cols : ℕ
  pub default_rows : ℕ
  pub cwd_poll_interval : String
  pub save_period : String
  pub theme : String
  pub font_family : String
  pub font_size : ℕ

-- What a response holds: nothing, the text of an error, a page, a file of the interface, or the value
-- that is encoded as JSON. A session's own data stand with whether its shell runs.
pub data Body : Type 0 where
  empty : Body
  message : Bytes → Body
  failure : Error → Body
  page : Bytes → Body
  tabs_json : List (Tab × TabInfo) → Body
  tab_json : Tab → Body
  session_json : SessionMeta → Bool → Body
  settings_json : FullConfig → Body
  health_json : ℕ → ℕ → Body

pub record Response : Type 0 where
  pub status : ℕ
  pub headers : List (String × Bytes)
  pub body : Body

abbrev pub new_response : Response
new_response = record { status = 200; headers = []; body = empty }

abbrev pub set_header : String → Bytes → Response → Response
set_header k v w = record w { headers = w.headers ++ (k, v) ∷ [] }

abbrev pub with_status : ℕ → Response → Response
with_status code w = record w { status = code }

-- `http.Error`
abbrev pub http_error : ℕ → Body → Response → Response
http_error code text w =
    let typed =
      set_header "X-Content-Type-Options" (ascii "nosniff")
        (set_header "Content-Type" (ascii "text/plain; charset=utf-8") w) in
    record typed { status = code; body = text }

-- `allowedHosts` for the port
unfoldable pub is_host_allowed : ℕ → Bytes → Bool
unfolding same_bytes itoa
is_host_allowed port host =
    same_bytes host (ascii "127.0.0.1:" ++ itoa port)
    || same_bytes host (ascii "localhost:" ++ itoa port)
    || same_bytes host (ascii "[::1]:" ++ itoa port)

unfoldable pub is_origin_allowed : ℕ → Bytes → Bool
unfolding same_bytes itoa
is_origin_allowed port origin =
    is_empty origin
    || same_bytes origin (ascii "http://127.0.0.1:" ++ itoa port)
    || same_bytes origin (ascii "http://localhost:" ++ itoa port)
    || same_bytes origin (ascii "http://[::1]:" ++ itoa port)

abbrev pub is_word_byte : ℕ → Bool
is_word_byte b = within b'A' b'Z' b || within b'a' b'z' b || within b'0' b'9' b

abbrev pub all_bytes : (ℕ → Bool) → Bytes → Bool
all_bytes ok [] = true
all_bytes ok (b ∷ bs) = ok b && all_bytes ok bs

-- ^[A-Za-z0-9_-]{1,64}$
unfoldable pub is_valid_id : String → Bool
is_valid_id s =
    let n = length (ascii s) in
    leb 1 n && leb n 64 && all_bytes (λ b. is_word_byte b || b == b'_' || b == b'-') (ascii s)

-- The headers that every request let in is answered with.
unfoldable pub base_headers : Bytes → Response → Response
base_headers origin w =
    let safe = set_header "Referrer-Policy" (ascii "no-referrer") (
      set_header "X-Frame-Options" (ascii "DENY")
        (set_header "X-Content-Type-Options" (ascii "nosniff") w)) in
    let cors =
      if is_empty origin
      then safe
      else set_header "Vary" (ascii "Origin") (
          set_header "Access-Control-Allow-Credentials" (ascii "true")
            (set_header "Access-Control-Allow-Origin" origin safe)) in
    set_header "Access-Control-Allow-Methods" (ascii "GET, POST, PUT, DELETE, OPTIONS")
      (set_header "Access-Control-Allow-Headers" (ascii "Content-Type") cors)

-- A handler: what it writes, and the state behind it.
abbrev pub Handler {ℓ} : Type ℓ → Type ℓ
Handler S = HttpRequest → Response → S → Response × S

unfoldable pub security_middleware {ℓ} : {S : Type ℓ} → ℕ → Handler S → Handler S
unfolding is_host_allowed is_origin_allowed base_headers
security_middleware port next r w s =
    let w' = base_headers r.origin w in
    let served = next r w' s in
    if not (is_host_allowed port r.host)
    then (http_error 421 (message (ascii "invalid host")) w, s)
    else if not (is_origin_allowed port r.origin)
    then (http_error 403 (message (ascii "origin not allowed")) w, s)
    else if str_eq r.method "OPTIONS"
    then (with_status 204 w', s)
    else served

unfoldable pub default_full_config : FullConfig
default_full_config = record {
  port = 17380;
  shell = "";
  delete_on_close = false;
  cleanup_after_days = 30;
  scrollback_limit = "1MB";
  history_limit = 10000;
  default_cols = 120;
  default_rows = 30;
  cwd_poll_interval = "5s";
  save_period = "5s";
  theme = "dark";
  font_family = "'JetBrains Mono', monospace";
  font_size = 14;
}

abbrev number_or : ℕ → ℕ → ℕ
number_or def n = if n == 0 then def else n

abbrev text_or : String → String → String
text_or def s = if str_eq s "" then def else s

-- The zero values replaced by defaults.
unfoldable pub fill_defaults : FullConfig → FullConfig
unfolding default_full_config
fill_defaults cfg =
    let def = default_full_config in
    record cfg {
      port = number_or def.port cfg.port;
      scrollback_limit = text_or def.scrollback_limit cfg.scrollback_limit;
      default_cols = number_or def.default_cols cfg.default_cols;
      default_rows = number_or def.default_rows cfg.default_rows;
      cwd_poll_interval = text_or def.cwd_poll_interval cfg.cwd_poll_interval;
      save_period = text_or def.save_period cfg.save_period;
      font_size = number_or def.font_size cfg.font_size;
    }

-- `loadFullConfig` on what the file holds, if it can be read. `unmarshal` is what decoding leaves in a
-- configuration; its error is not looked at.
unfoldable pub load_full_config : (Bytes → FullConfig → FullConfig) → Option Bytes → FullConfig
unfolding fill_defaults default_full_config
load_full_config unmarshal none = default_full_config
load_full_config unmarshal (some bytes) = fill_defaults (unmarshal bytes default_full_config)
