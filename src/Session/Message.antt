-- ===== src/Session/Message.antt =====
-- cmd/termulaa/session.go: the control message of `AttachClient` that carries a snapshot, as
-- encoding/json and encoding/base64 write it. JSON has the keys in their order.
use termulaa.Prelude.{ascii, ℕ, ◌+◌, ◌-◌, ◌*◌, ◌/◌, ◌%◌, [], ◌∷◌, ◌++◌, ltb, ◌==◌, if◌then◌else◌}
use termulaa.Outbox.{Bytes}

-- The digit of six bits.
abbrev pub base64_digit : ℕ → ℕ
base64_digit v =
    if ltb v 26
    then b'A' + v
    else if ltb v 52
    then b'a' + (v - 26)
    else if ltb v 62
    then b'0' + (v - 52)
    else if v == 62
    then b'+'
    else b'/'

-- `base64.StdEncoding.EncodeToString`
unfoldable pub base64 : Bytes → Bytes
base64 [] = []
base64 (a ∷ []) = base64_digit (a / 4) ∷ base64_digit (a % 4 * 16) ∷ b'=' ∷ b'=' ∷ []
base64 (a ∷ b ∷ []) =
    base64_digit (a / 4)
    ∷ base64_digit (a % 4 * 16 + b / 16)
    ∷ base64_digit (b % 16 * 4)
    ∷ b'='
    ∷ []
base64 (a ∷ b ∷ c ∷ bs) =
    base64_digit (a / 4)
    ∷ base64_digit (a % 4 * 16 + b / 16)
    ∷ base64_digit (b % 16 * 4 + c / 64)
    ∷ base64_digit (c % 64)
    ∷ base64 bs

unfoldable pub scrollback_message : Bytes → Bytes
unfolding base64
scrollback_message picture =
    ascii "{\"data\":\""
    ++ (base64 picture ++ ascii "\",\"snapshot\":true,\"type\":\"scrollback\"}")
