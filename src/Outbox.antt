-- ===== src/Outbox.antt =====
-- cmd/termulaa/session.go: the outbound queue of an attached client. The mutex makes each method
-- atomic; `signal` only wakes the pump, and has no field.
pub mod Laws
use termulaa.Prelude.{
  ℕ, ◌+◌, ◌*◌, ◌^◌, Bool, true, false, not, ◌&&◌, List, [], ◌∷◌, ◌++◌, Option, none, some, ltb, leb,
  length, if◌then◌else◌,
}

abbrev pub Bytes : Type 0
Bytes = List ℕ

pub record OutFrame : Type 0 where
  pub text : Bool
  pub bytes : Bytes

-- 8 << 20
abbrev pub max_client_backlog : ℕ
max_client_backlog = 8 * 2 ^ 20

-- 256 << 10
abbrev pub max_coalesced_frame : ℕ
max_coalesced_frame = 256 * 2 ^ 10

pub record Client : Type 0 where
  pub out : List OutFrame
  pub out_bytes : ℕ
  pub overflow : Bool

abbrev pub new_client : Client
new_client = record { out = []; out_bytes = 0; overflow = false }

abbrev pub binary : Bytes → OutFrame
binary bs = record { text = false; bytes = bs }

-- The last pending frame takes the bytes if it is binary and they fit; else they are a new frame.
unfoldable pub coalesce : List OutFrame → Bytes → List OutFrame
coalesce [] bs = binary bs ∷ []
coalesce (f ∷ []) bs =
    if not f.text && leb (length f.bytes + length bs) max_coalesced_frame
    then record f { bytes = f.bytes ++ bs } ∷ []
    else f ∷ binary bs ∷ []
coalesce (f ∷ g ∷ fs) bs = f ∷ coalesce (g ∷ fs) bs

unfoldable pub queue_binary : Bytes → Client → Client
queue_binary bs c =
    let total = c.out_bytes + length bs in
    if c.overflow then c else record {
      out = coalesce c.out bs;
      out_bytes = total;
      overflow = ltb max_client_backlog total;
    }

unfoldable pub queue_text : Bytes → Client → Client
queue_text msg c = if c.overflow then c else record c {
  out = c.out ++ record { text = true; bytes = msg } ∷ [];
  out_bytes = c.out_bytes + length msg;
}

-- The frames, whether the limit was exceeded, and the client behind.
unfoldable pub take_pending : Client → List OutFrame × Bool × Client
take_pending c = (c.out, c.overflow, record c { out = []; out_bytes = 0 })
