-- ===== src/Ring.antt =====
-- cmd/termulaa/session.go: `RingBuffer`, the scrollback bytes of a session. The mutex makes each
-- method atomic. `SaveTo` and `LoadFrom` are modelled by the bytes that go through the file.
pub mod Split
pub mod Refine
pub mod Replay
use termulaa.Prelude.{
  ℕ, zero, suc, ◌+◌, ◌-◌, ◌%◌, Bool, true, false, not, ◌||◌, List, [], ◌∷◌, ◌++◌, ◌==◌, leb, ltb,
  within, length, take, drop, replicate, copy_at, if◌then◌else◌,
}

abbrev pub Bytes : Type 0
Bytes = List ℕ

pub record RingBuffer : Type 0 where
  pub buf : Bytes
  pub pos : ℕ
  pub full : Bool

unfoldable pub new_ring_buffer : ℕ → RingBuffer
new_ring_buffer size = record { buf = replicate size 0; pos = 0; full = false }

unfoldable pub write : Bytes → RingBuffer → RingBuffer
write p r =
    let n = length p in
    let buf_len = length r.buf in
    let space = buf_len - r.pos in
    let next = (r.pos + n) % buf_len in
    if leb buf_len n
    then record { buf = copy_at r.buf 0 (drop (n - buf_len) p); pos = 0; full = true }
    else if leb n space
    then record r { buf = copy_at r.buf r.pos p; pos = next }
    else record {
      buf = copy_at (copy_at r.buf r.pos (take space p)) 0 (drop space p);
      pos = next;
      full = true;
    }

-- The data from oldest to newest, and whether the ring has wrapped.
unfoldable pub read_all_wrapped : RingBuffer → Bytes × Bool
read_all_wrapped r =
    if not r.full then (take r.pos r.buf, false) else (drop r.pos r.buf ++ take r.pos r.buf, true)

unfoldable pub read_all : RingBuffer → Bytes
unfolding read_all_wrapped
read_all r = (read_all_wrapped r).0

unfoldable pub len : RingBuffer → ℕ
len r = if r.full then length r.buf else r.pos

-- `LoadFrom`, on the bytes of the file.
unfoldable pub load : Bytes → RingBuffer → RingBuffer
load file r =
    let buf_len = length r.buf in
    if leb buf_len (length file)
    then record { buf = copy_at r.buf 0 (drop (length file - buf_len) file); pos = 0; full = true }
    else record { buf = copy_at r.buf 0 file; pos = length file; full = false }

-- data[i]&0xC0 == 0x80
abbrev pub is_continuation : ℕ → Bool
is_continuation = within 0x80 0xbf

unfoldable pub skip_continuation : Bytes → Bytes
skip_continuation [] = []
skip_continuation (b ∷ bs) =
    let rest = skip_continuation bs in if is_continuation b then rest else b ∷ bs

-- `bytes.IndexByte`; the length stands for -1.
unfoldable pub index_byte : ℕ → Bytes → ℕ
index_byte c [] = 0
index_byte c (b ∷ bs) = let rest = index_byte c bs in if b == c then 0 else suc rest

unfoldable pub clean_replay_start : Bytes → Bool → Bytes
clean_replay_start bytes wrapped =
    let rest = skip_continuation bytes in
    let esc = index_byte 0x1b rest in
    let nl = index_byte b'\n' rest in
    if not wrapped || length bytes == 0
    then bytes
    else if ltb esc (length rest)
    then drop esc rest
    else if ltb nl (length rest)
    then drop (nl + 1) rest
    else rest

unfoldable pub read_replay : RingBuffer → Bytes
read_replay r = let (bytes, wrapped) = read_all_wrapped r in clean_replay_start bytes wrapped
