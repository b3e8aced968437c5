-- ===== src/Tests/Sessions.antt =====
-- cmd/termulaa/session.go: rings of four bytes and a client that has just attached.
use termulaa.Prelude.{◌<◌, true, false, [], ◌∷◌, ◌++◌, ◌≡◌, refl, arith, length, nil, if◌then◌else◌}
use termulaa.Ring.{RingBuffer, write, read_all, clean_replay_start, index_byte, Bytes}
use termulaa.Ring.Split.{last}
use termulaa.Ring.Refine.{InBuffer, FillsExactly, read_all-write, read_all-write_exact}
use termulaa.Ring.Replay.{StartsAtEscape, clean_replay_start-StartsAtEscape}
use termulaa.Outbox.{Client, new_client, queue_binary}
use termulaa.Outbox.Laws.{Accounted, stream, tagged, queue_binary_lem}

abbrev three_of_four : RingBuffer
three_of_four = record { buf = 1 ∷ 2 ∷ 3 ∷ 0 ∷ []; pos = 3; full = false }

three-InBuffer : InBuffer three_of_four
three-InBuffer = record { pos_in = omega arith }

two_do_not_fill : ¬ FillsExactly (4 ∷ 5 ∷ []) three_of_four
two_do_not_fill = ground arith

read_all-write_example :
    read_all (write (4 ∷ 5 ∷ []) three_of_four) ≡ last 4 (read_all three_of_four ++ 4 ∷ 5 ∷ [])
read_all-write_example = read_all-write (4 ∷ 5 ∷ []) three-InBuffer two_do_not_fill

read_all-write_exact_example :
    (read_all (write (4 ∷ []) three_of_four) ≡ [])
    × ((write (4 ∷ []) three_of_four).buf ≡ read_all three_of_four ++ 4 ∷ [])
read_all-write_exact_example =
    read_all-write_exact (4 ∷ []) three-InBuffer (refl, refl, omega arith)

abbrev dump : Bytes
dump = 0x80 ∷ b'm' ∷ 0x1b ∷ b'[' ∷ b'm' ∷ []

escape_in_dump : index_byte 0x1b dump < length dump
unfolding index_byte
escape_in_dump = omega arith

clean_replay_start-StartsAtEscape_example : StartsAtEscape dump (clean_replay_start dump true)
clean_replay_start-StartsAtEscape_example = clean_replay_start-StartsAtEscape dump escape_in_dump

new-Accounted : Accounted 9 new_client
new-Accounted = record { counted = refl; bounded = nil }

abbrev sent_once : Client
sent_once = queue_binary (1 ∷ 2 ∷ []) new_client

sent-Accounted : Accounted 9 sent_once
sent-Accounted = (queue_binary_lem 9 (1 ∷ 2 ∷ []) (omega arith) new-Accounted).0

queue_binary_lem_example :
    Accounted 9 (queue_binary (3 ∷ []) sent_once)
    × (stream (queue_binary (3 ∷ []) sent_once).out
        ≡ stream sent_once.out ++ (if sent_once.overflow then [] else tagged false (3 ∷ [])))
queue_binary_lem_example = queue_binary_lem 9 (3 ∷ []) (omega arith) sent-Accounted

no_overflow : (queue_binary (3 ∷ []) new_client).overflow ≡ false
unfolding queue_binary
no_overflow = refl
