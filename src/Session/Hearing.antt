-- ===== src/Session/Hearing.antt =====
-- What a client that joins a session is sent.
use Prim.Native.String.{String}
use mathlib.Core.Path.{subst}
use termulaa.Prelude.{
  ℕ, Bool, true, false, List, [], ◌∷◌, ◌++◌, map, none, some, ◌==◌, ◌≡◌, ◌≢◌, inl, inr, refl, sym,
  ap, ◌∙◌, arith, append-nil, append_assoc, if◌then◌else◌, Bool-cases, All, nil, cons, ==_iff,
}
use termulaa.Outbox.{Bytes, OutFrame, queue_binary, queue_text, take_pending}
use termulaa.Outbox.Laws.{
  Sent, tagged, stream, stream-append, stream-queue_binary, stream-queue_text,
}
use termulaa.Vterm.Snapshot.{snapshot}
use termulaa.Session.{
  new_attached, Attached, Session, find_client, update_client, remove_client, pump_notified,
  pump_done, with_queue, broadcast, record_output, attach_client, detach_client, resize_session,
  shell_exited,
}
use termulaa.Session.Message.{scrollback_message}
use termulaa.Session.Events.{
  Event, printed, joins, leaves, sized, pumped, told, exited, pump_finished, step, run, heard,
  heard_of, StaysIn,
}

-- All that a client has been sent, on the wire or still queued.
abbrev pub sent_to : Attached → List Sent
sent_to c = stream c.wire ++ stream c.queue.out

-- Client `k` of the list has been sent `x`, or has it queued, and its pump has not returned behind the
-- end of the session, unless it has overflowed.
pub record Hears (k : ℕ) (x : List Sent) (cs : List Attached) : Type 0 where
  pub client : Attached
  pub found : find_client k cs ≡ some client
  pub complete : client.queue.overflow ≡ false → sent_to client ≡ x
  pub pumping : client.queue.overflow ≡ false → client.pump_ended ≡ false

-- What an operation on a client adds to what it was sent.
record Adds (more : List Sent) (f : Attached → Attached) : Type 0 where
  key_kept : (c : Attached) → (f c).key ≡ c.key
  overflow_kept : (c : Attached) → (f c).queue.overflow ≡ false → c.queue.overflow ≡ false
  adds : (c : Attached) → c.queue.overflow ≡ false → sent_to (f c) ≡ sent_to c ++ more
  pump_kept :
      (c : Attached) → c.queue.overflow ≡ false → c.pump_ended ≡ false → (f c).pump_ended ≡ false

queue_binary-Adds : (bs : Bytes) → Adds (tagged false bs) (with_queue (queue_binary bs))
unfolding queue_binary
queue_binary-Adds bs = record {
  key_kept = λ c. refl;
  overflow_kept = λ c h. ground arith;
  adds = λ c h.
      ap (λ xs. stream c.wire ++ xs) (stream-queue_binary bs c.queue h)
      ∙ sym (append_assoc (stream c.wire) (stream c.queue.out) (tagged false bs));
  pump_kept = λ c h k. k;
}

queue_text-Adds : (msg : Bytes) → Adds (tagged true msg) (with_queue (queue_text msg))
unfolding queue_text
queue_text-Adds msg = record {
  key_kept = λ c. refl;
  overflow_kept = λ c h. ground arith;
  adds = λ c h.
      ap (λ xs. stream c.wire ++ xs) (stream-queue_text msg c.queue h)
      ∙ sym (append_assoc (stream c.wire) (stream c.queue.out) (tagged true msg));
  pump_kept = λ c h k. k;
}

pump_notified-Adds : Adds [] pump_notified
unfolding pump_notified take_pending
pump_notified-Adds = record {
  key_kept = λ c. ground arith;
  overflow_kept = λ c h. ground arith;
  adds = λ c h.
      ground
        (arith, ap (λ xs. xs ++ []) (stream-append c.wire c.queue.out), append-nil (sent_to c));
  pump_kept = λ c h k. ground arith;
}

pub key-pump_done : (notice : OutFrame) (c : Attached) → (pump_done notice c).key ≡ c.key
unfolding pump_done
key-pump_done notice c = ground arith

pub find-update_client :
    (k : ℕ) (f : Attached → Attached) (cs : List Attached) (c : Attached)
    → (f c).key ≡ c.key
    → find_client k cs ≡ some c
    → find_client k (update_client k f cs) ≡ some (f c)
unfolding find_client update_client
find-update_client k f [] c same h = cc
find-update_client k f (d ∷ cs) c same h = ground (arith, find-update_client k f cs c)

find-update_other :
    (k j : ℕ) (f : Attached → Attached) (cs : List Attached)
    → ((c : Attached) → (f c).key ≡ c.key)
    → j ≢ k
    → find_client k (update_client j f cs) ≡ find_client k cs
unfolding find_client update_client
find-update_other k j f [] same ne = refl
find-update_other k j f (d ∷ cs) same ne = ground (arith, same d, find-update_other k j f cs same)

find-remove_client :
    (k j : ℕ) (cs : List Attached) → j ≢ k → find_client k (remove_client j cs) ≡ find_client k cs
unfolding find_client remove_client
find-remove_client k j [] ne = refl
find-remove_client k j (d ∷ cs) ne = ground (arith, find-remove_client k j cs)

find-map :
    (k : ℕ) (f : Attached → Attached) (cs : List Attached) (c : Attached)
    → ((d : Attached) → (f d).key ≡ d.key)
    → find_client k cs ≡ some c
    → find_client k (map f cs) ≡ some (f c)
unfolding find_client
find-map k f [] c same h = cc
find-map k f (d ∷ cs) c same h = ground (arith, same d, find-map k f cs c same)

find-append :
    (k : ℕ) (cs ds : List Attached) (c : Attached)
    → find_client k cs ≡ some c
    → find_client k (cs ++ ds) ≡ some c
unfolding find_client
find-append k [] ds c h = cc
find-append k (d ∷ cs) ds c h = ground (arith, find-append k cs ds c)

find-append_new :
    (k : ℕ) (cs : List Attached) (c : Attached)
    → find_client k cs ≡ none
    → c.key ≡ k
    → find_client k (cs ++ c ∷ []) ≡ some c
unfolding find_client
find-append_new k [] c h e = ground arith
find-append_new k (d ∷ cs) c h e = ground (arith, find-append_new k cs c)

module _ (k : ℕ) (x : List Sent) {cs : List Attached} (h : Hears k x cs) where
  Hears-same : {ds : List Attached} → find_client k ds ≡ find_client k cs → Hears k (x ++ []) ds
  Hears-same e = record {
    client = h.client;
    found = e ∙ h.found;
    complete = λ o. h.complete o ∙ sym (append-nil x);
    pumping = h.pumping;
  }

  Hears-found :
      {more : List Sent} {f : Attached → Attached} {ds : List Attached}
      → Adds more f
      → find_client k ds ≡ some (f h.client)
      → Hears k (x ++ more) ds
  Hears-found {more} {f} a e = record {
    client = f h.client;
    found = e;
    complete = λ o.
        a.adds h.client (a.overflow_kept h.client o)
        ∙ ap (λ xs. xs ++ more) (h.complete (a.overflow_kept h.client o));
    pumping = λ o. let o' = a.overflow_kept h.client o in a.pump_kept h.client o' (h.pumping o');
  }

  Hears-update :
      (j : ℕ) {more : List Sent} {f : Attached → Attached}
      → Adds more f
      → Hears k (x ++ (if j == k then more else [])) (update_client j f cs)
  Hears-update j {more} {f} a = elim (Bool-cases (j == k)) [
    | inl same ↦
        let e : j ≡ k = (==_iff j k).0 same in
        rw (same, e)
          (Hears-found a (find-update_client k f cs h.client (a.key_kept h.client) h.found))
    | inr other ↦
        let ne : j ≢ k = ground (arith, other) in
        rw other (Hears-same (find-update_other k j f cs a.key_kept ne))
  ]

joined :
    (k : ℕ) (tab token : String) (s : Session)
    → find_client k s.clients ≡ none
    → Hears k
        (tagged true (scrollback_message (snapshot s.term)))
        (attach_client (new_attached k tab token) true s).0.clients
unfolding attach_client snapshot queue_text
joined k tab token s none_yet = record {
  client =
      with_queue (queue_text (scrollback_message (snapshot s.term))) (new_attached k tab token);
  found = find-append_new k s.clients _ none_yet (ground arith);
  complete = λ o. append-nil (tagged true (scrollback_message (snapshot s.term)));
  pumping = λ o. refl;
}

module _ (is_mark : ℕ → Bool) where
  step-Hears :
      (k : ℕ) (x : List Sent) (e : Event) (s : Session)
      → StaysIn k e
      → Hears k x s.clients
      → Hears k (x ++ heard_of k e) (step is_mark e s).clients
  unfolding step record_output broadcast attach_client detach_client resize_session shell_exited
  step-Hears k x (printed [] now) s st h = Hears-same k x h refl
  step-Hears k x (printed (b ∷ bs) now) s st h =
      let a = queue_binary-Adds (b ∷ bs) in
      Hears-found k x h a
        (find-map k (with_queue (queue_binary (b ∷ bs))) s.clients h.client a.key_kept h.found)
  step-Hears k x (joins c replay) s st h =
      Hears-same k x h (find-append k s.clients _ h.client h.found ∙ sym h.found)
  step-Hears k x (leaves j) s st h = Hears-same k x h (find-remove_client k j s.clients st)
  step-Hears k x (sized cols rows) s st h = Hears-same k x h (ap (find_client k) (ground arith))
  step-Hears k x (pumped j) s st h =
      let out = Hears-update k x h j pump_notified-Adds in ground (arith, out)
  step-Hears k x (told j msg) s st h = Hears-update k x h j (queue_text-Adds msg)
  step-Hears k x (exited code) s st h = Hears-same k x h refl
  step-Hears k x (pump_finished j notice) s st h =
      let done = pump_done (record { text = true; bytes = notice }) in
      let same = find-update_other k j done s.clients (key-pump_done _) st in
      Hears-same k x h (ground (arith, same))

  run-Hears :
      (k : ℕ) (x : List Sent) (es : List Event) (s : Session)
      → All (StaysIn k) es
      → Hears k x s.clients
      → Hears k (x ++ heard k es) (run is_mark es s).clients
  unfolding run
  run-Hears k x [] s nil h = Hears-same k x h refl
  run-Hears k x (e ∷ es) s (cons st sts) h =
      subst (λ xs. Hears k xs (run is_mark es (step is_mark e s)).clients)
        (append_assoc x (heard_of k e) (heard k es))
        (run-Hears k (x ++ heard_of k e) es (step is_mark e s) sts (step-Hears k x e s st h))

  -- A new client that joins with a replay, and whose number no other client has, has on its connection
  -- or in its queue the message with the picture of the terminal at that moment, and behind it all the
  -- output that is printed and all that it is told, in order, once and whole, unless its queue
  -- overflows. This holds until it leaves or its own pump finds the session done, whatever other
  -- clients and their pumps do, whenever its pump is notified, and across changes of the size.
  pub attach_client-Hears :
      (k : ℕ) (tab token : String) (es : List Event) (s : Session)
      → find_client k s.clients ≡ none
      → All (StaysIn k) es
      → let c = new_attached k tab token in
        Hears k
          (tagged true (scrollback_message (snapshot s.term)) ++ heard k es)
          (run is_mark es (attach_client c true s).0).clients
  attach_client-Hears k tab token es s none_yet st =
      run-Hears k (tagged true (scrollback_message (snapshot s.term))) es
        (attach_client (new_attached k tab token) true s).0 st (joined k tab token s none_yet)
