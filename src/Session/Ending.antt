-- ===== src/Session/Ending.antt =====
-- What a client has been sent when its pump finds the session done.
use Prim.Native.String.{String}
use termulaa.Prelude.{
  ℕ, Bool, true, false, List, [], ◌∷◌, ◌++◌, none, some, ◌≡◌, refl, sym, ap, ◌∙◌, arith, append-nil,
  append_assoc, if◌then◌else◌, All, Bool-cases, inl, inr,
}
use termulaa.Outbox.{Bytes, OutFrame, take_pending}
use termulaa.Outbox.Laws.{Sent, tagged, tagged-append, stream, stream-append}
use termulaa.Vterm.Snapshot.{snapshot}
use termulaa.Session.{
  new_attached, Attached, Session, find_client, attach_client, pump_done, binary_frames,
}
use termulaa.Session.Message.{scrollback_message}
use termulaa.Session.Events.{
  Event, printed, joins, leaves, sized, pumped, told, exited, pump_finished, step, run, heard,
  heard_of, StaysIn,
}
use termulaa.Session.Hearing.{attach_client-Hears, find-update_client, key-pump_done}

-- What is no message.
abbrev pub outputs : List Sent → List Sent
outputs [] = []
outputs (x ∷ xs) = let rest = outputs xs in if x.in_text then rest else x ∷ rest

-- All that the shell printed.
abbrev pub output_of : List Event → Bytes
output_of [] = []
output_of (printed bs now ∷ es) = bs ++ output_of es
output_of (e ∷ es) = output_of es

outputs-append : (xs ys : List Sent) → outputs (xs ++ ys) ≡ outputs xs ++ outputs ys
outputs-append [] ys = refl
outputs-append (x ∷ xs) ys = ground (arith, outputs-append xs ys)

outputs_of_text : (bs : Bytes) → outputs (tagged true bs) ≡ []
outputs_of_text [] = refl
outputs_of_text (b ∷ bs) = outputs_of_text bs

outputs_of_output : (bs : Bytes) → outputs (tagged false bs) ≡ tagged false bs
outputs_of_output [] = refl
outputs_of_output (b ∷ bs) = ap (◌∷◌ (record { in_text = false; byte = b })) (outputs_of_output bs)

outputs_twice : (xs : List Sent) → outputs (outputs xs) ≡ outputs xs
outputs_twice [] = refl
outputs_twice (x ∷ xs) = ground (arith, outputs_twice xs)

-- Skipping the text frames leaves the output.
stream-binary_frames : (fs : List OutFrame) → stream (binary_frames fs) ≡ outputs (stream fs)
unfolding binary_frames
stream-binary_frames [] = refl
stream-binary_frames (f ∷ fs) = elim (Bool-cases f.text) [
  | inl text ↦ rw text (
      stream-binary_frames fs
      ∙ sym (ap (λ xs. xs ++ outputs (stream fs)) (outputs_of_text f.bytes))
      ∙ sym (outputs-append (tagged true f.bytes) (stream fs)))
  | inr plain ↦ rw plain (
      ap (λ xs. tagged false f.bytes ++ xs) (stream-binary_frames fs)
      ∙ sym (ap (λ xs. xs ++ outputs (stream fs)) (outputs_of_output f.bytes))
      ∙ sym (outputs-append (tagged false f.bytes) (stream fs)))
]

outputs-heard_of : (k : ℕ) (e : Event) → outputs (heard_of k e) ≡ tagged false (output_of (e ∷ []))
outputs-heard_of k (printed bs now) = outputs_of_output bs ∙ sym (ap (tagged false) (append-nil bs))
outputs-heard_of k (joins c replay) = refl
outputs-heard_of k (leaves j) = refl
outputs-heard_of k (sized cols rows) = refl
outputs-heard_of k (pumped j) = refl
outputs-heard_of k (told j msg) = ground (arith, outputs_of_text msg)
outputs-heard_of k (exited code) = refl
outputs-heard_of k (pump_finished j notice) = refl

output_of-cons :
    (e : Event) (es : List Event) → output_of (e ∷ es) ≡ output_of (e ∷ []) ++ output_of es
output_of-cons (printed bs now) es = ap (λ xs. xs ++ output_of es) (sym (append-nil bs))
output_of-cons (joins c replay) es = refl
output_of-cons (leaves j) es = refl
output_of-cons (sized cols rows) es = refl
output_of-cons (pumped j) es = refl
output_of-cons (told j msg) es = refl
output_of-cons (exited code) es = refl
output_of-cons (pump_finished j notice) es = refl

outputs-heard : (k : ℕ) (es : List Event) → outputs (heard k es) ≡ tagged false (output_of es)
outputs-heard k [] = refl
outputs-heard k (e ∷ es) =
    outputs-append (heard_of k e) (heard k es)
    ∙ ap (λ xs. xs ++ outputs (heard k es)) (outputs-heard_of k e)
    ∙ ap (λ xs. tagged false (output_of (e ∷ [])) ++ xs) (outputs-heard k es)
    ∙ sym (tagged-append false (output_of (e ∷ [])) (output_of es))
    ∙ sym (ap (tagged false) (output_of-cons e es))

-- The connection of client `k` ends with the notice, and the output before that is `out`, unless it
-- has overflowed.
pub record Flushed (k : ℕ) (notice out : Bytes) (cs : List Attached) : Type 0 where
  pub client : Attached
  pub found : find_client k cs ≡ some client
  pub before : List Sent
  pub ends : client.queue.overflow ≡ false → stream client.wire ≡ before ++ tagged true notice
  pub whole : client.queue.overflow ≡ false → outputs before ≡ tagged false out

-- What the pump adds when it finds the session done.
wire-pump_done :
    (notice : Bytes) (c : Attached)
    → c.pump_ended ≡ false
    → stream (pump_done (record { text = true; bytes = notice }) c).wire
      ≡ (stream c.wire ++ outputs (stream c.queue.out)) ++ tagged true notice
unfolding pump_done take_pending
wire-pump_done notice c runs =
    let exit_notice : OutFrame = record { text = true; bytes = notice } in
    let flushed = binary_frames c.queue.out in
    rw runs (
      stream-append c.wire (flushed ++ exit_notice ∷ [])
      ∙ ap (λ xs. stream c.wire ++ xs)
          (stream-append flushed (exit_notice ∷ [])
            ∙ ap (λ xs. xs ++ (tagged true notice ++ [])) (stream-binary_frames c.queue.out)
            ∙ ap (λ xs. outputs (stream c.queue.out) ++ xs) (append-nil (tagged true notice)))
      ∙ sym (append_assoc (stream c.wire) (outputs (stream c.queue.out)) (tagged true notice)))

overflow-pump_done :
    (notice : OutFrame) (c : Attached) → (pump_done notice c).queue.overflow ≡ c.queue.overflow
unfolding pump_done take_pending
overflow-pump_done notice c = ground arith

outputs_flushed : (xs ys : List Sent) → outputs (xs ++ outputs ys) ≡ outputs (xs ++ ys)
outputs_flushed xs ys =
    outputs-append xs (outputs ys)
    ∙ ap (λ zs. outputs xs ++ zs) (outputs_twice ys)
    ∙ sym (outputs-append xs ys)

module _ (is_mark : ℕ → Bool) where
  -- When the session is done and the pump of a client that joined with a replay finds it so, all the
  -- output that was printed since the client joined has gone to its connection, in order, once and
  -- whole, and behind it the notice of the exit, unless its queue overflowed. Nothing is said of the
  -- picture and of other messages.
  pub pump_finished-Flushed :
      (k : ℕ) (tab token : String) (es : List Event) (s : Session) (notice : Bytes)
      → find_client k s.clients ≡ none
      → All (StaysIn k) es
      → (run is_mark es (attach_client (new_attached k tab token) true s).0).done ≡ true
      → Flushed k notice
          (output_of es)
          (step is_mark
            (pump_finished k notice)
            (run is_mark es (attach_client (new_attached k tab token) true s).0)).clients
  unfolding step
  pump_finished-Flushed k tab token es s notice none_yet st is_done =
      let picture = tagged true (scrollback_message (snapshot s.term)) in
      let h = attach_client-Hears is_mark k tab token es s none_yet st in
      let c = h.client in
      let exit_notice : OutFrame = record { text = true; bytes = notice } in
      let same = overflow-pump_done exit_notice c in
      rw is_done (record {
        client = pump_done exit_notice c;
        found =
            find-update_client k (pump_done exit_notice) _ c (key-pump_done exit_notice c) h.found;
        before = stream c.wire ++ outputs (stream c.queue.out);
        ends = λ o. wire-pump_done notice c (h.pumping (sym same ∙ o));
        whole = λ o.
            outputs_flushed (stream c.wire) (stream c.queue.out)
            ∙ ap outputs (h.complete (sym same ∙ o))
            ∙ outputs-append picture (heard k es)
            ∙ ap (λ xs. xs ++ outputs (heard k es))
                (outputs_of_text (scrollback_message (snapshot s.term)))
            ∙ outputs-heard k es;
      })
