-- ===== src/Socket/Output.antt =====
-- What a socket has written is what it was given, in order: loudmouth/lm-old-socket.c.
use mathlib.Core.List.{append-nil, append_assoc}
use loudmouth.Base.{
  ℕ, Bool, ◌≡◌, refl, sym, ap, ◌∙◌, true, Bool-cases, Option-cases, List, [], ◌∷◌, ◌++◌, Option,
  none, some, Text, length, take, drop, take-append-drop, take_all, ltb, if◌then◌else◌, arith, inl,
  inr,
}
use loudmouth.Socket.{
  Socket, Effect, sends, adds, watch_out, Channel, do_write, written, write, output_is_buffered,
  setup_output_buffer, erased, flushed, buffered_write_cb,
}

-- The bytes that wait.
abbrev pub pending_of : Option Text → Text
pending_of none = []
pending_of (some out_buf) = out_buf

-- The bytes that are sent.
abbrev pub sent_of : List Effect → Text
sent_of [] = []
sent_of (sends t ∷ es) = t ++ sent_of es
sent_of (_ ∷ es) = sent_of es

-- The bytes that a call of `lm_old_socket_write` takes, by its result.
abbrev pub taken_of : Text → Option ℕ → Text
taken_of buf none = []
taken_of buf (some _) = buf

-- What the program and the main loop do: a text is written, or the descriptor is ready for output.
pub data Event : Type 0 where
  writes : Text → Channel → Event
  ready : Channel → Event

-- A socket, and whether the main loop has a source for `socket_buffered_write_cb`: one that it
-- returns `FALSE` from is removed, whatever `watch_out` points to.
pub record Output : Type 0 where
  pub socket : Socket
  pub has_source : Bool

-- Whether there is a source after some effects.
abbrev pub added : Bool → List Effect → Bool
added has_source [] = has_source
added has_source (adds watch_out ∷ es) = added true es
added has_source (_ ∷ es) = added has_source es

-- A step: the socket, the bytes it takes and those it sends. Without a source nothing calls back.
-- `closed_func` does not close the socket.
unfoldable pub step : Output → Event → Output × Text × Text
step o (writes buf channel) =
    let (next, result, effects) = write o.socket channel buf in
    (
      record { socket = next; has_source = added o.has_source effects },
      taken_of buf result,
      sent_of effects,
    )
step o (ready channel) =
    let (next, effects, kept) = buffered_write_cb o.socket channel in
    if o.has_source
    then (record { socket = next; has_source = kept }, [], sent_of effects)
    else (o, [], [])

unfoldable pub run : Output → List Event → Output × Text × Text
unfolding step
run o [] = (o, [], [])
run o (e ∷ es) =
    let (next, taken, sent) = step o e in
    let (last, taken_later, sent_later) = run next es in
    (last, taken ++ taken_later, sent ++ sent_later)

-- What waited and what is taken is what is sent and what waits then.
abbrev Flows : Socket → Socket × Text × Text → Type 0
Flows socket (next, taken, sent) =
    pending_of socket.out_buf ++ taken ≡ sent ++ pending_of next.out_buf

take-drop : (n : ℕ) (t : Text) → t ≡ (take n t ++ []) ++ drop n t
take-drop n t =
    sym (take-append-drop n t) ∙ ap (λ front. front ++ drop n t) (sym (append-nil (take n t)))

written-Flows :
    (socket : Socket) (buf : Text) (n : Option ℕ)
    → socket.out_buf ≡ none
    → let (next, result, effects) = written socket buf n in
      Flows socket (next, taken_of buf result, sent_of effects)
unfolding written setup_output_buffer
written-Flows socket buf none e = rw e refl
written-Flows socket buf (some n) e = elim (Bool-cases (ltb n (length buf))) [
  | inl less ↦ rw (e, less) (take-drop n buf)
  | inr whole ↦
      let all : take n buf ≡ buf = take_all buf n (ground arith) in
      rw (e, whole, all) (sym (append-nil (buf ++ []) ∙ append-nil buf))
]

erased_flows :
    (socket : Socket) (bytes rest : Text)
    → let (next, effects, _) = erased socket bytes rest in
      bytes ++ rest ≡ sent_of effects ++ pending_of next.out_buf
unfolding erased
erased_flows socket bytes [] = ground (arith, append-nil bytes)
erased_flows socket bytes (c ∷ rest) = ap (λ t. t ++ c ∷ rest) (sym (append-nil bytes))

flushed-Flows :
    (socket : Socket) (out_buf : Text) (n : Option ℕ)
    → socket.out_buf ≡ some out_buf
    → let (next, effects, _) = flushed socket out_buf n in Flows socket (next, [], sent_of effects)
unfolding flushed
flushed-Flows socket out_buf none e = rw e (append-nil out_buf)
flushed-Flows socket out_buf (some n) e =
    ap (λ o. pending_of o ++ []) e
    ∙ append-nil out_buf
    ∙ sym (take-append-drop n out_buf)
    ∙ erased_flows socket (take n out_buf) (drop n out_buf)

write-Flows :
    (socket : Socket) (buf : Text) (channel : Channel)
    → let (next, result, effects) = write socket channel buf in
      Flows socket (next, taken_of buf result, sent_of effects)
unfolding write output_is_buffered
write-Flows socket buf channel = elim (Option-cases socket.out_buf) [
  | inl e ↦
      let plain = record socket { out_buf = none } in
      rw e (written-Flows plain buf (do_write plain channel buf) refl)
  | inr (out_buf, e) ↦ rw e refl
]

ready-Flows :
    (socket : Socket) (channel : Channel)
    → let (next, effects, _) = buffered_write_cb socket channel in
      Flows socket (next, [], sent_of effects)
unfolding buffered_write_cb
ready-Flows socket channel = elim (Option-cases socket.out_buf) [
  | inl e ↦ rw e refl
  | inr (out_buf, e) ↦
      let buffering = record socket { out_buf = some out_buf } in
      rw e (flushed-Flows buffering out_buf (do_write buffering channel out_buf) refl)
]

step-Flows :
    (o : Output) (e : Event) → Flows o.socket ((step o e).0.socket, (step o e).1, (step o e).2)
unfolding step
step-Flows o (writes buf channel) = write-Flows o.socket buf channel
step-Flows o (ready channel) = elim (Bool-cases o.has_source) [
  | inl live ↦ rw live (ready-Flows o.socket channel)
  | inr dead ↦ rw dead (append-nil (pending_of o.socket.out_buf))
]

-- Whatever is written, and however little the channel takes at a time, the bytes that waited and
-- those that calls of lm_old_socket_write take are, in order, those that are sent and those that
-- wait at last.
pub run_flows :
    (o : Output) (es : List Event)
    → let (last, taken, sent) = run o es in
      pending_of o.socket.out_buf ++ taken ≡ sent ++ pending_of last.socket.out_buf
unfolding run
run_flows o [] = append-nil (pending_of o.socket.out_buf)
run_flows o (e ∷ es) =
    let (next, taken, sent) = step o e in
    let (last, taken_later, sent_later) = run next es in
    sym (append_assoc (pending_of o.socket.out_buf) taken taken_later)
    ∙ ap (λ t. t ++ taken_later) (step-Flows o e)
    ∙ append_assoc sent (pending_of next.socket.out_buf) taken_later
    ∙ ap (λ t. sent ++ t) (run_flows next es)
    ∙ sym (append_assoc sent sent_later (pending_of last.socket.out_buf))
