-- ===== src/Socket/Drain.antt =====
-- The buffer of a socket's output and its watch: loudmouth/lm-old-socket.c.
use loudmouth.Base.{
  ℕ, suc, ◌≤◌, ◌<◌, ◌≡◌, refl, ap, ◌∙◌, subst, Bool, true, false, not, ◌&&◌, Bool-cases,
  Option-cases, List, [], ◌∷◌, map, Option, none, some, Text, length, length-drop, take, drop,
  get_elem?, if◌then◌else◌, arith, inl, inr,
}
use loudmouth.Socket.{
  Socket, Effect, tells_closed, watch_out, destroy_if, Channel, settle, do_write, erased, flushed,
  buffered_write_cb,
}
use loudmouth.Socket.Output.{Event, writes, ready, Output, step, run, pending_of}

-- Without a buffer there is neither a watch for output nor a source; a buffer is never empty, has its
-- watch, and its source exactly until a write has failed.
abbrev pub BufferMatches : Option Text → Bool → Bool → Bool → Type 0
BufferMatches none has_watch has_source failed =
    (has_watch ≡ false) × (has_source ≡ false) × (failed ≡ false)
BufferMatches (some out_buf) has_watch has_source failed =
    (0 < length out_buf) × (has_watch ≡ true) × (has_source ≡ not failed)

abbrev pub IsBuffering : Bool → Output → Type 0
IsBuffering failed o = BufferMatches o.socket.out_buf o.socket.has_watch_out o.has_source failed

-- Whether the program is told that the socket is closed.
abbrev tells_any : List Effect → Bool
tells_any [] = false
tells_any (tells_closed reason ∷ es) = true
tells_any (_ ∷ es) = tells_any es

-- Whether a write fails while the socket is ready.
abbrev pub fails : Output → Event → Bool
fails o (writes buf channel) = false
fails o (ready channel) = o.has_source && tells_any (buffered_write_cb o.socket channel).1

-- Whether a write has failed after some steps.
abbrev pub has_failed : Bool → Output → List Event → Bool
has_failed failed o [] = failed
has_failed failed o (e ∷ es) = has_failed (if fails o e then true else failed) (step o e).0 es

-- The output after a call of `socket_buffered_write_cb`.
abbrev called : Socket × List Effect × Bool → Output
called (socket, effects, kept) = record { socket = socket; has_source = kept }

destroyed_quiet : (b : Bool) → tells_any (destroy_if b watch_out) ≡ false
destroyed_quiet true = refl
destroyed_quiet false = refl

erased-IsBuffering :
    (socket : Socket) (bytes rest : Text)
    → socket.has_watch_out ≡ true
    → IsBuffering false (called (erased socket bytes rest))
      × (tells_any (erased socket bytes rest).1 ≡ false)
      × (pending_of (erased socket bytes rest).0.out_buf ≡ rest)
unfolding erased
erased-IsBuffering socket bytes [] w =
    ((refl, refl, refl), destroyed_quiet socket.has_watch_out, refl)
erased-IsBuffering socket bytes (c ∷ rest) w = ((omega arith, w, refl), refl, refl)

at_buffer :
    (failed : Bool) (o : Output) {b : Option Text}
    → o.socket.out_buf ≡ b
    → IsBuffering failed o
    → BufferMatches b o.socket.has_watch_out o.has_source failed
at_buffer failed o e h = subst (λ b. BufferMatches b o.socket.has_watch_out o.has_source failed) e h

opened :
    (socket : Socket) (channel : Channel) (out_buf : Text)
    → socket.out_buf ≡ some out_buf
    → buffered_write_cb socket channel ≡ flushed socket out_buf (do_write socket channel out_buf)
unfolding buffered_write_cb
opened socket channel out_buf e =
    ap
      (λ (o : Option Text). (elim o as (λ _. Socket × List Effect × Bool) [
        | none ↦ (socket, [], false)
        | some b ↦ flushed socket b (do_write socket channel b)
      ]))
      e

-- The step where there is a source.
called-step :
    (o : Output) (channel : Channel)
    → o.has_source ≡ true
    → (step o (ready channel)).0 ≡ called (buffered_write_cb o.socket channel)
unfolding step
called-step o channel s = rw s refl

quiet-step :
    (o : Output) (channel : Channel) → o.has_source ≡ false → (step o (ready channel)).0 ≡ o
unfolding step
quiet-step o channel s = rw s refl

-- A channel that takes at least one byte of a text that has any, whichever way it is written.
abbrev pub Progresses : Channel → Type 0
Progresses channel =
    (t : Text)
    → 0 < length t
    → ((n : ℕ) × (settle (channel.write_chars t) ≡ some n) × (0 < n))
      × ((n : ℕ) × (channel.ssl_send t ≡ some n) × (0 < n))

do_write-Progresses :
    (socket : Socket) (channel : Channel) (t : Text)
    → Progresses channel
    → 0 < length t
    → (n : ℕ) × (do_write socket channel t ≡ some n) × (0 < n)
unfolding do_write
do_write-Progresses socket channel t p h =
    let ((n, e, more), (m, f, some_sent)) = p t h in
    elim (Bool-cases socket.ssl_started) [
      | inl ssl ↦ (m, rw ssl f, some_sent)
      | inr plain ↦ (n, rw plain e, more)
    ]

flushed_shorter :
    (socket : Socket) (out_buf : Text) (n : ℕ)
    → socket.has_watch_out ≡ true
    → 0 < n
    → 0 < length out_buf
    → IsBuffering false (called (flushed socket out_buf (some n)))
      × (length (pending_of (flushed socket out_buf (some n)).0.out_buf) < length out_buf)
unfolding flushed
flushed_shorter socket out_buf n w more h =
    let (matches, _, left) = erased-IsBuffering socket (take n out_buf) (drop n out_buf) w in
    let size = ap length left in (matches, omega (arith, size, length-drop n out_buf))

step_shorter :
    (o : Output) (channel : Channel) (k : ℕ)
    → IsBuffering false o
    → Progresses channel
    → length (pending_of o.socket.out_buf) ≤ suc k
    → IsBuffering false (step o (ready channel)).0
      × (length (pending_of (step o (ready channel)).0.socket.out_buf) ≤ k)
step_shorter o channel k h p l = elim (Option-cases o.socket.out_buf) [
  | inl e ↦
      let (w, s, f) = at_buffer false o e h in
      let size = ap (λ b. length (pending_of b)) e in
      rw (quiet-step o channel s) (h, omega (arith, size))
  | inr (out_buf, e) ↦
      let (some_left, w, s) = at_buffer false o e h in
      let (n, wrote, more) = do_write-Progresses o.socket channel out_buf p some_left in
      let same =
        called-step o channel s
        ∙ ap called (opened o.socket channel out_buf e ∙ ap (flushed o.socket out_buf) wrote) in
      let size = ap (λ b. length (pending_of b)) e in
      let (matches, shorter) = flushed_shorter o.socket out_buf n w more some_left in
      rw same (matches, omega (arith, shorter, size, l))
]

-- A buffer of at most as many bytes as the descriptor is ready for output is empty then, and its
-- watch gone, if no write has failed and the channel takes at least one byte each time.
pub drains :
    (o : Output) (channels : List Channel)
    → IsBuffering false o
    → ((i : ℕ) (channel : Channel) → get_elem? channels i ≡ some channel → Progresses channel)
    → length (pending_of o.socket.out_buf) ≤ length channels
    → let (last, _, _) = run o (map ready channels) in
      (last.socket.out_buf ≡ none) × (last.socket.has_watch_out ≡ false)
unfolding run
drains o [] h p l = elim (Option-cases o.socket.out_buf) [
  | inl e ↦ (e, (at_buffer false o e h).0)
  | inr (out_buf, e) ↦
      let some_left = (at_buffer false o e h).0 in
      let size = ap (λ b. length (pending_of b)) e in absurd (omega (arith, size, some_left, l))
]
drains o (channel ∷ channels) h p l =
    let (matches, shorter) = step_shorter o channel (length channels) h (p 0 channel refl) l in
    drains (step o (ready channel)).0 channels matches (λ i. p (suc i)) shorter
