-- ===== src/Connection/Disconnect.antt =====
-- What a program is told when its connection closes (loudmouth/lm-connection.c).
use loudmouth.Base.{
  ℕ, ◌+◌, ◌≡◌, ◌⊎◌, Bool, true, false, List, [], ◌∷◌, ◌++◌, some, arith, codes, ltb, if◌then◌else◌,
  inl, inr, suc,
}
use loudmouth.Node.{get_attribute}
use loudmouth.Message.{Message}
use loudmouth.Connection.Link.{
  closed, opened, state_number, Reason, Link, Effect, signals_disconnect, when, is_open,
  stop_keep_alive, start_keep_alive, set_keep_alive_rate, do_close, close_with, ping_timed_out,
  socket_closed_cb, close, open_link, stream_error, possibly_register_starttls, stream_version,
  call_open_cb, stream_received,
}
use loudmouth.Connection.Closing.{
  Call, opens, closes, pings_out, socket_closes, sets_rate, receives_stream, receives_error, call,
}

-- How often the program is told that the connection is gone.
pub disconnects : List Effect → ℕ
disconnects [] = 0
disconnects (signals_disconnect reason ∷ es) = suc (disconnects es)
disconnects (_ ∷ es) = disconnects es

disconnects-append :
    (es fs : List Effect) → disconnects (es ++ fs) ≡ disconnects es + disconnects fs
unfolding disconnects
disconnects-append [] fs = omega arith
disconnects-append (signals_disconnect reason ∷ es) fs = omega (arith, disconnects-append es fs)
disconnects-append (_ ∷ es) fs = disconnects-append es fs

-- Told once, and closed, or not told.
abbrev pub TellsClosed : Link × List Effect → Type 0
TellsClosed (c, es) = (disconnects es ≡ 0) ⊎ ((disconnects es ≡ 1) × (c.state ≡ closed))

do_close_silent : (c : Link) → disconnects (do_close c).1 ≡ 0
unfolding do_close stop_keep_alive disconnects
do_close_silent c = ground arith

do_close-closed : (c : Link) → (do_close c).0.state ≡ closed
unfolding do_close stop_keep_alive
do_close-closed c = ground arith

signal-TellsClosed :
    (c : Link) (es : List Effect) (told : Bool) (reason : Reason)
    → disconnects es ≡ 0
    → c.state ≡ closed
    → TellsClosed (c, es ++ when told (signals_disconnect reason))
unfolding disconnects
signal-TellsClosed c es true reason h k =
    inr (omega (arith, disconnects-append es (signals_disconnect reason ∷ []), h), k)
signal-TellsClosed c es false reason h k = inl (omega (arith, disconnects-append es [], h))

close_with-TellsClosed : (reason : Reason) (c : Link) → TellsClosed (close_with reason c)
unfolding close_with
close_with-TellsClosed reason c =
    signal-TellsClosed (do_close c).0 (do_close c).1 (do_close c).0.disconnect_cb reason
      (do_close_silent c) (do_close-closed c)

set_keep_alive_rate_silent : (rate : ℕ) (c : Link) → disconnects (set_keep_alive_rate rate c).1 ≡ 0
unfolding set_keep_alive_rate stop_keep_alive start_keep_alive is_open disconnects
set_keep_alive_rate_silent rate c = ground arith

stream_version_silent :
    (use_starttls : Bool) (m : Message) (c : Link)
    → disconnects (stream_version use_starttls m c).1 ≡ 0
unfolding stream_version possibly_register_starttls disconnects
stream_version_silent use_starttls m c = ground arith

start_keep_alive_silent : (c : Link) → disconnects (start_keep_alive c).1 ≡ 0
unfolding start_keep_alive disconnects
start_keep_alive_silent c = ground arith

call_open_cb_silent : (c : Link) → disconnects (call_open_cb c).1 ≡ 0
unfolding call_open_cb disconnects
call_open_cb_silent c = ground arith

three_silent :
    (es fs gs : List Effect)
    → disconnects es ≡ 0
    → disconnects fs ≡ 0
    → disconnects gs ≡ 0
    → disconnects (es ++ (fs ++ gs)) ≡ 0
three_silent es fs gs h k l =
    omega (arith, disconnects-append es (fs ++ gs), disconnects-append fs gs, h, k, l)

stream_received_silent :
    (use_starttls : Bool) (m : Message) (c : Link)
    → disconnects (stream_received use_starttls m c).1 ≡ 0
unfolding stream_received
stream_received_silent use_starttls m c =
    let named = record c { stream_id = get_attribute m.node (some (codes "id")) } in
    let versioned = (stream_version use_starttls m named).0 in
    let up =
      if ltb (state_number versioned.state) 2
      then record versioned { state = opened }
      else versioned in
    three_silent (stream_version use_starttls m named).1 (start_keep_alive up).1
      (call_open_cb (start_keep_alive up).0).1 (stream_version_silent use_starttls m named)
      (start_keep_alive_silent up) (call_open_cb_silent (start_keep_alive up).0)

close-TellsClosed :
    (written : Bool) (c : Link) → TellsClosed ((close written c).0, (close written c).1)
unfolding close disconnects
close-TellsClosed written c = ground (arith, close_with-TellsClosed Reason.ok c)

open_link_silent : (func created : Bool) (c : Link) → disconnects (open_link func created c).1 ≡ 0
unfolding open_link disconnects
open_link_silent func created c = ground arith

stream_error-TellsClosed : (m : Message) (c : Link) → TellsClosed (stream_error m c)
unfolding stream_error disconnects
stream_error-TellsClosed m c = ground (
  arith,
  close_with-TellsClosed Reason.error
      (record c { stream_id = get_attribute m.node (some (codes "id")) }),
)

-- An opening, a closing, a stream, a stream error, a time-out of the pings, a closing by the socket
-- or a change of the ping rate each tells the program at most once that the connection is gone, and
-- only if the connection is then closed.
pub call-TellsClosed : (c : Link) (x : Call) → TellsClosed (call c x)
unfolding call ping_timed_out socket_closed_cb
call-TellsClosed c (opens func created) = inl (open_link_silent func created c)
call-TellsClosed c (closes written) = close-TellsClosed written c
call-TellsClosed c pings_out = close_with-TellsClosed Reason.ping_time_out c
call-TellsClosed c (socket_closes reason) = close_with-TellsClosed (Reason.socket_reason reason) c
call-TellsClosed c (sets_rate rate) = inl (set_keep_alive_rate_silent rate c)
call-TellsClosed c (receives_stream use_starttls m) = inl (stream_received_silent use_starttls m c)
call-TellsClosed c (receives_error m) = stream_error-TellsClosed m c
