-- ===== src/Connection/Closing.antt =====
-- What is left when a connection closes (loudmouth/lm-connection.c).
use loudmouth.Base.{
  ℕ, ◌≡◌, refl, sym, ap, ◌∙◌, Bool, false, List, [], ◌∷◌, ◌++◌, some, arith, codes, ltb,
  if◌then◌else◌, subst,
}
use loudmouth.Node.{get_attribute}
use loudmouth.Message.{Message}
use loudmouth.Connection.Link.{
  State, closed, opening, opened, state_number, Reason, Link, Effect, new, is_open, stop_keep_alive,
  start_keep_alive, set_keep_alive_rate, do_close, close_with, ping_timed_out, socket_closed_cb,
  close, open_link, stream_error, possibly_register_starttls, stream_version, call_open_cb,
  stream_received,
}

-- No pings and no SASL exchange where there is no stream.
abbrev pub IsQuiet : State → Bool → Bool → Type 0
IsQuiet closed ping sasl = (ping ≡ false) × (sasl ≡ false)
IsQuiet opening ping sasl = (ping ≡ false) × (sasl ≡ false)
IsQuiet _ ping sasl = Unit {0}

abbrev pub IsClean : Link → Type 0
IsClean c = IsQuiet c.state c.feature_ping c.sasl

pub data Call : Type 0 where
  opens : Bool → Bool → Call
  closes : Bool → Call
  pings_out : Call
  socket_closes : ℕ → Call
  sets_rate : ℕ → Call
  receives_stream : Bool → Message → Call
  receives_error : Message → Call

unfoldable pub call : Link → Call → Link × List Effect
call c (opens func created) = let (c', es, r) = open_link func created c in (c', es)
call c (closes written) = let (c', es, r) = close written c in (c', es)
call c pings_out = ping_timed_out c
call c (socket_closes reason) = socket_closed_cb reason c
call c (sets_rate rate) = set_keep_alive_rate rate c
call c (receives_stream use_starttls m) = stream_received use_starttls m c
call c (receives_error m) = stream_error m c

unfoldable pub calls : Link → List Call → Link × List Effect
unfolding call
calls c [] = (c, [])
calls c (x ∷ xs) = let (c', now) = call c x in let (c'', later) = calls c' xs in (c'', now ++ later)

close_with-IsClean : (reason : Reason) (c : Link) → IsClean c → IsClean (close_with reason c).0
unfolding close_with do_close stop_keep_alive is_open state_number
close_with-IsClean reason c h = ground (arith, h)

state-call_open_cb : (c : Link) → (call_open_cb c).0.state ≡ c.state
unfolding call_open_cb
state-call_open_cb c = ground arith

state-stream_version :
    (use_starttls : Bool) (m : Message) (c : Link)
    → (stream_version use_starttls m c).0.state ≡ c.state
unfolding stream_version possibly_register_starttls
state-stream_version use_starttls m c = ground arith

up_state :
    (c : Link)
    → (if ltb (state_number c.state) 2 then record c { state = opened } else c).state
      ≡ (if ltb (state_number c.state) 2 then opened else c.state)
up_state c = ground arith

state-stream_received :
    (use_starttls : Bool) (m : Message) (c : Link)
    → (stream_received use_starttls m c).0.state
      ≡ (if ltb (state_number c.state) 2 then opened else c.state)
unfolding stream_received start_keep_alive
state-stream_received use_starttls m c =
    let named = record c { stream_id = get_attribute m.node (some (codes "id")) } in
    let versioned = (stream_version use_starttls m named).0 in
    state-call_open_cb _
    ∙ up_state versioned
    ∙ ap (λ s. if ltb (state_number s) 2 then opened else s)
        (state-stream_version use_starttls m named)

IsQuiet-up :
    (s : State) (ping sasl : Bool)
    → IsQuiet (if ltb (state_number s) 2 then opened else s) ping sasl
unfolding state_number
IsQuiet-up closed ping sasl = tt
IsQuiet-up _ ping sasl = tt

stream_received-IsClean :
    (use_starttls : Bool) (m : Message) (c : Link) → IsClean (stream_received use_starttls m c).0
stream_received-IsClean use_starttls m c =
    let c' = (stream_received use_starttls m c).0 in
    subst (λ s. IsQuiet s c'.feature_ping c'.sasl) (sym (state-stream_received use_starttls m c))
      (IsQuiet-up c.state c'.feature_ping c'.sasl)

stream_error-IsClean : (m : Message) (c : Link) → IsClean c → IsClean (stream_error m c).0
unfolding stream_error
stream_error-IsClean m c h = ground (
  arith,
  h,
  close_with-IsClean Reason.error
      (record c { stream_id = get_attribute m.node (some (codes "id")) }) h,
)

call-IsClean : (c : Link) (x : Call) → IsClean c → IsClean (call c x).0
unfolding call open_link close ping_timed_out socket_closed_cb set_keep_alive_rate is_open
    state_number stop_keep_alive start_keep_alive
call-IsClean c (opens func created) h = ground (arith, h)
call-IsClean c (closes written) h = ground (arith, h, close_with-IsClean Reason.ok c h)
call-IsClean c pings_out h = close_with-IsClean Reason.ping_time_out c h
call-IsClean c (socket_closes reason) h = close_with-IsClean (Reason.socket_reason reason) c h
call-IsClean c (sets_rate rate) h = ground (arith, h)
call-IsClean c (receives_stream use_starttls m) h = stream_received-IsClean use_starttls m c
call-IsClean c (receives_error m) h = stream_error-IsClean m c h

calls-IsClean_lem : (c : Link) (xs : List Call) → IsClean c → IsClean (calls c xs).0
unfolding calls
calls-IsClean_lem c [] h = h
calls-IsClean_lem c (x ∷ xs) h = calls-IsClean_lem (call c x).0 xs (call-IsClean c x h)

-- After any sequence of openings, closings, streams received, stream errors, time-outs of the pings,
-- closings by the socket and changes of the ping rate on a new connection, no pings are sent and no
-- SASL exchange is kept unless the connection is open.
pub calls-IsClean : (xs : List Call) → IsClean (calls new xs).0
unfolding new
calls-IsClean xs = calls-IsClean_lem new xs (refl, refl)
