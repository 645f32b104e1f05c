-- ===== src/Connection/Link.antt =====
-- How a connection opens, comes to a stream and closes (loudmouth/lm-connection.c), without
-- authentication.
use loudmouth.Base.{
  ℕ, Bool, true, false, not, ◌&&◌, List, [], ◌∷◌, ◌++◌, Option, none, some, Text, codes, ◌||◌,
  opt_str_eq, is_null, leb, ltb, if◌then◌else◌, ◌==◌,
}
use loudmouth.Node.{get_attribute, get_child}
use loudmouth.Message.{Message}

-- `LmConnectionState`
pub data State : Type 0 where
  closed opening opened authenticating authenticated : State

-- The numbers of the states.
unfoldable pub state_number : State → ℕ
state_number closed = 0
state_number opening = 1
state_number opened = 2
state_number authenticating = 3
state_number authenticated = 4

-- `LmDisconnectReason`, as far as it is used here.
pub data Reason : Type 0 where
  ok ping_time_out error : Reason
  socket_reason : ℕ → Reason

-- Of `struct _LmConnection`. A pointer to an object is only there or not; `open_cb` says if it has a
-- function, and `disconnect_cb` if there is one and it has a function.
pub record Link : Type 0 where
  pub state : State
  pub stream_id : Option Text
  pub use_sasl : Bool
  pub sasl : Bool
  pub ssl : Bool
  pub starttls_cb : Bool
  pub socket : Bool
  pub feature_ping : Bool
  pub keep_alive_rate : ℕ
  pub open_cb : Option Bool
  pub disconnect_cb : Bool

-- What it does to the other parts and to the program.
pub data Effect : Type 0 where
  starts_ping : ℕ → Effect
  stops_ping closes_socket flushes_socket attaches_queue detaches_queue : Effect
  makes_sasl frees_sasl registers_starttls frees_open_cb : Effect
  writes : Text → Effect
  calls_open_cb : Bool → Effect
  signals_disconnect : Reason → Effect

-- What `lm_connection_new` makes.
unfoldable pub new : Link
new = record {
  state = closed;
  stream_id = none;
  use_sasl = false;
  sasl = false;
  ssl = false;
  starttls_cb = false;
  socket = false;
  feature_ping = false;
  keep_alive_rate = 0;
  open_cb = none;
  disconnect_cb = false;
}

-- An effect under a condition.
abbrev pub when : Bool → Effect → List Effect
when b e = if b then e ∷ [] else []

-- `lm_connection_is_open`
unfoldable pub is_open : Link → Bool
unfolding state_number
is_open c = leb 2 (state_number c.state)

-- `connection_stop_keep_alive`
unfoldable pub stop_keep_alive : Link → Link × List Effect
stop_keep_alive c = (record c { feature_ping = false }, when c.feature_ping stops_ping)

-- `connection_start_keep_alive`
unfoldable pub start_keep_alive : Link → Link × List Effect
start_keep_alive c = (
  record c { feature_ping = true },
  when c.feature_ping stops_ping ++ starts_ping c.keep_alive_rate ∷ [],
)

-- `lm_connection_set_keep_alive_rate`
unfoldable pub set_keep_alive_rate : ℕ → Link → Link × List Effect
unfolding stop_keep_alive start_keep_alive is_open
set_keep_alive_rate rate c =
    let (stopped, before) = stop_keep_alive c in
    let (started, after) = start_keep_alive (record stopped { keep_alive_rate = rate }) in
    if rate == 0
    then (stopped, before)
    else if is_open c
    then (started, before ++ after)
    else (record stopped { keep_alive_rate = rate }, before)

-- `connection_do_close`
unfoldable pub do_close : Link → Link × List Effect
unfolding stop_keep_alive is_open
do_close c =
    let (stopped, before) = stop_keep_alive c in
    let es = before ++ (when c.socket closes_socket ++ detaches_queue ∷ []) in
    if not (is_open c)
    then (record stopped { state = closed }, es)
    else (record stopped { state = closed; sasl = false }, es ++ when c.sasl frees_sasl)

-- `connection_signal_disconnect`
abbrev pub signal_disconnect : Link → Reason → List Effect
signal_disconnect c reason = when c.disconnect_cb (signals_disconnect reason)

-- `connection_do_close` and `connection_signal_disconnect`, one after the other.
unfoldable pub close_with : Reason → Link → Link × List Effect
unfolding do_close
close_with reason c = let (c', es) = do_close c in (c', es ++ signal_disconnect c' reason)

-- `connection_ping_timed_out`
unfoldable pub ping_timed_out : Link → Link × List Effect
unfolding close_with
ping_timed_out c = close_with ping_time_out c

-- `connection_socket_closed_cb`
unfoldable pub socket_closed_cb : ℕ → Link → Link × List Effect
unfolding close_with
socket_closed_cb reason c = close_with (socket_reason reason) c

-- `lm_connection_close`: `written` says if the closing tag could be written. The look-up of the
-- server's address, which is cancelled first, is no part of the state.
unfoldable pub close : Bool → Link → Link × List Effect × Bool
unfolding close_with is_open state_number
close written c =
    let (c', es) = close_with ok c in
    if state_number c.state == 0
    then (c, [], false)
    else if is_open c
    then (c', writes (codes "</stream:stream>") ∷ (flushes_socket ∷ es), written)
    else (c', es, true)

-- `connection_do_open`: `created` says if there is a socket.
unfoldable pub do_open : Bool → Link → Link × List Effect × Bool
unfolding is_open
do_open created c =
    if is_open c
    then (c, [], false)
    else if not created
    then (record c { socket = false }, [], false)
    else (record c { socket = true; state = opening }, attaches_queue ∷ [], true)

-- `lm_connection_open`: `func` says if there is a function.
unfoldable pub open_link : Bool → Bool → Link → Link × List Effect × Bool
unfolding do_open
open_link func created c = do_open created (record c { open_cb = some func })

-- `connection_stream_error`
unfoldable pub stream_error : Message → Link → Link × List Effect
unfolding close_with
stream_error m c =
    if not (is_null (get_child m.node (some (codes "conflict"))))
    then (c, [])
    else if not (is_null (get_child m.node (some (codes "xml-not-well-formed"))))
    then (c, [])
    else close_with error (record c { stream_id = get_attribute m.node (some (codes "id")) })

-- `connection_possibly_register_starttls_handler`: the socket says if it uses StartTLS.
unfoldable pub possibly_register_starttls : Bool → Link → Link × List Effect
possibly_register_starttls use_starttls c =
    let wanted = c.ssl && use_starttls && not c.starttls_cb in
    (record c { starttls_cb = c.starttls_cb || wanted }, when wanted registers_starttls)

-- The part of `connection_stream_received` that looks at the version.
unfoldable pub stream_version : Bool → Message → Link → Link × List Effect
unfolding possibly_register_starttls
stream_version use_starttls m c =
    let with_sasl = record c { use_sasl = true; sasl = true } in
    let (c', es) = possibly_register_starttls use_starttls with_sasl in
    if opt_str_eq (get_attribute m.node (some (codes "version"))) (codes "1.0")
    then (c', when (not c.sasl) makes_sasl ++ es)
    else (c, [])

-- The call of `open_cb` at its end.
unfoldable pub call_open_cb : Link → Link × List Effect
call_open_cb c = elim c.open_cb [
  | none ↦ (c, [])
  | some func ↦ (record c { open_cb = none }, when func (calls_open_cb true) ++ frees_open_cb ∷ [])
]

-- `connection_stream_received`
unfoldable pub stream_received : Bool → Message → Link → Link × List Effect
unfolding stream_version start_keep_alive call_open_cb state_number
stream_received use_starttls m c =
    let named = record c { stream_id = get_attribute m.node (some (codes "id")) } in
    let (versioned, first) = stream_version use_starttls m named in
    let up =
      if ltb (state_number versioned.state) 2
      then record versioned { state = opened }
      else versioned in
    let (alive, second) = start_keep_alive up in
    let (c', third) = call_open_cb alive in (c', first ++ (second ++ third))
