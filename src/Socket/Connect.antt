-- ===== src/Socket/Connect.antt =====
-- loudmouth/lm-old-socket.c: looking up the server and connecting to one of its addresses.
use loudmouth.Base.{
  ◌%◌, ℕ, zero, suc, ◌+◌, ◌-◌, Bool, true, false, List, [], ◌∷◌, ◌++◌, Option, none, some, ◌==◌,
  if◌then◌else◌,
}
use loudmouth.Resolver.{Addrinfo, Resolver, results_get_next}
use loudmouth.Proxy.{Proxy}
use loudmouth.Socket.{
  Socket, ConnectData, Effect, adds, Watch, tries, unrefs_resolver, frees, closes_fd,
  closes_channel, shuts_down, closes_ssl, tells_connected, watch_in, watch_err, watch_hup,
  watch_connect, watch_proxy, watch_out, destroy_if,
}

-- What becomes of an attempt: `getnameinfo` fails, there is no descriptor, or `connect` on a new one
-- succeeds, is in progress, or fails.
pub data Outcome : Type 0 where
  name_fails no_socket : Outcome
  connects in_progress refuses : ℕ → Outcome

-- `lm_old_socket_ref`
unfoldable pub ref : Socket → Socket
ref socket = record socket { ref_count = socket.ref_count + 1 }

-- `lm_old_socket_unref`
unfoldable pub unref : Socket → Socket × List Effect
unref socket = (
  record socket { ref_count = socket.ref_count - 1 },
  if socket.ref_count - 1 == 0 then frees ∷ [] else [],
)

-- What closing a descriptor's channel does, if there is one.
abbrev pub close_channel_if : Option ℕ → List Effect
close_channel_if none = []
close_channel_if (some fd) = closes_channel fd ∷ []

-- `_lm_ssl_close`, if there is SSL.
abbrev pub close_ssl_if : Option Bool → List Effect
close_ssl_if none = []
close_ssl_if (some _) = closes_ssl ∷ []

-- The part of `lm_old_socket_close` under `if (socket->io_channel)`.
unfoldable pub close_io : Socket → Option ℕ → Socket × List Effect
close_io socket none = (socket, [])
close_io socket (some fd) = (
  record socket {
    has_watch_in = false;
    has_watch_err = false;
    has_watch_hup = false;
    has_watch_out = false;
    io_channel = none;
    fd = none;
  },
  destroy_if socket.has_watch_in watch_in
      ++ (destroy_if socket.has_watch_err watch_err
          ++ (destroy_if socket.has_watch_hup watch_hup
              ++ (destroy_if socket.has_watch_out watch_out ++ closes_channel fd ∷ []))),
)

-- `lm_old_socket_close`
unfoldable pub close : Socket → Socket × List Effect
unfolding close_io
close socket =
    let quiet = record socket { has_watch_connect = false; connect_data = none } in
    let (closed, effects) = close_io quiet socket.io_channel in
    (
      closed,
      destroy_if socket.has_watch_connect watch_connect ++ (effects ++ close_ssl_if socket.ssl),
    )

-- What shutting down and closing the socket's descriptor does.
abbrev shut_down : Option ℕ → List Effect
shut_down none = []
shut_down (some fd) = shuts_down fd ∷ closes_fd fd ∷ []

-- `_lm_old_socket_ssl_init`, given whether `_lm_ssl_begin` succeeds.
unfoldable pub ssl_init : Bool → Socket → Bool → Socket × List Effect × Bool
ssl_init true socket delayed = (record socket { ssl_started = true }, [], true)
ssl_init false socket delayed =
    (socket, shut_down socket.fd ++ (if delayed then [] else tells_connected false ∷ []), false)

-- The last part of `_lm_old_socket_succeeded`.
unfoldable pub watch_input : Socket → Socket × List Effect
watch_input socket = (
  record socket { has_watch_in = true; has_watch_err = true; has_watch_hup = true },
  adds watch_in ∷ adds watch_err ∷ adds watch_hup ∷ tells_connected true ∷ [],
)

-- `_lm_old_socket_succeeded`
unfoldable pub succeeded : Bool → Socket → ConnectData → Socket × List Effect
unfolding ssl_init watch_input
succeeded ssl_begins socket connect_data =
    let quiet = record socket { has_watch_connect = false } in
    let unwatched = destroy_if socket.has_watch_connect watch_connect in
    let opened = record quiet {
      fd = connect_data.fd;
      io_channel = connect_data.io_channel;
      resolver = none;
      connect_data = none;
    } in
    let (secured, ssl_effects, success) = ssl_init ssl_begins opened false in
    let (watching, watch_effects) = watch_input opened in
    let (watching_ssl, ssl_watch_effects) = watch_input secured in
    if socket.cancel_open
    then (quiet, unwatched ++ tells_connected false ∷ [])
    else elim socket.ssl [
      | some false ↦
          if success
          then (watching_ssl, unwatched ++ unrefs_resolver ∷ ssl_watch_effects)
          else (secured, unwatched ++ unrefs_resolver ∷ ssl_effects)
      | _ ↦ (watching, unwatched ++ unrefs_resolver ∷ watch_effects)
    ]

-- `lm_resolver_results_get_next` on the socket's resolver, which gives `NULL` if there is none.
unfoldable pub next_address : Option Resolver → Option Addrinfo × Option Resolver
unfolding results_get_next
next_address none = (none, none)
next_address (some resolver) = let (addr, rest) = results_get_next resolver in (addr, some rest)

-- `if (socket->resolver) g_object_unref (socket->resolver)`, with the pointer kept.
abbrev pub unref_resolver_if : Option Resolver → List Effect
unref_resolver_if none = []
unref_resolver_if (some _) = unrefs_resolver ∷ []

-- `_lm_old_socket_failed_with_error` when there are no more addresses. `connect_func` may call
-- `lm_old_socket_close`, which it does or not.
unfoldable pub ran_out : Bool → Socket → Socket × List Effect × Bool
unfolding close unref
ran_out closes socket =
    let (closed, close_effects) = close socket in
    let (left, unref_effects) = unref closed in
    let (idle, idle_effects) = unref (record socket { connect_data = none }) in
    if closes
    then (left, tells_connected false ∷ close_effects ++ unref_effects, false)
    else (idle, tells_connected false ∷ unref_resolver_if socket.resolver ++ idle_effects, false)

-- `_lm_old_socket_failed_with_error` with the next address, if there is one.
unfoldable pub go_on :
    Bool
    → (Socket → ConnectData → Addrinfo → Socket × List Effect × Bool)
    → Socket
    → ConnectData
    → Option Addrinfo
    → Socket × List Effect × Bool
unfolding ran_out
go_on closes retry socket connect_data none = ran_out closes socket
go_on closes retry socket connect_data (some addr) = retry socket connect_data addr

-- `_lm_old_socket_failed_with_error`, given what tries an address: the result and what it does.
unfoldable pub failed_with_error :
    Bool
    → (Socket → ConnectData → Addrinfo → Socket × List Effect × Bool)
    → Socket
    → ConnectData
    → Socket × List Effect × Bool
unfolding next_address go_on ref
failed_with_error closes retry socket connect_data =
    let (addr, resolver) = next_address socket.resolver in
    let data_1 = record connect_data { current_addr = addr } in
    let socket_1 = ref socket in
    let socket_2 = record socket_1 {
      resolver = resolver;
      has_watch_connect = false;
      connect_data = some data_1;
    } in
    let (next, effects, result) = go_on closes retry socket_2 data_1 addr in
    (
      next,
      destroy_if socket.has_watch_connect watch_connect
          ++ (close_channel_if connect_data.io_channel ++ effects),
      result,
    )

-- The port to connect to: the 16 bits that `htons` takes of the proxy's, or the socket's.
abbrev pub port_of : Socket → ℕ
port_of socket = elim socket.proxy [ none ↦ socket.port | some proxy ↦ proxy.port ] % 65536

-- The source for a connection through a proxy or without one.
abbrev pub connect_watch : Option Proxy → Watch
connect_watch none = watch_connect
connect_watch (some _) = watch_proxy

-- `socket_do_connect` where there is a descriptor, up to `connect`.
unfoldable pub start_connect :
    Socket → ConnectData → Addrinfo → ℕ → Socket × ConnectData × List Effect
start_connect socket connect_data addr fd =
    let made = record connect_data { fd = some fd; io_channel = some fd } in
    (
      record socket { has_watch_connect = true; connect_data = some made },
      made,
      adds (connect_watch socket.proxy) ∷ tries addr (port_of socket) ∷ [],
    )

-- `if (socket->port == 0) socket->port = 5222`
unfoldable pub default_port : Socket → Socket
default_port socket = if socket.port == 0 then record socket { port = 5222 } else socket

-- `socket_do_connect` by what becomes of the attempt, given `_lm_old_socket_failed`.
unfoldable pub attempt :
    (Socket → ConnectData → Socket × List Effect × Bool)
    → Socket
    → ConnectData
    → Addrinfo
    → Outcome
    → Socket × List Effect × Bool
unfolding start_connect
attempt failed socket connect_data addr name_fails = failed socket connect_data
attempt failed socket connect_data addr no_socket = failed socket connect_data
attempt failed socket connect_data addr (connects fd) =
    let (watching, _, effects) = start_connect socket connect_data addr fd in
    (watching, effects, true)
attempt failed socket connect_data addr (in_progress fd) =
    let (watching, _, effects) = start_connect socket connect_data addr fd in
    (watching, effects, true)
attempt failed socket connect_data addr (refuses fd) =
    let (watching, made, effects) = start_connect socket connect_data addr fd in
    let (next, later, result) = failed watching made in
    (next, effects ++ closes_fd fd ∷ later, result)

-- The outcomes of the attempts are a function of the fuel that is left: each has one of its own.
module _ (closes : Bool) (outcome : ℕ → Outcome) where
  -- `socket_do_connect` on fuel, one more than the number of results that are left.
  unfoldable pub do_connect : ℕ → Socket → ConnectData → Addrinfo → Socket × List Effect × Bool
  unfolding default_port attempt failed_with_error
  do_connect zero socket connect_data addr = (socket, [], false)
  do_connect (suc fuel) socket connect_data addr =
      attempt (failed_with_error closes (do_connect fuel)) (default_port socket) connect_data addr
        (outcome fuel)
