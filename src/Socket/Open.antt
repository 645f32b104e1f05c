-- ===== src/Socket/Open.antt =====
-- loudmouth/lm-old-socket.c: making a socket, and what is called back while it connects.
use loudmouth.Base.{
  ℕ, suc, Bool, true, false, List, [], ◌∷◌, ◌++◌, Option, none, some, Text, codes, length,
}
use loudmouth.Resolver.{Result, Resolver, results_get_next, new_for_host, new_for_service}
use loudmouth.Proxy.{Proxy}
use loudmouth.Proxy as P
use loudmouth.Socket.{
  Socket, ConnectData, Effect, looks_up, unrefs_resolver, aborts, tells_connected,
}
use loudmouth.Socket.Connect.{Outcome, ref, unref, succeeded, failed_with_error, do_connect}

-- `lm_old_socket_create`: the socket, with all else zero, and the look-up that it starts.
unfoldable pub create : Option Text → Text → ℕ → Option Bool → Option Proxy → Socket × List Effect
unfolding new_for_host new_for_service P.ref
create server domain port ssl proxy = (
  record {
    domain = domain;
    server = server;
    port = port;
    ssl = ssl;
    ssl_started = false;
    proxy = elim proxy [ none ↦ none | some p ↦ some (P.ref p) ];
    io_channel = none;
    has_watch_in = false;
    has_watch_err = false;
    has_watch_hup = false;
    fd = some 0;
    has_watch_connect = false;
    cancel_open = false;
    has_watch_out = false;
    out_buf = none;
    connect_data = some (record { current_addr = none; fd = none; io_channel = none });
    ref_count = 1;
    resolver = some (elim server [
      | none ↦ new_for_service domain (codes "xmpp-client") (codes "tcp")
      | some name ↦ new_for_host name
    ]);
  },
  looks_up ∷ [],
)

-- The condition of `socket_connect_cb`: just `G_IO_ERR`, with whether the error says that connecting
-- is still in progress, or another.
pub data Condition : Type 0 where
  just_err : Bool → Condition
  otherwise : Condition

-- The data for connecting, as it has become.
abbrev pub data_of : ConnectData → Option ConnectData → ConnectData
data_of connect_data none = connect_data
data_of connect_data (some d) = d

-- `ssl_begins` is whether `_lm_ssl_begin` succeeds.
module _ (ssl_begins : Bool) where
  -- `socket_connect_cb` where it has come to `_lm_old_socket_succeeded`.
  unfoldable pub connected : Socket → ConnectData → Socket × List Effect × Bool
  unfolding succeeded unref
  connected socket connect_data =
      let (next, effects) = succeeded ssl_begins socket connect_data in
      let (left, unref_effects) = unref next in (left, effects ++ unref_effects, true)

  -- `socket_connect_cb` after the next address has been tried.
  unfoldable pub retried : ConnectData → Socket × List Effect × Bool → Socket × List Effect × Bool
  unfolding connected unref
  retried connect_data (socket, effects, false) =
      let (left, unref_effects) = unref (record socket { has_watch_connect = false }) in
      (left, effects ++ unref_effects, false)
  retried connect_data (socket, effects, true) =
      let (next, later, result) = connected socket (data_of connect_data socket.connect_data) in
      (next, effects ++ later, result)

-- `closes` is whether `connect_func` closes the socket when it is told of a failure.
module _ (closes : Bool) (outcome : ℕ → Outcome) (ssl_begins : Bool) where
  -- `socket_connect_cb` with fuel for the addresses that are left: what it does, and if its source is
  -- kept.
  unfoldable pub connect_cb : ℕ → Condition → Socket → ConnectData → Socket × List Effect × Bool
  unfolding ref retried connected failed_with_error do_connect
  connect_cb fuel (just_err false) socket connect_data =
      retried ssl_begins connect_data
        (failed_with_error closes (do_connect closes outcome fuel) (ref socket) connect_data)
  connect_cb fuel (just_err true) socket connect_data =
      connected ssl_begins (ref socket) connect_data
  connect_cb fuel otherwise socket connect_data = connected ssl_begins (ref socket) connect_data

-- `old_socket_resolver_host_cb`. The resolver is the socket's. The log message for no address is an
-- error, with which GLib aborts.
unfoldable pub host_cb :
    Bool → (ℕ → Outcome) → Result → Resolver → Socket → ConnectData → Socket × List Effect
unfolding results_get_next do_connect
host_cb closes outcome Result.ok resolver socket connect_data =
    let (addr, rest) = results_get_next resolver in
    let data_1 = record connect_data { current_addr = addr } in
    let socket_1 = record socket { resolver = some rest; connect_data = some data_1 } in
    elim addr [
      | none ↦ (socket_1, aborts ∷ [])
      | some a ↦
          let (next, effects, _) =
            do_connect closes outcome (suc (length rest.current_result)) socket_1 data_1 a in
          (next, effects)
    ]
host_cb closes outcome _ resolver socket connect_data =
    (record socket { connect_data = none }, tells_connected false ∷ [])

-- The name that is looked up: the proxy's server if there is a proxy, else the server, else the
-- domain.
abbrev pub remote_addr : Option Proxy → Option Text → Text → Option Text
remote_addr (some proxy) server domain = proxy.server
remote_addr none (some server) domain = some server
remote_addr none none domain = some domain

-- `lm_resolver_new_for_host` for a name that may be `NULL`.
abbrev pub resolver_for : Option Text → Option Resolver
resolver_for none = none
resolver_for (some name) = some (new_for_host name)

-- `old_socket_resolver_srv_cb`
unfoldable pub srv_cb : Result → Resolver → Socket → Socket × List Effect
unfolding new_for_host
srv_cb result resolver socket =
    let (server, port) = elim result as (λ _. Option Text × ℕ) [
      | Result.ok ↦ (resolver.host, resolver.port)
      | _ ↦ (some socket.domain, socket.port)
    ] in
    (
      record socket {
        server = server;
        port = port;
        resolver = resolver_for (remote_addr socket.proxy server socket.domain);
      },
      unrefs_resolver ∷ looks_up ∷ [],
    )
