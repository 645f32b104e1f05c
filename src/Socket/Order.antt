-- ===== src/Socket/Order.antt =====
-- The order in which a socket tries the addresses of a server: loudmouth/lm-old-socket.c.
use loudmouth.Base.{
  ◌%◌, ℕ, zero, suc, ◌<◌, ◌≡◌, refl, ap, ◌∙◌, Bool, true, false, List, [], ◌∷◌, map, Option, none,
  some, if◌then◌else◌, arith, ◌==◌,
}
use loudmouth.Resolver.{Addrinfo, Resolver, next_inet, results_get_next}
use loudmouth.Resolver.Results.{inet_of}
use loudmouth.Proxy.{Proxy}
use loudmouth.Socket.{Socket, ConnectData, Effect, tries, destroy_if, watch_connect}
use loudmouth.Socket.Silence.{
  all_of, IsOpenKind, after_silent, destroy_if-IsSilent, close_channel_if-IsSilent, after-ran_out,
}
use loudmouth.Socket.Attempts.{left, next_address-shorter}
use loudmouth.Socket.Connect.{
  Outcome, refuses, close_channel_if, ref, go_on, next_address, failed_with_error, attempt,
  start_connect, default_port, port_of, do_connect,
}

-- The addresses and ports that `connect` is called for.
abbrev pub tried_by : Effect → List (Addrinfo × ℕ)
tried_by (tries addr port) = (addr, port) ∷ []
tried_by _ = []

abbrev pub tried : List Effect → List (Addrinfo × ℕ)
tried = all_of tried_by

tried_by-IsOpenKind : IsOpenKind tried_by
tried_by-IsOpenKind = (λ w. refl, λ fd. refl, refl, refl, refl)

-- The IPv4 addresses that are left.
abbrev pub inet_left : Option Resolver → List Addrinfo
inet_left none = []
inet_left (some resolver) = inet_of resolver.current_result

-- The port to connect to, by the proxy and the port of the socket: what 16 bits keep of it.
abbrev pub destination : Option Proxy → ℕ → ℕ
destination none port = if port == 0 then 5222 else port % 65536
destination (some proxy) port = proxy.port % 65536

-- Every attempt gets a descriptor, and is refused.
abbrev pub AllRefuse : (ℕ → Outcome) → Type 0
AllRefuse outcome = (n : ℕ) → (fd : ℕ) × (outcome n ≡ refuses fd)

abbrev cons_if : Option Addrinfo → List Addrinfo → List Addrinfo
cons_if none xs = []
cons_if (some a) xs = a ∷ xs

inet_of-next :
    (xs : List Addrinfo) → cons_if (next_inet xs).0 (inet_of (next_inet xs).1) ≡ inet_of xs
unfolding next_inet
inet_of-next [] = refl
inet_of-next (x ∷ xs) = ground (arith, inet_of-next xs)

inet_left-next :
    (r : Option Resolver) → cons_if (next_address r).0 (inet_left (next_address r).1) ≡ inet_left r
unfolding next_address results_get_next
inet_left-next none = refl
inet_left-next (some resolver) = inet_of-next resolver.current_result

-- Addresses with a port.
abbrev pub with_port : ℕ → List Addrinfo → List (Addrinfo × ℕ)
with_port port = map (λ a. (a, port))

-- An address is tried, then those that are left.
abbrev TriesAll : (Socket → ConnectData → Addrinfo → Socket × List Effect × Bool) → Socket → Type 0
TriesAll retry socket =
    (d : ConnectData) (a : Addrinfo)
    → tried (retry socket d a).1
      ≡ with_port (destination socket.proxy socket.port) (a ∷ inet_left socket.resolver)

go_on_tries :
    (closes : Bool) (retry : Socket → ConnectData → Addrinfo → Socket × List Effect × Bool)
    (socket : Socket) (connect_data : ConnectData) (addr : Option Addrinfo)
    → ((a : Addrinfo) → addr ≡ some a → TriesAll retry socket)
    → tried (go_on closes retry socket connect_data addr).1
      ≡ with_port (destination socket.proxy socket.port) (cons_if addr (inet_left socket.resolver))
unfolding go_on
go_on_tries closes retry socket connect_data none h =
    after-ran_out tried_by tried_by-IsOpenKind closes socket
go_on_tries closes retry socket connect_data (some a) h = h a refl connect_data a

failed_with_error_tries :
    (closes : Bool) (retry : Socket → ConnectData → Addrinfo → Socket × List Effect × Bool)
    (socket : Socket) (connect_data : ConnectData)
    → ((s : Socket) → left s.resolver < left socket.resolver → TriesAll retry s)
    → tried (failed_with_error closes retry socket connect_data).1
      ≡ with_port (destination socket.proxy socket.port) (inet_left socket.resolver)
unfolding failed_with_error ref
failed_with_error_tries closes retry socket connect_data h =
    let (addr, resolver) = next_address socket.resolver in
    let data_1 = record connect_data { current_addr = addr } in
    let socket_1 = ref socket in
    let socket_2 = record socket_1 {
      resolver = resolver;
      has_watch_connect = false;
      connect_data = some data_1;
    } in
    let (_, effects, _) = go_on closes retry socket_2 data_1 addr in
    let port = destination socket.proxy socket.port in
    let later =
      go_on_tries closes retry socket_2 data_1 addr
        (λ a e. h socket_2 (next_address-shorter socket.resolver a e)) in
    after_silent tried_by (destroy_if socket.has_watch_connect watch_connect) _ _
      (destroy_if-IsSilent tried_by tried_by-IsOpenKind socket.has_watch_connect watch_connect)
      (after_silent tried_by (close_channel_if connect_data.io_channel) effects _
        (close_channel_if-IsSilent tried_by tried_by-IsOpenKind connect_data.io_channel)
        (later ∙ ap (with_port port) (inet_left-next socket.resolver)))

default_port-port_of :
    (socket : Socket) → port_of (default_port socket) ≡ destination socket.proxy socket.port
unfolding default_port
default_port-port_of socket = ground arith

default_port-destination :
    (socket : Socket)
    → destination (default_port socket).proxy (default_port socket).port
      ≡ destination socket.proxy socket.port
unfolding default_port
default_port-destination socket = ground arith

default_port-resolver : (socket : Socket) → (default_port socket).resolver ≡ socket.resolver
unfolding default_port
default_port-resolver socket = ground arith

attempt_tries :
    (failed : Socket → ConnectData → Socket × List Effect × Bool) (socket : Socket)
    (connect_data : ConnectData) (addr : Addrinfo) (o : Outcome) (fd : ℕ)
    (later : List (Addrinfo × ℕ))
    → o ≡ refuses fd
    → ((s : Socket) (d : ConnectData)
        → s.resolver ≡ socket.resolver
        → s.proxy ≡ socket.proxy
        → s.port ≡ socket.port
        → tried (failed s d).1 ≡ later)
    → tried (attempt failed socket connect_data addr o).1 ≡ (addr, port_of socket) ∷ later
unfolding attempt start_connect
attempt_tries failed socket connect_data addr o fd later e h =
    let made = record connect_data { fd = some fd; io_channel = some fd } in
    let watching = record socket { has_watch_connect = true; connect_data = some made } in
    rw e (ap (λ ts. (addr, port_of socket) ∷ ts) (h watching made refl refl refl))

same_destination :
    {p q : Option Proxy} {m n : ℕ} {r t : Option Resolver}
    → r ≡ t
    → p ≡ q
    → m ≡ n
    → with_port (destination p m) (inet_left r) ≡ with_port (destination q n) (inet_left t)
same_destination {q} {m} {n} {r} er ep em =
    ap (λ x. with_port (destination x m) (inet_left r)) ep
    ∙ ap (λ x. with_port (destination q x) (inet_left r)) em
    ∙ ap (λ x. with_port (destination q n) (inet_left x)) er

-- If every address refuses, connect is called for the address at hand and then for each IPv4 address
-- that is left, in their order, once each, with the proxy's port or the socket's, 5222 if that is
-- zero, both modulo 2 to the 16.
pub do_connect-tried :
    (closes : Bool) (outcome : ℕ → Outcome) (fuel : ℕ) (socket : Socket)
    (connect_data : ConnectData) (addr : Addrinfo)
    → AllRefuse outcome
    → left socket.resolver < fuel
    → tried (do_connect closes outcome fuel socket connect_data addr).1
      ≡ with_port (destination socket.proxy socket.port) (addr ∷ inet_left socket.resolver)
unfolding do_connect
do_connect-tried closes outcome zero socket connect_data addr r l = absurd (omega arith)
do_connect-tried closes outcome (suc fuel) socket connect_data addr r l =
    let ready = default_port socket in
    let port = destination socket.proxy socket.port in
    let (fd, e) = r fuel in
    attempt_tries (failed_with_error closes (do_connect closes outcome fuel)) ready connect_data
      addr (outcome fuel) fd (with_port port (inet_left socket.resolver)) e
      (λ s d er ep em.
        failed_with_error_tries closes (do_connect closes outcome fuel) s d (λ s_1 less d_1 a.
          let same = ap left (er ∙ default_port-resolver socket) in
          do_connect-tried closes outcome fuel s_1 d_1 a r (omega (arith, less, same, l)))
        ∙ same_destination (er ∙ default_port-resolver socket) ep em
        ∙ ap (λ p. with_port p (inet_left socket.resolver)) (default_port-destination socket))
    ∙ ap (λ p. (addr, p) ∷ with_port port (inet_left socket.resolver)) (default_port-port_of socket)
