-- ===== src/Socket/Attempts.antt =====
-- Connecting to the addresses of a server, one after the other: loudmouth/lm-old-socket.c.
use loudmouth.Base.{
  ℕ, zero, suc, ◌<◌, ◌≡◌, refl, ap, Bool, true, false, Bool-cases, List, [], ◌∷◌, Option, none,
  some, length, if◌then◌else◌, arith, inl, inr, ◌==◌,
}
use loudmouth.Resolver.{Addrinfo, Resolver, next_inet, results_get_next}
use loudmouth.Socket.{Socket, ConnectData, Effect, tells_connected, destroy_if, watch_connect}
use loudmouth.Socket.Silence.{
  all_of, IsOpenKind, after_silent, destroy_if-IsSilent, close_channel_if-IsSilent, after-ran_out,
}
use loudmouth.Socket.Connect.{
  Outcome, name_fails, no_socket, connects, in_progress, refuses, close_channel_if, ref, ran_out,
  go_on, next_address, failed_with_error, attempt, start_connect, default_port, do_connect,
}

-- What the program is told by `connect_func`.
abbrev pub told_by : Effect → List Bool
told_by (tells_connected success) = success ∷ []
told_by _ = []

abbrev pub told : List Effect → List Bool
told = all_of told_by

pub told_by-IsOpenKind : IsOpenKind told_by
told_by-IsOpenKind = (λ w. refl, λ fd. refl, refl, refl, refl)

-- Either an attempt goes on and nothing is told, or failure is told, once.
abbrev pub ReportsOnce : Socket × List Effect × Bool → Type 0
ReportsOnce (socket, effects, result) = told effects ≡ (if result then [] else false ∷ [])

ran_out-result : (closes : Bool) (socket : Socket) → (ran_out closes socket).2 ≡ false
unfolding ran_out
ran_out-result true socket = refl
ran_out-result false socket = refl

-- The address that is next takes at least one result off the list.
next_inet-shorter :
    (xs : List Addrinfo) (a : Addrinfo)
    → (next_inet xs).0 ≡ some a
    → length (next_inet xs).1 < length xs
unfolding next_inet
next_inet-shorter [] a h = cc
next_inet-shorter (x ∷ xs) a h = ground (arith, next_inet-shorter xs a)

-- How many results are left.
abbrev pub left : Option Resolver → ℕ
left none = 0
left (some resolver) = length resolver.current_result

pub next_address-shorter :
    (r : Option Resolver) (a : Addrinfo)
    → (next_address r).0 ≡ some a
    → left (next_address r).1 < left r
unfolding next_address results_get_next
next_address-shorter none a h = cc
next_address-shorter (some resolver) a h = next_inet-shorter resolver.current_result a h

go_on-ReportsOnce :
    (closes : Bool) (retry : Socket → ConnectData → Addrinfo → Socket × List Effect × Bool)
    (socket : Socket) (connect_data : ConnectData) (addr : Option Addrinfo)
    → ((a : Addrinfo) → addr ≡ some a → ReportsOnce (retry socket connect_data a))
    → ReportsOnce (go_on closes retry socket connect_data addr)
unfolding go_on
go_on-ReportsOnce closes retry socket connect_data none h =
    rw (after-ran_out told_by told_by-IsOpenKind closes socket, ran_out-result closes socket) refl
go_on-ReportsOnce closes retry socket connect_data (some a) h = h a refl

pub failed_with_error-ReportsOnce :
    (closes : Bool) (retry : Socket → ConnectData → Addrinfo → Socket × List Effect × Bool)
    (socket : Socket) (connect_data : ConnectData)
    → ((s : Socket) (d : ConnectData) (a : Addrinfo)
        → left s.resolver < left socket.resolver
        → ReportsOnce (retry s d a))
    → ReportsOnce (failed_with_error closes retry socket connect_data)
unfolding failed_with_error ref
failed_with_error-ReportsOnce closes retry socket connect_data h =
    let (addr, resolver) = next_address socket.resolver in
    let data_1 = record connect_data { current_addr = addr } in
    let socket_1 = ref socket in
    let socket_2 = record socket_1 {
      resolver = resolver;
      has_watch_connect = false;
      connect_data = some data_1;
    } in
    let (_, effects, result) = go_on closes retry socket_2 data_1 addr in
    let report = if result then [] else false ∷ [] in
    after_silent told_by (destroy_if socket.has_watch_connect watch_connect) _ report
      (destroy_if-IsSilent told_by told_by-IsOpenKind socket.has_watch_connect watch_connect)
      (after_silent told_by (close_channel_if connect_data.io_channel) effects report
        (close_channel_if-IsSilent told_by told_by-IsOpenKind connect_data.io_channel)
        (go_on-ReportsOnce closes retry socket_2 data_1 addr
          (λ a e. h socket_2 data_1 a (next_address-shorter socket.resolver a e))))

attempt-ReportsOnce :
    (failed : Socket → ConnectData → Socket × List Effect × Bool) (socket : Socket)
    (connect_data : ConnectData) (addr : Addrinfo) (o : Outcome)
    → ((s : Socket) (d : ConnectData) → s.resolver ≡ socket.resolver → ReportsOnce (failed s d))
    → ReportsOnce (attempt failed socket connect_data addr o)
unfolding attempt start_connect
attempt-ReportsOnce failed socket connect_data addr name_fails h = h socket connect_data refl
attempt-ReportsOnce failed socket connect_data addr no_socket h = h socket connect_data refl
attempt-ReportsOnce failed socket connect_data addr (connects fd) h = refl
attempt-ReportsOnce failed socket connect_data addr (in_progress fd) h = refl
attempt-ReportsOnce failed socket connect_data addr (refuses fd) h =
    let made = record connect_data { fd = some fd; io_channel = some fd } in
    let watching = record socket { has_watch_connect = true; connect_data = some made } in
    h watching made refl

default_port-resolver : (socket : Socket) → (default_port socket).resolver ≡ socket.resolver
unfolding default_port
default_port-resolver socket = elim (Bool-cases (socket.port == 0)) [
  | inl z ↦ ap (λ (b : Bool). (if b then record socket { port = 5222 } else socket).resolver) z
  | inr n ↦ ap (λ (b : Bool). (if b then record socket { port = 5222 } else socket).resolver) n
]

-- With more fuel than results are left, connecting comes to an end: either an attempt goes on and the
-- program is told nothing yet, or there are no more addresses and it is told of the failure, once.
pub do_connect-ReportsOnce :
    (closes : Bool) (outcome : ℕ → Outcome) (fuel : ℕ) (socket : Socket)
    (connect_data : ConnectData) (addr : Addrinfo)
    → left socket.resolver < fuel
    → ReportsOnce (do_connect closes outcome fuel socket connect_data addr)
unfolding do_connect
do_connect-ReportsOnce closes outcome zero socket connect_data addr l = absurd (omega arith)
do_connect-ReportsOnce closes outcome (suc fuel) socket connect_data addr l =
    let size = ap left (default_port-resolver socket) in
    attempt-ReportsOnce (failed_with_error closes (do_connect closes outcome fuel))
      (default_port socket) connect_data addr (outcome fuel)
      (λ s d e.
        failed_with_error-ReportsOnce closes (do_connect closes outcome fuel) s d (λ s_1 d_1 a less.
          let same = ap left e in
          do_connect-ReportsOnce closes outcome fuel s_1 d_1 a
            (omega (arith, less, same, size, l))))
