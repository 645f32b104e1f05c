-- ===== src/Tests/Sockets.antt =====
-- Tests of the model of loudmouth/lm-old-socket.c.
use loudmouth.Base.{
  ℕ, ◌≡◌, refl, arith, true, false, List, [], ◌∷◌, ◌++◌, map, some, none, codes, subst, get_elem?,
  zero, suc,
}
use loudmouth.Resolver.{Addrinfo, inet, other, Resolver, ResolverType, Result}
use loudmouth.Socket.{
  Socket, ConnectData, Channel, settled, normal, status_error, settle, write, buffered_write_cb,
}
use loudmouth.Socket.Attempts.{told, ReportsOnce, do_connect-ReportsOnce}
use loudmouth.Socket.Connect.{Outcome, refuses, in_progress, ref, failed_with_error, do_connect}
use loudmouth.Socket.Drain.{Progresses, drains}
use loudmouth.Socket.Early.{connect_cb-early}
use loudmouth.Socket.Open.{just_err, connect_cb}
use loudmouth.Socket.Order.{tried, with_port, destination, inet_left, do_connect-tried}
use loudmouth.Socket.Output.{Event, Output, writes, ready, run, pending_of, run_flows}

-- Two IPv4 addresses, of which the first is being tried.
abbrev first : Addrinfo
first = record { ai_family = inet; ai_addr = 1 ∷ [] }

abbrev second : Addrinfo
second = record { ai_family = other; ai_addr = 2 ∷ [] }

abbrev third : Addrinfo
third = record { ai_family = inet; ai_addr = 3 ∷ [] }

abbrev resolver : Resolver
resolver = record {
  type = ResolverType.host;
  host = some (codes "h");
  port = 0;
  domain = none;
  service = none;
  protocol = none;
  result = Result.ok;
  results = first ∷ second ∷ third ∷ [];
  current_result = second ∷ third ∷ [];
}

abbrev data_0 : ConnectData
data_0 = record { current_addr = some first; fd = none; io_channel = none }

abbrev socket : Socket
socket = record {
  domain = codes "h";
  server = some (codes "h");
  port = 0;
  ssl = none;
  ssl_started = false;
  proxy = none;
  io_channel = some 4;
  has_watch_in = false;
  has_watch_err = false;
  has_watch_hup = false;
  fd = none;
  has_watch_connect = false;
  cancel_open = false;
  has_watch_out = false;
  out_buf = none;
  connect_data = some data_0;
  ref_count = 1;
  resolver = some resolver;
}

-- A channel that takes one byte at a time.
abbrev slow : Channel
slow = record { write_chars = λ t. settled normal 1; ssl_send = λ t. some 1 }

abbrev buffering : Output
buffering = record {
  socket = record socket { out_buf = some (codes "ab"); has_watch_out = true };
  has_source = true;
}

abbrev idle : Output
idle = record { socket = socket; has_source = false }

-- A channel whose writes fail.
abbrev broken : Channel
broken = record { write_chars = λ t. settled status_error 0; ssl_send = λ t. none }

abbrev events : List Event
events = writes (codes "abc") slow ∷ ready slow ∷ writes (codes "d") slow ∷ ready slow ∷ []

one_by_one : ((run idle events).1 ≡ codes "abcd") × ((run idle events).2 ≡ codes "abc")
unfolding run write buffered_write_cb
one_by_one = (refl, refl)

run_flows_example :
    let (last, taken, sent) = run idle events in
    pending_of socket.out_buf ++ taken ≡ sent ++ pending_of last.socket.out_buf
run_flows_example = run_flows idle events

slow-Progresses : Progresses slow
unfolding settle
slow-Progresses t h = ((1, refl, omega arith), (1, refl, omega arith))

all_slow :
    (i : ℕ) (channel : Channel) → get_elem? (slow ∷ slow ∷ []) i ≡ some channel → Progresses channel
all_slow zero channel e = let same : slow ≡ channel = cc in subst Progresses same slow-Progresses
all_slow (suc zero) channel e =
    let same : slow ≡ channel = cc in subst Progresses same slow-Progresses
all_slow (suc (suc i)) channel e = cc

drains_example :
    let (last, _, _) = run buffering (map ready (slow ∷ slow ∷ [])) in
    (last.socket.out_buf ≡ none) × (last.socket.has_watch_out ≡ false)
drains_example =
    drains buffering (slow ∷ slow ∷ []) (omega arith, refl, refl) all_slow (omega arith)

-- Every address refuses, on the descriptor that the fuel numbers.
abbrev refusing : ℕ → Outcome
refusing n = refuses n

both_tried :
    tried (do_connect false refusing 3 socket data_0 first).1 ≡ (first, 5222) ∷ (third, 5222) ∷ []
unfolding do_connect
both_tried = refl

do_connect-ReportsOnce_example : ReportsOnce (do_connect false refusing 3 socket data_0 first)
do_connect-ReportsOnce_example =
    do_connect-ReportsOnce false refusing 3 socket data_0 first (omega arith)

do_connect-tried_example :
    tried (do_connect true refusing 3 socket data_0 first).1
    ≡ with_port (destination socket.proxy socket.port) (first ∷ inet_left socket.resolver)
do_connect-tried_example =
    do_connect-tried true refusing 3 socket data_0 first (λ n. (n, refl)) (omega arith)

-- Connecting to the next address has begun.
abbrev beginning : ℕ → Outcome
beginning n = in_progress n

connect_cb-early_example :
    told (connect_cb false beginning true 3 (just_err false) socket data_0).1 ≡ true ∷ []
unfolding do_connect failed_with_error ref
connect_cb-early_example =
    connect_cb-early false beginning true 3 socket data_0 (omega arith) refl refl refl
