-- ===== src/Connection/Told.antt =====
-- How often the program is told whether it is authenticated (loudmouth/lm-connection.c).
use loudmouth.Base.{
  ℕ, ◌+◌, ◌≤◌, ap, Bool, true, false, not, Bool-cases, inl, inr, List, [], ◌∷◌, ◌++◌, Option, none,
  some, Text, codes, str_eq, if◌then◌else◌, arith, leb,
}
use loudmouth.Node.{find_child, get_attribute}
use loudmouth.Message.{Message}
use loudmouth.Sasl.{AuthParameters}
use loudmouth.Connection.Link as L
use loudmouth.Connection.Account.{
  Account, Effect, links, auth_replied, auth_reply_cb, auth_req_reply_cb,
  connection_send_with_reply, old_auth, call_auth_cb, closes, in_state, send,
}
use loudmouth.Connection.Features.{
  connection_starttls_cb, bind_reply_cb, sasl_auth_finished, connection_features_cb,
  connection_authenticate, fail_open, connect_failed, socket_connect_cb, session_request,
  xml_header, bound_jid, is_error, send_stream_header, closes_with_error,
}
use loudmouth.Connection.Login.{
  times_told, waiting, TellsWaiting, IsQuiet, times_told-append, times_told-send, closes-IsQuiet,
  call_back-TellsWaiting, IsQuiet-TellsWaiting, send_stream_header-IsQuiet,
  closes_with_error-IsQuiet, connection_features_cb-Quietly,
}

-- What the program, the server and the socket do to an account. The Booleans say what comes of
-- writing; the texts are the ids of the messages.
pub data Call : Type 0 where
  authenticates : Bool → Bool → Text → AuthParameters → Call
  gets_features : Bool → Bool → Bool → Text → Text → Text → Message → Call
  gets_bind_reply : Bool → Text → Message → Call
  gets_auth_reply : Message → Call
  gets_auth_req_reply : Bool → Text → AuthParameters → Message → Call
  finishes_sasl gets_proceed : Bool → Bool → Call
  connects : Bool → Bool → Bool → Call

-- After a crash nothing is done.
abbrev pub or_nothing : Account → Option (Account × List Effect) → Account × List Effect
or_nothing a none = (a, [])
or_nothing a (some r) = r

module _ (lm_sha_hash : Option Text → Text) where
  abbrev pub call : Account → Call → Account × List Effect
  call a (authenticates func written id params) =
      let (next, es, _) = connection_authenticate func written id params a in (next, es)
  call a (gets_features use_starttls require_starttls written tls_id bind_id auth_id m) =
      let (next, es, _) =
        connection_features_cb use_starttls require_starttls written tls_id bind_id auth_id a m in
      (next, es)
  call a (gets_bind_reply written id m) = bind_reply_cb written id a m
  call a (gets_auth_reply m) = or_nothing a (auth_reply_cb a m)
  call a (gets_auth_req_reply written id params m) =
      (a, auth_req_reply_cb lm_sha_hash written id params a m)
  call a (finishes_sasl written success) = sasl_auth_finished written success a
  call a (gets_proceed starts written) =
      let (next, es, _) = connection_starttls_cb starts written a in (next, es)
  call a (connects result xml_written header_written) =
      or_nothing a (socket_connect_cb result xml_written header_written a)

  abbrev pub calls : Account → List Call → Account × List Effect
  calls a [] = (a, [])
  calls a (c ∷ cs) =
      let (next, es) = call a c in let (last, later) = calls next cs in (last, es ++ later)

-- How often it is asked to authenticate.
abbrev pub asked_by : Call → ℕ
asked_by (authenticates func written id params) = 1
asked_by _ = 0

abbrev pub times_asked : List Call → ℕ
times_asked [] = 0
times_asked (c ∷ cs) = asked_by c + times_asked cs

authenticate_tells :
    (func written : Bool) (id : Text) (params : AuthParameters) (a : Account)
    → let (next, es, _) = connection_authenticate func written id params a in
      times_told es + waiting next.auth_cb ≤ waiting a.auth_cb + 1
unfolding connection_authenticate old_auth connection_send_with_reply send
authenticate_tells func written id params a = ground arith

if-TellsWaiting :
    (b : Bool) (a : Account) (x y : Account × List Effect)
    → TellsWaiting a x
    → TellsWaiting a y
    → TellsWaiting a (if b then x else y)
if-TellsWaiting true a x y h k = h
if-TellsWaiting false a x y h k = k

bind_reply_cb-TellsWaiting :
    (written : Bool) (id : Text) (a : Account) (m : Message)
    → TellsWaiting a (bind_reply_cb written id a m)
unfolding bind_reply_cb call_auth_cb
bind_reply_cb-TellsWaiting written id a m =
    let jid = bound_jid (find_child m.node (some (codes "jid"))) a.effective_jid in
    let effects = (send written a (session_request id)).0 in
    let (told, calls) = call_auth_cb true (record a { effective_jid = jid }) in
    let refused = in_state L.opened a in
    let bound = in_state L.authenticated (record a { effective_jid = jid }) in
    let sent = times_told-send written a (session_request id) in
    if-TellsWaiting (is_error m.sub_type) a (call_auth_cb false a) (told, effects ++ calls)
      (call_back-TellsWaiting false refused)
      (omega (arith, times_told-append effects calls, sent, call_back-TellsWaiting true bound))

auth_replied-TellsWaiting :
    (a : Account) (type : Option Text) → TellsWaiting a (or_nothing a (auth_replied a type))
unfolding auth_replied
auth_replied-TellsWaiting a none = omega arith
auth_replied-TellsWaiting a (some type) = elim (Bool-cases (str_eq type (codes "result"))) [
  | inl result ↦ rw result (call_back-TellsWaiting true (in_state L.authenticated a))
  | inr other ↦ elim (Bool-cases (str_eq type (codes "error"))) [
    | inl failed ↦ rw (other, failed) (call_back-TellsWaiting false (in_state L.opened a))
    | inr neither ↦ rw (other, neither) (call_back-TellsWaiting true a)
  ]
]

fail_open-TellsWaiting :
    (a closed : Account) (effects : List Effect) (open_cb : Option Bool)
    → IsQuiet a (closed, effects)
    → TellsWaiting a (or_nothing a (fail_open closed effects open_cb))
unfolding fail_open
fail_open-TellsWaiting a closed effects none h = IsQuiet-TellsWaiting a (closed, effects) h
fail_open-TellsWaiting a closed effects (some false) h = omega arith
fail_open-TellsWaiting a closed effects (some true) (silent, kept) =
    let calls = links (L.calls_open_cb false) ∷ links L.frees_open_cb ∷ [] in
    let same = ap waiting kept in omega (arith, silent, same, times_told-append effects calls)

or_nothing-if :
    (b : Bool) (a : Account) (x y : Option (Account × List Effect))
    → TellsWaiting a (or_nothing a x)
    → TellsWaiting a (or_nothing a y)
    → TellsWaiting a (or_nothing a (if b then x else y))
or_nothing-if true a x y h k = h
or_nothing-if false a x y h k = k

connects-TellsWaiting :
    (result xml_written header_written : Bool) (a : Account)
    → TellsWaiting a (or_nothing a (socket_connect_cb result xml_written header_written a))
unfolding socket_connect_cb connect_failed
connects-TellsWaiting false xml_written header_written a =
    fail_open-TellsWaiting a (closes a).0 (closes a).1 (closes a).0.link.open_cb (closes-IsQuiet a)
connects-TellsWaiting true xml_written header_written a =
    let off = not (leb 1 (L.state_number a.link.state)) in
    let (sent, header_effects) = send_stream_header header_written a in
    let (closed, close_effects) = closes a in
    let xml = links (L.writes xml_header) in
    let whole = some (sent, xml ∷ header_effects) in
    let broken = some (closed, xml ∷ close_effects) in
    let gone = IsQuiet-TellsWaiting a (closes a) (closes-IsQuiet a) in
    let header = send_stream_header-IsQuiet header_written a in
    or_nothing-if off a (some (closed, close_effects)) (if xml_written then whole else broken) gone
      (or_nothing-if xml_written a whole broken
        (IsQuiet-TellsWaiting a (send_stream_header header_written a) header) gone)

module _ (lm_sha_hash : Option Text → Text) where
  call_tells :
      (a : Account) (c : Call)
      → let (next, es) = call lm_sha_hash a c in
        times_told es + waiting next.auth_cb ≤ waiting a.auth_cb + asked_by c
  unfolding auth_reply_cb auth_req_reply_cb connection_send_with_reply sasl_auth_finished
      connection_starttls_cb call_auth_cb
  call_tells a (authenticates func written id params) = authenticate_tells func written id params a
  call_tells a (gets_features use_starttls require_starttls written tls_id bind_id auth_id m) =
      let (next, es, _) =
        connection_features_cb use_starttls require_starttls written tls_id bind_id auth_id a m in
      let quiet =
        connection_features_cb-Quietly use_starttls require_starttls written tls_id bind_id auth_id
          a m in
      omega (arith, IsQuiet-TellsWaiting a (next, es) quiet)
  call_tells a (gets_bind_reply written id m) =
      omega (arith, bind_reply_cb-TellsWaiting written id a m)
  call_tells a (gets_auth_reply m) =
      omega (arith, auth_replied-TellsWaiting a (get_attribute m.node (some (codes "type"))))
  call_tells a (gets_auth_req_reply written id params m) =
      omega (arith, times_told-send written a _)
  call_tells a (finishes_sasl written true) =
      let sent = send_stream_header written a in
      omega (arith, IsQuiet-TellsWaiting a sent (send_stream_header-IsQuiet written a))
  call_tells a (finishes_sasl written false) =
      omega (arith, call_back-TellsWaiting false (in_state L.opened a))
  call_tells a (gets_proceed true written) =
      let secured = record a { tls_started = true } in
      let sent = send_stream_header written secured in
      omega (arith, IsQuiet-TellsWaiting secured sent (send_stream_header-IsQuiet written secured))
  call_tells a (gets_proceed false written) =
      omega (arith, IsQuiet-TellsWaiting a (closes_with_error a) (closes_with_error-IsQuiet a))
  call_tells a (connects result xml_written header_written) =
      omega (arith, connects-TellsWaiting result xml_written header_written a)

-- Whatever the program, the server and the socket do, the program is told whether it is
-- authenticated at most as often as it has asked to be, counting a callback that waits at first.
pub calls_tell :
    (lm_sha_hash : Option Text → Text) (a : Account) (cs : List Call)
    → times_told (calls lm_sha_hash a cs).1 ≤ waiting a.auth_cb + times_asked cs
calls_tell lm_sha_hash a [] = omega arith
calls_tell lm_sha_hash a (c ∷ cs) =
    let (next, es) = call lm_sha_hash a c in
    let later = (calls lm_sha_hash next cs).1 in
    omega (
      arith,
      times_told-append es later,
      call_tells lm_sha_hash a c,
      calls_tell lm_sha_hash next cs,
    )
