-- ===== src/Connection/Features.antt =====
-- How a connection is authenticated (loudmouth/lm-connection.c): the start, the features of a stream,
-- StartTLS and the binding of a resource.
use loudmouth.Base.{
  Bool, true, false, not, ◌&&◌, List, [], ◌∷◌, ◌++◌, Option, none, some, Text, codes, is_null,
  opt_str_eq, leb, if◌then◌else◌,
}
use loudmouth.Node.{Node, set_attributes, get_attribute, get_value, find_child, add_child}
use loudmouth.Node
use loudmouth.Message.{Message, SubType, iq, stream, starttls, new_with_sub_type}
use loudmouth.Message as M
use loudmouth.Sasl.{AuthParameters, shown}
use loudmouth.Handler.{HandlerResult, remove_message, allow_more_handlers}
use loudmouth.Connection.Link.{authenticating, Link, is_open, signal_disconnect, state_number}
use loudmouth.Connection.Link as L
use loudmouth.Connection.Account.{
  Account, Effect, links, starts_sasl, registers_features, bind_reply, on_link, send,
  connection_send_with_reply, with_query, old_auth, call_auth_cb, get_server, closes, in_state,
}

abbrev pub bind_ns : Text
bind_ns = codes "urn:ietf:params:xml:ns:xmpp-bind"

abbrev pub session_ns : Text
session_ns = codes "urn:ietf:params:xml:ns:xmpp-session"

abbrev pub starttls_ns : Text
starttls_ns = codes "urn:ietf:params:xml:ns:xmpp-tls"

-- The message with these attributes on its root.
abbrev pub with_attributes : Message → List (Text × Option Text) → Message
with_attributes m ats = record m { node = set_attributes m.node ats }

-- The header of the stream, for a server.
abbrev pub stream_header : Option Text → Message
stream_header server = with_attributes (M.new [] server stream) (
    (codes "xmlns:stream", some (codes "http://etherx.jabber.org/streams"))
    ∷ (codes "xmlns", some (codes "jabber:client"))
    ∷ (codes "version", some (codes "1.0"))
    ∷ [])

-- `connection_send_stream_header`. A stream has no id.
unfoldable pub send_stream_header : Bool → Account → Account × List Effect
unfolding M.new set_attributes get_server send closes
send_stream_header written a =
    let (effects, success) = send written a (stream_header (get_server a)) in
    let (closed, close_effects) = closes a in
    if success then (a, effects) else (closed, effects ++ close_effects)

-- `connection_do_close` and `connection_signal_disconnect` for `LM_DISCONNECT_REASON_ERROR`.
abbrev pub closes_with_error : Account → Account × List Effect
closes_with_error a =
    let (closed, effects) = closes a in
    (closed, effects ++ on_link (signal_disconnect closed.link L.error))

-- `_lm_connection_starttls_cb`: whether `lm_old_socket_starttls` succeeds.
unfoldable pub connection_starttls_cb :
    Bool → Bool → Account → Account × List Effect × HandlerResult
unfolding send_stream_header closes
connection_starttls_cb starts written a =
    let (secured, effects) = send_stream_header written (record a { tls_started = true }) in
    let (closed, close_effects) = closes_with_error a in
    if starts then (secured, effects, remove_message) else (closed, close_effects, remove_message)

-- The request for a session.
abbrev pub session_request : Text → Message
session_request id =
    with_query (new_with_sub_type id none iq M.set)
      (set_attributes (Node.new (some (codes "session"))) ((codes "xmlns", some session_ns) ∷ []))

-- The JID that the server has bound, if it says so.
abbrev pub bound_jid : Option Node → Option Text → Option Text
bound_jid none jid = jid
bound_jid (some jid_node) jid = get_value jid_node

-- `type == LM_MESSAGE_SUB_TYPE_ERROR`
abbrev pub is_error : SubType → Bool
is_error SubType.error = true
is_error _ = false

-- `connection_bind_reply`, with the id of the message it sends. What `lm_connection_send` returns is
-- never less than zero.
unfoldable pub bind_reply_cb : Bool → Text → Account → Message → Account × List Effect
unfolding call_auth_cb send find_child get_value new_with_sub_type set_attributes Node.new
bind_reply_cb written id a message =
    let jid = bound_jid (find_child message.node (some (codes "jid"))) a.effective_jid in
    let (effects, _) = send written a (session_request id) in
    let (told, calls) = call_auth_cb true (record a { effective_jid = jid }) in
    if is_error message.sub_type then call_auth_cb false a else (told, effects ++ calls)

-- `connection_sasl_auth_finished`
unfoldable pub sasl_auth_finished : Bool → Bool → Account → Account × List Effect
unfolding call_auth_cb send_stream_header
sasl_auth_finished written success a =
    if success then send_stream_header written a else call_auth_cb false a

-- The request to bind a resource.
abbrev pub bind_request : Text → Option Text → Message
bind_request id resource =
    with_query (new_with_sub_type id none iq M.set)
      (add_child
        (set_attributes (Node.new (some (codes "bind"))) ((codes "xmlns", some bind_ns) ∷ []))
        (some (codes "resource")) resource).0

-- `connection_old_auth` with the parameters that the SASL object has, if any.
unfoldable pub ask_with : Bool → Text → Account → Option AuthParameters → List Effect
unfolding old_auth
ask_with written id a none = []
ask_with written id a (some params) = (old_auth written id params a).0

-- The last part of `connection_features_cb`: the server has jabber:iq:auth and no SASL.
unfoldable pub cope_with_old_auth : Bool → Text → Account → Bool → Account × List Effect
unfolding ask_with
cope_with_old_auth written id a false = (a, [])
cope_with_old_auth written id a true =
    let link_1 = a.link in
    let plain = record a {
      link = record link_1 { use_sasl = false; sasl = false };
      sasl_params = none;
    } in
    if link_1.sasl
    then (plain, ask_with written id plain a.sasl_params ++ links L.frees_sasl ∷ [])
    else (record a { link = record link_1 { use_sasl = false } }, [])

-- Whether `connection_features_cb` finds such a server.
abbrev pub lacks_sasl : Account → Node → Bool
lacks_sasl a root =
    a.link.use_sasl
    && (not (is_null (find_child root (some (codes "auth"))))
        && is_null (find_child root (some (codes "mechanisms"))))

-- `connection_features_cb` from the binding of a resource on, with the ids of the messages it sends
-- and the node `bind` of the features.
unfoldable pub bind_features :
    Bool → Text → Text → Account → Node → Option Node → Account × List Effect × HandlerResult
unfolding connection_send_with_reply find_child get_attribute new_with_sub_type set_attributes
    add_child Node.new cope_with_old_auth
bind_features written bind_id auth_id a root none =
    let (next, effects) = cope_with_old_auth written auth_id a (lacks_sasl a root) in
    (next, effects, allow_more_handlers)
bind_features written bind_id auth_id a root (some bind_node) =
    let (bound, _) =
      connection_send_with_reply written a bind_id (bind_request bind_id a.resource) bind_reply in
    let (next, effects) = cope_with_old_auth written auth_id a (lacks_sasl a root) in
    if opt_str_eq (get_attribute bind_node (some (codes "xmlns"))) bind_ns
    then (next, bound ++ effects, allow_more_handlers)
    else (a, [], allow_more_handlers)

-- The request for StartTLS.
abbrev pub starttls_request : Text → Message
starttls_request id =
    with_attributes (M.new id none starttls) ((codes "xmlns", some starttls_ns) ∷ [])

-- `connection_features_cb`: what the socket says about StartTLS, that it is used and that it is
-- required, and the ids of the messages that it may send.
unfoldable pub connection_features_cb :
    Bool
    → Bool
    → Bool
    → Text
    → Text
    → Text
    → Account
    → Message
    → Account × List Effect × HandlerResult
unfolding M.new set_attributes send find_child closes bind_features
connection_features_cb use_starttls require_starttls written tls_id bind_id auth_id a message =
    let (closed, close_effects) = closes_with_error a in
    let later =
      bind_features written bind_id auth_id a message.node
        (find_child message.node (some (codes "bind"))) in
    if not (a.link.ssl && use_starttls)
    then later
    else if not (is_null (find_child message.node (some (codes "starttls"))))
    then (a, (send written a (starttls_request tls_id)).0, remove_message)
    else if not a.tls_started && require_starttls
    then (closed, close_effects, remove_message)
    else later

-- `lm_connection_authenticate`: `func` says if there is a function to call back.
unfoldable pub connection_authenticate :
    Bool → Bool → Text → AuthParameters → Account → Account × List Effect × Bool
unfolding is_open old_auth
connection_authenticate func written id params a =
    let waiting = in_state authenticating a in
    let begun = record waiting {
      auth_cb = some func;
      resource = some params.resource;
      effective_jid = some (shown a.jid ++ b'/' ∷ params.resource);
    } in
    let (effects, result) = old_auth written id params begun in
    if not (is_open a.link)
    then (a, [], false)
    else if a.link.use_sasl
    then (
      record begun { sasl_params = some params },
      starts_sasl params a.server ∷ registers_features ∷ [],
      true,
    )
    else (begun, effects, result)

-- What the socket has written at first.
abbrev pub xml_header : Text
xml_header = codes "<?xml version='1.0' encoding='UTF-8'?>"

-- The call of `open_cb` after a failure: `none` where a function that is `NULL` is called.
unfoldable pub fail_open : Account → List Effect → Option Bool → Option (Account × List Effect)
fail_open a effects none = some (a, effects)
fail_open a effects (some false) = none
fail_open a effects (some true) =
    let link_1 = a.link in
    some (
      record a { link = record link_1 { open_cb = none } },
      effects ++ links (L.calls_open_cb false) ∷ links L.frees_open_cb ∷ [],
    )

-- `connection_socket_connect_cb` after a failure.
unfoldable pub connect_failed : Account → Option (Account × List Effect)
unfolding closes fail_open
connect_failed a = let (closed, effects) = closes a in fail_open closed effects closed.link.open_cb

-- `connection_socket_connect_cb`, with what comes of writing the two headers.
unfoldable pub socket_connect_cb : Bool → Bool → Bool → Account → Option (Account × List Effect)
unfolding connect_failed closes send_stream_header state_number
socket_connect_cb result xml_written header_written a =
    let (closed, close_effects) = closes a in
    let (sent, header_effects) = send_stream_header header_written a in
    if not result
    then connect_failed a
    else if not (leb 1 (state_number a.link.state))
    then some (closed, close_effects)
    else if xml_written
    then some (sent, links (L.writes xml_header) ∷ header_effects)
    else some (closed, links (L.writes xml_header) ∷ close_effects)
