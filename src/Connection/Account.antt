-- ===== src/Connection/Account.antt =====
-- How a connection is authenticated without SASL (loudmouth/lm-connection.c): the messages of
-- jabber:iq:auth, and the answers to them.
use loudmouth.Base.{
  Bool, true, false, not, ◌&&◌, List, [], ◌∷◌, ◌++◌, Option, none, some, Text, codes, is_null, leb,
  str_eq, if◌then◌else◌,
}
use loudmouth.Node.{
  Node, set_attribute, set_attributes, get_attribute, get_child, add_child, add_child_node,
}
use loudmouth.Node
use loudmouth.Message.{Message, iq, new_with_sub_type}
use loudmouth.Message as M
use loudmouth.Sasl.{AuthParameters}
use loudmouth.Connection.Jid.{get_server_from_jid}
use loudmouth.Connection.Link.{
  State, closed, opened, authenticating, authenticated, state_number, Link, is_open, do_close,
  close_with,
}
use loudmouth.Connection.Link as L

-- What a reply is handed to: the handlers that are made with each of these functions.
pub data Reply : Type 0 where
  auth_req_reply : AuthParameters → Reply
  auth_reply bind_reply : Reply

-- Of `struct _LmConnection`, what logging in needs beside the link. `sasl_params` is what the SASL
-- object holds, and `auth_cb` says if there is a callback and it has a function.
pub record Account : Type 0 where
  pub link : Link
  pub server : Option Text
  pub jid : Option Text
  pub effective_jid : Option Text
  pub resource : Option Text
  pub sasl_params : Option AuthParameters
  pub tls_started : Bool
  pub auth_cb : Option Bool

-- What it does: what the link does, messages sent, replies waited for by their id, SASL started with
-- the parameters and the server's name, the handler for features registered, and the calls of
-- `auth_cb`.
pub data Effect : Type 0 where
  links : L.Effect → Effect
  sends : Message → Effect
  waits_for : Text → Reply → Effect
  starts_sasl : AuthParameters → Option Text → Effect
  registers_features frees_auth_cb : Effect
  calls_auth_cb : Bool → Effect

-- What the link does, as a part of the account.
abbrev pub on_link : List L.Effect → List Effect
on_link [] = []
on_link (e ∷ es) = links e ∷ on_link es

-- `lm_connection_send`: whether `written`, what the socket's writing comes to, is asked for at all.
unfoldable pub send : Bool → Account → Message → List Effect × Bool
unfolding state_number
send written a m =
    if leb 1 (state_number a.link.state) then (sends m ∷ [], written) else ([], false)

-- `lm_connection_send_with_reply` for a message with that id.
unfoldable pub connection_send_with_reply :
    Bool → Account → Text → Message → Reply → List Effect × Bool
unfolding send
connection_send_with_reply written a id m reply =
    let (effects, result) = send written a m in (waits_for id reply ∷ effects, result)

abbrev pub auth_ns : Text
auth_ns = codes "jabber:iq:auth"

-- An element below `query`.
abbrev pub with_child : Node → Text → Text → Node
with_child n name value = (add_child n (some name) (some value)).0

-- A message with a `query` element, which is filled before it is put below the root.
abbrev pub with_query : Message → Node → Message
with_query m query = record m { node = add_child_node m.node query }

-- The `query` element for a user.
abbrev pub user_query : AuthParameters → Node
user_query params =
    let query =
      set_attributes (Node.new (some (codes "query"))) ((codes "xmlns", some auth_ns) ∷ []) in
    with_child query (codes "username") params.username

-- `connection_create_auth_req_msg`
unfoldable pub create_auth_req_msg : Text → AuthParameters → Message
unfolding new_with_sub_type set_attributes add_child add_child_node Node.new
create_auth_req_msg id params = with_query (new_with_sub_type id none iq M.get) (user_query params)

-- The bits of an `auth_type`.
pub record AuthTypes : Type 0 where
  pub plain : Bool
  pub digest : Bool
  pub zero_k : Bool

-- The child of that name is there.
abbrev pub has_child : Node → Text → Bool
has_child n name = not (is_null (get_child n (some name)))

-- The tests of `connection_check_auth_type` on `q_node`.
unfoldable pub offered_by : Option Node → AuthTypes
unfolding get_child
offered_by none = record { plain = true; digest = false; zero_k = false }
offered_by (some q_node) = record {
  plain = has_child q_node (codes "password");
  digest = has_child q_node (codes "digest");
  zero_k = has_child q_node (codes "sequence") && has_child q_node (codes "token");
}

-- `connection_check_auth_type`
unfoldable pub check_auth_type : Message → AuthTypes
unfolding offered_by
check_auth_type auth_req_rpl = offered_by (get_child auth_req_rpl.node (some (codes "query")))

-- `lm_sha_hash`, the SHA-1 of a string in hexadecimal digits, is a parameter.
module _ (lm_sha_hash : Option Text → Text) where
  -- What proves that the user knows the password, in the `query` element. `g_strconcat` gives `NULL`
  -- if its first string is `NULL`.
  unfoldable pub with_proof : Option Text → AuthParameters → AuthTypes → Node → Node
  unfolding add_child
  with_proof stream_id params auth_type query =
      let str : Option Text = elim stream_id [
        | none ↦ none
        | some id ↦ some (id ++ params.password)
      ] in
      if auth_type.digest
      then with_child query (codes "digest") (lm_sha_hash str)
      else if auth_type.plain
      then with_child query (codes "password") params.password
      else query

  -- `connection_create_auth_msg`
  unfoldable pub create_auth_msg : Text → Option Text → AuthParameters → AuthTypes → Message
  unfolding with_proof new_with_sub_type set_attributes add_child add_child_node Node.new
  create_auth_msg id stream_id params auth_type =
      let proved = with_proof stream_id params auth_type (user_query params) in
      with_query (new_with_sub_type id none iq M.set)
        (with_child proved (codes "resource") params.resource)

  -- `connection_auth_req_reply`, with the id of the message it sends.
  unfoldable pub auth_req_reply_cb : Bool → Text → AuthParameters → Account → Message → List Effect
  unfolding check_auth_type create_auth_msg connection_send_with_reply
  auth_req_reply_cb written id params a m =
      (connection_send_with_reply written a id
        (create_auth_msg id a.link.stream_id params (check_auth_type m)) auth_reply).0

-- `connection_old_auth`
unfoldable pub old_auth : Bool → Text → AuthParameters → Account → List Effect × Bool
unfolding create_auth_req_msg connection_send_with_reply
old_auth written id params a =
    connection_send_with_reply written a id (create_auth_req_msg id params) (auth_req_reply params)

-- The call of `auth_cb` and its release, if there is one.
unfoldable pub auth_cb_effects : Bool → Option Bool → List Effect
auth_cb_effects success none = []
auth_cb_effects success (some false) = frees_auth_cb ∷ []
auth_cb_effects success (some true) = calls_auth_cb success ∷ frees_auth_cb ∷ []

-- The same with the pointer to it reset.
unfoldable pub call_back : Bool → Account → Account × List Effect
unfolding auth_cb_effects
call_back success a = (record a { auth_cb = none }, auth_cb_effects success a.auth_cb)

-- The connection in another state.
abbrev pub in_state : State → Account → Account
in_state state a = let link_1 = a.link in record a { link = record link_1 { state = state } }

-- `connection_auth_reply` by the `type` of the reply: `none` where `strcmp` is called on `NULL`.
unfoldable pub auth_replied : Account → Option Text → Option (Account × List Effect)
unfolding call_back
auth_replied a none = none
auth_replied a (some type) =
    if str_eq type (codes "result")
    then some (call_back true (in_state authenticated a))
    else if str_eq type (codes "error")
    then some (call_back false (in_state opened a))
    else some (call_back true a)

-- `connection_auth_reply`
unfoldable pub auth_reply_cb : Account → Message → Option (Account × List Effect)
unfolding auth_replied get_attribute
auth_reply_cb a m = auth_replied a (get_attribute m.node (some (codes "type")))

-- `connection_call_auth_cb`
unfoldable pub call_auth_cb : Bool → Account → Account × List Effect
unfolding call_back
call_auth_cb success a = call_back success (in_state (if success then authenticated else opened) a)

-- `_lm_connection_get_server`
unfoldable pub get_server : Account → Option Text
unfolding get_server_from_jid
get_server a = elim (get_server_from_jid a.jid) [ some server ↦ some server | none ↦ a.server ]

-- `connection_do_close` and `connection_signal_disconnect` on the link.
unfoldable pub closes : Account → Account × List Effect
unfolding do_close
closes a =
    let (link, es) = do_close a.link in
    (
      record a { link = link; sasl_params = if is_open a.link then none else a.sasl_params },
      on_link es,
    )
