-- ===== src/Lib.antt =====
-- loudmouth, an XMPP client library in C.
--
-- A connection feeds the text it receives to a parser, which turns it into messages. They wait in
-- a queue for the main loop, which hands each one to the handler that waits for its id and to
-- those that are registered for its type. Authentication by SASL is such a set of handlers, with a
-- state of its own. The files below follow this path. Below the connection is a socket, which
-- looks the server up by a resolver, connects to one of its addresses, through a proxy if there is
-- one, and tells the connection of it; what it reads goes to the parser.
--
-- Node: loudmouth/lm-message-node.c. A node is a tree, `node name value raw_mode attributes
-- children`; `lm_message_node_get_child` is `get_child` and so on, `_lm_message_node_new` is
-- `new`. An operation that changes a node returns the new one. `g_markup_escape_text` is the
-- parameter `escape`. Node/Shared has the reference counts of nodes and messages, on trees whose
-- nodes have labels.
--
-- Message: loudmouth/lm-message.c. The tables of types are lists in the order of the source.
-- `g_ascii_strcasecmp` is the parameter `strcaseeq`. The id that `_lm_utils_generate_id` makes is
-- an argument of `new`.
--
-- Parser: loudmouth/lm-parser.c. The callbacks for GLib's markup parser are `start_node`,
-- `end_node` and `text_node`, on the list of the nodes that are open; `run` takes a list of events
-- and gives the messages that are handed over. The markup parser itself is the record `Markup`.
--
-- Queue: loudmouth/lm-message-queue.c, with the search for a reply of
-- `lm_connection_send_with_reply_and_block`. What a call does to the main loop is a list of
-- effects.
--
-- Handler: loudmouth/lm-message-handler.c, on whatever state a callback changes.
--
-- Connection: of loudmouth/lm-connection.c, the registry of handlers, the loop that calls them,
-- the replies that are waited for, the server's name in a JID, and the state of the link: opening
-- it, the header of the stream, stream errors, keep-alive and closing. Connection/Account and
-- Connection/Features add what authentication needs to that state, with jabber:iq:auth, the
-- features of a stream, StartTLS and the binding of a resource; `lm_sha_hash` is a parameter.
-- Connection/Dispatch takes messages from the queue to the handlers and the link. Pointers to
-- handlers are numbers. Connection/Settings is what the program sets, with the objects that are
-- held for it; Connection/Sending is the text that is written, by the socket's `write`;
-- Connection/Blocking has the calls that run the main loop, on the list of what each iteration
-- leaves. `g_slist_insert_sorted` is a parameter, of which it is only assumed that it keeps a
-- sorted list sorted. Hash tables are association lists. A callback changes neither the registry
-- nor the handlers.
--
-- Resolver: loudmouth/lm-resolver.c, with Resolver/Blocking for lm-blocking-resolver.c and
-- Resolver/Asyncns for lm-asyncns-resolver.c. The response to an SRV query is its bytes and
-- `dn_expand`; what `getaddrinfo`, `res_query` and libasyncns give are arguments. A call of the
-- resolver's callback is recorded, with the resolver as the callback finds it.
--
-- Socket: loudmouth/lm-old-socket.c, what is written and read. Socket/Connect goes from address to
-- address, Socket/Open makes a socket and holds what is called back while it connects. A pointer
-- to a source of the main loop is there or not; sources, descriptors and calls of the program are
-- effects.
--
-- Ssl: loudmouth/lm-ssl.h, lm-ssl-base.h, lm-ssl-base.c and lm-ssl-generic.c, the state that both
-- implementations share. Ssl/Openssl is lm-ssl-openssl.c and Ssl/Gnutls lm-ssl-gnutls.c; what
-- these libraries answer is given, and the program's callback acts on a state of its own.
-- Ssl/Openssl/Opened joins OpenSSL and the socket. A loop over what a library returns runs through
-- the list of its answers, and gives none if it still goes on at its end.
--
-- Proxy: loudmouth/lm-proxy.c, with the text that is sent to an HTTP proxy and the reading of its
-- answer.
--
-- Ping: loudmouth/lm-feature-ping.c. Pings that are sent, the signal for a time-out and the timers
-- of the main loop are effects; the counter and the interval keep to 32 bits.
--
-- Sasl: loudmouth/lm-sasl.c. Sasl/Challenge reads the challenge of DIGEST-MD5, Sasl/Digest
-- computes the answers, Sasl/Machine holds the callbacks, and Sasl/Gssapi has GSSAPI, with the
-- library of that name as a parameter and with the fields of `_LmSASL` that it uses. A callback
-- returns the new state and the effects: messages sent and calls of the result handler. MD5,
-- base64, the random bytes and the result of sending are the record `Env`.
--
-- Parameters: loudmouth/lm-data-objects.c. Utils: loudmouth/lm-utils.c. Base/Counted is the
-- interface of an object that is shared by reference count; it is filled for both kinds of
-- parameters and for SSL.
--
-- Tests holds runs at concrete inputs, Base what all share.
--
-- A text is a list of character codes. `NULL` is `none`. The loop over a challenge is on fuel, one
-- more than the length of its text; every round takes at least one character, so that is enough.
-- The loop for a reply is on fuel, the length of the queue. Connecting is on fuel, one more than
-- the results that are left, of which every further attempt takes one. All other loops are
-- structural; that a channel does not ask to try again for ever is a part of the type of its
-- answers.
--
-- Not modelled: allocation, the reference counts of connections and those that the registry
-- holds, the log, the checks `g_return_if_fail`, times and the main loop's helpers in
-- loudmouth/lm-utils.c and lm-misc.c, the calls of the system on sockets, and the copies of
-- other projects' code (libasyncns, MD5, SHA-1).
pub mod Base
pub mod Node
pub mod Message
pub mod Parameters
pub mod Parser
pub mod Handler
pub mod Sasl
pub mod Queue
pub mod Connection
pub mod Ping
pub mod Proxy
pub mod Resolver
pub mod Socket
pub mod Ssl
mod Tests
pub mod Utils
