-- ===== src/Proxy.antt =====
-- loudmouth/lm-proxy.c: a proxy, what is sent to it and how its answer is taken.
pub mod Answer
pub mod Request
use loudmouth.Base.{
  ℕ, ◌+◌, ◌-◌, Bool, true, false, not, ◌&&◌, ◌||◌, List, [], ◌∷◌, ◌++◌, Option, none, some, Text,
  codes, str_eq, starts_with, leb, ltb, ◌==◌, if◌then◌else◌, length, take, drop, decimal,
}

-- `LmProxyType`
pub data ProxyType : Type 0 where
  no_proxy http : ProxyType

-- `struct _LmProxy`; `io_watch` is the number of a source, zero for none.
pub record Proxy : Type 0 where
  pub type : ProxyType
  pub server : Option Text
  pub port : ℕ
  pub username : Option Text
  pub password : Option Text
  pub io_watch : ℕ
  pub ref_count : ℕ

-- `lm_proxy_new`
unfoldable pub new : ProxyType → Proxy
new type = record {
  type = type;
  server = none;
  port = elim type [ http ↦ 8000 | no_proxy ↦ 0 ];
  username = none;
  password = none;
  io_watch = 0;
  ref_count = 1;
}

-- libidn's `idna_to_ascii_4z`, with the conversions around it, is a parameter.
module _ (hostname_to_punycode : Text → Text) where
  -- `lm_proxy_set_server`
  unfoldable pub set_server : Proxy → Text → Proxy
  set_server proxy server = record proxy { server = some (hostname_to_punycode server) }

  -- `lm_proxy_new_with_server`
  unfoldable pub new_with_server : ProxyType → Text → ℕ → Proxy
  unfolding new set_server
  new_with_server type server port =
      let proxy = set_server (new type) server in record proxy { port = port }

-- `lm_proxy_set_port`
unfoldable pub set_port : Proxy → ℕ → Proxy
set_port proxy port = record proxy { port = port }

-- `lm_proxy_set_type`
unfoldable pub set_type : Proxy → ProxyType → Proxy
set_type proxy type = record proxy { type = type }

-- `lm_proxy_set_username`
unfoldable pub set_username : Proxy → Option Text → Proxy
set_username proxy username = record proxy { username = username }

-- `lm_proxy_set_password`
unfoldable pub set_password : Proxy → Option Text → Proxy
set_password proxy password = record proxy { password = password }

-- `lm_proxy_ref`
unfoldable pub ref : Proxy → Proxy
ref proxy = record proxy { ref_count = proxy.ref_count + 1 }

-- `lm_proxy_unref`: `none` once it is freed. A live proxy has a count of at least one.
unfoldable pub unref : Proxy → Option Proxy
unref proxy =
    if proxy.ref_count == 1 then none else some (record proxy { ref_count = proxy.ref_count - 1 })

-- `server:port`, with `NULL` as `printf` shows it.
abbrev pub host_port : Text → ℕ → Text
host_port server port = server ++ b':' ∷ decimal port

abbrev pub crlf : Text
crlf = b'\r' ∷ b'\n' ∷ []

-- `g_base64_encode` of GLib is a parameter.
module _ (base64_encode : Text → Text) where
  -- The line for the proxy's user, if there are a name and a password.
  unfoldable pub authorization : Option Text → Option Text → Text
  authorization (some username) (some password) =
      codes "Proxy-Authorization: Basic " ++ (base64_encode (username ++ b':' ∷ password) ++ crlf)
  authorization _ _ = []

  -- `proxy_http_negotiate`: what it sends. The result of sending is not looked at.
  unfoldable pub http_negotiate : Proxy → Text → ℕ → Text
  unfolding authorization
  http_negotiate proxy server port =
      codes "CONNECT "
      ++ (host_port server port
          ++ (codes " HTTP/1.1"
              ++ (crlf
                  ++ (codes "Host: "
                      ++ (host_port server port
                          ++ (crlf ++ (authorization proxy.username proxy.password ++ crlf)))))))

  -- `proxy_negotiate`: the result, which is always `TRUE`, is left out.
  unfoldable pub negotiate : Proxy → Text → ℕ → Text
  unfolding http_negotiate
  negotiate proxy server port = elim proxy.type [
    | no_proxy ↦ []
    | http ↦ http_negotiate proxy server port
  ]

-- `proxy_http_read_cb` on what `g_io_channel_read_chars` read, at most 512 bytes.
unfoldable pub http_read_cb : Text → Bool
unfolding starts_with
http_read_cb buf =
    if ltb (length buf) 16
    then false
    else if not (starts_with buf (codes "HTTP/1.1 200"))
        && not (starts_with buf (codes "HTTP/1.0 200"))
    then false
    else starts_with (drop (length buf - 4) buf) (crlf ++ crlf)

-- What the callbacks do: `_lm_old_socket_failed_with_error`, `send`, a watch for the proxy's answer,
-- a watch that is removed, `_lm_old_socket_succeeded`, and a failed assertion.
pub data Effect : Type 0 where
  fails : ℕ → Effect
  sends : Text → Effect
  watches_answer : ℕ → Effect
  removes_watch : ℕ → Effect
  succeeds : Effect
  aborts : Effect

-- `GIOCondition` of a watch for `G_IO_OUT | G_IO_ERR`: just an error, with the socket's error
-- number, just `G_IO_OUT`, or anything else.
pub data Condition : Type 0 where
  err : ℕ → Condition
  out other : Condition

-- `proxy_read_cb`: what it does, and if its source is kept. The socket is an HTTP proxy's.
unfoldable pub read_cb : Bool → Proxy → Text → List Effect × Bool
unfolding http_read_cb
read_cb is_open proxy buf =
    if is_open
    then ([], false)
    else if http_read_cb (take 512 buf)
    then (removes_watch proxy.io_watch ∷ succeeds ∷ [], false)
    else ([], false)

-- The reads of one watch, for as long as its source is kept, with what they do.
unfoldable pub reads : Bool → Proxy → List Text → List Effect
unfolding read_cb
reads is_open proxy [] = []
reads is_open proxy (buf ∷ bufs) =
    let (effects, kept) = read_cb is_open proxy buf in
    let rest = reads is_open proxy bufs in if kept then effects ++ rest else effects

-- `_lm_proxy_connect_cb` for a connection to a server and a port, with the number that
-- `g_io_add_watch` gives.
unfoldable pub connect_cb : (Text → Text) → Condition → Proxy → Text → ℕ → ℕ → Proxy × List Effect
unfolding negotiate
connect_cb base64_encode (err error) proxy server port source = (proxy, fails error ∷ [])
connect_cb base64_encode out proxy server port source = (
  record proxy { io_watch = source },
  sends (negotiate base64_encode proxy server port) ∷ watches_answer source ∷ [],
)
connect_cb base64_encode other proxy server port source = (proxy, aborts ∷ [])
