-- ===== src/Connection/Settings.antt =====
-- What the program sets on a connection, and the objects that are held for it
-- (loudmouth/lm-connection.c).
use loudmouth.Base.{ℕ, Bool, List, [], ◌∷◌, ◌++◌, Option, none, some, Text, if◌then◌else◌, leb}
use loudmouth.Proxy.{ProxyType, no_proxy, http}
use loudmouth.Connection.Link.{State, closed, opening, state_number}

-- What is shared by reference count, or, for the data of the callback for the end, freed by the
-- program's own function: pointers to it are numbers.
pub data Resource : Type 0 where
  ssl_object proxy_object main_context disconnect_data : ℕ → Resource

-- A reference is taken, or the data with the callback; it is let go of.
pub data Effect : Type 0 where
  takes drops : Resource → Effect

-- Of `struct _LmOldSocket`: it has references of its own to the proxy and the context, but none to
-- the SSL object.
pub record HeldSocket : Type 0 where
  pub ssl : Option ℕ
  pub proxy : Option ℕ
  pub context : Option ℕ

-- Of `struct _LmConnection`. `disconnect_cb` holds the data that its `notify` frees, if there is
-- such a function.
pub record Settings : Type 0 where
  pub state : State
  pub server : Option Text
  pub jid : Option Text
  pub effective_jid : Option Text
  pub port : ℕ
  pub ssl : Option ℕ
  pub proxy : Option ℕ
  pub context : Option ℕ
  pub disconnect_cb : Option (Option ℕ)
  pub socket : Option HeldSocket

-- An effect on a pointer that is not `NULL`.
abbrev pub on_pointer : (Resource → Effect) → (ℕ → Resource) → Option ℕ → List Effect
on_pointer does kind none = []
on_pointer does kind (some i) = does (kind i) ∷ []

-- The data of a callback, `NULL` if there is no callback or it has none to free.
abbrev pub data_of : Option (Option ℕ) → Option ℕ
data_of none = none
data_of (some notified) = notified

-- `lm_connection_is_open`
unfoldable pub is_open : Settings → Bool
unfolding state_number
is_open c = leb 2 (state_number c.state)

-- `lm_connection_is_authenticated`
unfoldable pub is_authenticated : Settings → Bool
unfolding state_number
is_authenticated c = leb 4 (state_number c.state)

-- `lm_connection_set_jid`
unfoldable pub set_jid : Option Text → Settings → Settings × List Effect
unfolding is_open
set_jid jid c = (if is_open c then c else record c { jid = jid }, [])

-- `lm_connection_set_port`
unfoldable pub set_port : ℕ → Settings → Settings × List Effect
unfolding is_open
set_port port c = (if is_open c then c else record c { port = port }, [])

-- `lm_connection_set_ssl`
unfoldable pub set_ssl : Option ℕ → Settings → Settings × List Effect
set_ssl ssl c =
    (record c { ssl = ssl }, on_pointer drops ssl_object c.ssl ++ on_pointer takes ssl_object ssl)

-- The proxy that is kept, by its type.
abbrev pub usable : Option (ℕ × ProxyType) → Option ℕ
usable none = none
usable (some (i, no_proxy)) = none
usable (some (i, http)) = some i

-- `lm_connection_set_proxy`
unfoldable pub set_proxy : Option (ℕ × ProxyType) → Settings → Settings × List Effect
unfolding is_open
set_proxy proxy c = if is_open c then (c, []) else (
  record c { proxy = usable proxy },
  on_pointer drops proxy_object c.proxy ++ on_pointer takes proxy_object (usable proxy),
)

-- `lm_connection_set_disconnect_function`; `none` is a `NULL` function.
unfoldable pub set_disconnect_function : Option (Option ℕ) → Settings → Settings × List Effect
set_disconnect_function callback c = (
  record c { disconnect_cb = callback },
  on_pointer drops disconnect_data (data_of c.disconnect_cb)
      ++ on_pointer takes disconnect_data (data_of callback),
)

-- `lm_old_socket_create`, for what it holds.
unfoldable pub create_socket : Settings → HeldSocket × List Effect
create_socket c = (
  record { ssl = c.ssl; proxy = c.proxy; context = c.context },
  on_pointer takes main_context c.context ++ on_pointer takes proxy_object c.proxy,
)

-- `connection_do_open`, where `lm_old_socket_create` passes its checks: the pointer to an earlier
-- socket is overwritten.
unfoldable pub do_open : Settings → Settings × List Effect
unfolding is_open create_socket
do_open c =
    let (socket, effects) = create_socket c in
    if is_open c then (c, []) else (record c { state = opening; socket = some socket }, effects)

-- `socket_free`, which nobody but the connection keeps from: the context is not let go of.
unfoldable pub socket_free : HeldSocket → List Effect
socket_free socket =
    on_pointer drops ssl_object socket.ssl ++ on_pointer drops proxy_object socket.proxy

-- `lm_old_socket_unref` in `connection_free`, by `connection->socket`.
unfoldable pub unref_socket : Option HeldSocket → List Effect
unfolding socket_free
unref_socket none = []
unref_socket (some socket) = socket_free socket

-- `_lm_utils_hostname_to_punycode` with libidn's functions inside.
module _ (to_punycode : Text → Text) where
  -- `lm_connection_set_server`
  unfoldable pub set_server : Text → Settings → Settings × List Effect
  unfolding is_open
  set_server server c =
      (if is_open c then c else record c { server = some (to_punycode server) }, [])

  -- `lm_connection_new_with_context`, and `lm_connection_new` in it.
  unfoldable pub new_with_context : Option Text → Option ℕ → Settings × List Effect
  new_with_context server context = (
    record {
      state = closed;
      server = elim server [ none ↦ none | some name ↦ some (to_punycode name) ];
      jid = none;
      effective_jid = none;
      port = 5222;
      ssl = none;
      proxy = none;
      context = context;
      disconnect_cb = none;
      socket = none;
    },
    on_pointer takes main_context context,
  )

-- The part of `connection_free` that lets go of these objects, `disconnect_cb` first and the socket
-- last. The connection's own SSL object is not among them.
unfoldable pub free_settings : Settings → List Effect
unfolding set_disconnect_function unref_socket
free_settings c =
    (set_disconnect_function none c).1
    ++ (on_pointer drops proxy_object c.proxy
        ++ (on_pointer drops main_context c.context ++ unref_socket c.socket))
