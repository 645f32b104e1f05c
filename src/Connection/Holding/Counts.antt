-- ===== src/Connection/Holding/Counts.antt =====
-- How often what a connection holds is taken and let go of (loudmouth/lm-connection.c).
use loudmouth.Base.{
  ℕ, ◌+◌, ◌≡◌, refl, Bool, false, List, [], ◌∷◌, ◌++◌, Option, none, some, if◌then◌else◌, ◌==◌,
  arith,
}
use loudmouth.Connection.Settings.{
  Resource, ssl_object, proxy_object, main_context, disconnect_data, Effect, takes, drops, Settings,
  on_pointer, data_of, free_settings, HeldSocket, create_socket, unref_socket,
}

abbrev pub same : Resource → Resource → Bool
same (ssl_object i) (ssl_object j) = i == j
same (proxy_object i) (proxy_object j) = i == j
same (main_context i) (main_context j) = i == j
same (disconnect_data i) (disconnect_data j) = i == j
same _ _ = false

abbrev pub one_if : Bool → ℕ
one_if b = if b then 1 else 0

-- How often a resource is taken, and let go of.
abbrev pub taken : Resource → List Effect → ℕ
taken r [] = 0
taken r (takes s ∷ es) = one_if (same r s) + taken r es
taken r (drops s ∷ es) = taken r es

abbrev pub dropped : Resource → List Effect → ℕ
dropped r [] = 0
dropped r (takes s ∷ es) = dropped r es
dropped r (drops s ∷ es) = one_if (same r s) + dropped r es

-- How many pointers of a kind there are to a resource: one or none.
abbrev pub refers : Resource → (ℕ → Resource) → Option ℕ → ℕ
refers r kind none = 0
refers r kind (some i) = one_if (same r (kind i))

-- How many references to a resource a socket has of its own.
abbrev pub kept : Option HeldSocket → Resource → ℕ
kept none r = 0
kept (some socket) r = refers r proxy_object socket.proxy + refers r main_context socket.context

-- What becomes of a socket's pointers when it is freed: that to SSL is let go of though no reference
-- has been taken for it, and the reference to the context is not.
abbrev pub over : Option HeldSocket → Resource → ℕ
over none r = 0
over (some socket) r = refers r ssl_object socket.ssl

abbrev pub forgotten : Option HeldSocket → Resource → ℕ
forgotten none r = 0
forgotten (some socket) r = refers r main_context socket.context

-- How many references to a resource the connection has, with its socket.
abbrev pub held : Settings → Resource → ℕ
held c r =
    refers r ssl_object c.ssl
    + refers r proxy_object c.proxy
    + refers r main_context c.context
    + refers r disconnect_data (data_of c.disconnect_cb)
    + kept c.socket r

-- A pointer that is replaced.
pub taken-exchange :
    (r : Resource) (kind : ℕ → Resource) (old new : Option ℕ)
    → taken r (on_pointer drops kind old ++ on_pointer takes kind new) ≡ refers r kind new
taken-exchange r kind none none = refl
taken-exchange r kind none (some j) = omega arith
taken-exchange r kind (some i) none = refl
taken-exchange r kind (some i) (some j) = omega arith

pub dropped-exchange :
    (r : Resource) (kind : ℕ → Resource) (old new : Option ℕ)
    → dropped r (on_pointer drops kind old ++ on_pointer takes kind new) ≡ refers r kind old
dropped-exchange r kind none none = refl
dropped-exchange r kind none (some j) = refl
dropped-exchange r kind (some i) none = omega arith
dropped-exchange r kind (some i) (some j) = omega arith

pub taken_let_go :
    (r : Resource) (kind : ℕ → Resource) (p : Option ℕ) → taken r (on_pointer drops kind p) ≡ 0
taken_let_go r kind none = refl
taken_let_go r kind (some i) = refl

pub dropped_let_go :
    (r : Resource) (kind : ℕ → Resource) (p : Option ℕ)
    → dropped r (on_pointer drops kind p) ≡ refers r kind p
dropped_let_go r kind none = refl
dropped_let_go r kind (some i) = omega arith

pub taken_first :
    (r : Resource) (kind : ℕ → Resource) (p : Option ℕ)
    → taken r (on_pointer takes kind p) ≡ refers r kind p
taken_first r kind none = refl
taken_first r kind (some i) = omega arith

pub dropped_first :
    (r : Resource) (kind : ℕ → Resource) (p : Option ℕ) → dropped r (on_pointer takes kind p) ≡ 0
dropped_first r kind none = refl
dropped_first r kind (some i) = refl

pub taken-append : (r : Resource) (a b : List Effect) → taken r (a ++ b) ≡ taken r a + taken r b
taken-append r [] b = omega arith
taken-append r (takes s ∷ a) b = omega (arith, taken-append r a b)
taken-append r (drops s ∷ a) b = taken-append r a b

pub dropped-append :
    (r : Resource) (a b : List Effect) → dropped r (a ++ b) ≡ dropped r a + dropped r b
dropped-append r [] b = omega arith
dropped-append r (takes s ∷ a) b = dropped-append r a b
dropped-append r (drops s ∷ a) b = omega (arith, dropped-append r a b)

taken-unref_socket : (r : Resource) (socket : Option HeldSocket) → taken r (unref_socket socket) ≡ 0
unfolding unref_socket
taken-unref_socket r none = refl
taken-unref_socket r (some socket) = omega (
  arith,
  taken-append r (on_pointer drops ssl_object socket.ssl)
      (on_pointer drops proxy_object socket.proxy),
  taken_let_go r ssl_object socket.ssl,
  taken_let_go r proxy_object socket.proxy,
)

dropped-unref_socket :
    (r : Resource) (socket : Option HeldSocket)
    → dropped r (unref_socket socket) + forgotten socket r ≡ kept socket r + over socket r
unfolding unref_socket
dropped-unref_socket r none = refl
dropped-unref_socket r (some socket) = omega (
  arith,
  dropped-append r (on_pointer drops ssl_object socket.ssl)
      (on_pointer drops proxy_object socket.proxy),
  dropped_let_go r ssl_object socket.ssl,
  dropped_let_go r proxy_object socket.proxy,
)

pub taken_create :
    (r : Resource) (c : Settings) → taken r (create_socket c).1 ≡ kept (some (create_socket c).0) r
unfolding create_socket
taken_create r c = omega (
  arith,
  taken-append r (on_pointer takes main_context c.context) (on_pointer takes proxy_object c.proxy),
  taken_first r main_context c.context,
  taken_first r proxy_object c.proxy,
)

pub dropped_create : (r : Resource) (c : Settings) → dropped r (create_socket c).1 ≡ 0
unfolding create_socket
dropped_create r c = omega (
  arith,
  dropped-append r (on_pointer takes main_context c.context)
      (on_pointer takes proxy_object c.proxy),
  dropped_first r main_context c.context,
  dropped_first r proxy_object c.proxy,
)

pub taken_free : (r : Resource) (c : Settings) → taken r (free_settings c) ≡ 0
unfolding free_settings
taken_free r c =
    let exchanged = taken-exchange r disconnect_data (data_of c.disconnect_cb) none in
    let last = on_pointer drops main_context c.context ++ unref_socket c.socket in
    omega (
      arith,
      exchanged,
      taken-append r
          (on_pointer drops disconnect_data (data_of c.disconnect_cb)
            ++ on_pointer takes disconnect_data none)
          (on_pointer drops proxy_object c.proxy ++ last),
      taken-append r (on_pointer drops proxy_object c.proxy) last,
      taken-append r (on_pointer drops main_context c.context) (unref_socket c.socket),
      taken_let_go r proxy_object c.proxy,
      taken_let_go r main_context c.context,
      taken-unref_socket r c.socket,
    )

pub dropped_free :
    (r : Resource) (c : Settings)
    → dropped r (free_settings c) + refers r ssl_object c.ssl + forgotten c.socket r
      ≡ held c r + over c.socket r
unfolding free_settings
dropped_free r c =
    let exchanged = dropped-exchange r disconnect_data (data_of c.disconnect_cb) none in
    let last = on_pointer drops main_context c.context ++ unref_socket c.socket in
    omega (
      arith,
      exchanged,
      dropped-append r
          (on_pointer drops disconnect_data (data_of c.disconnect_cb)
            ++ on_pointer takes disconnect_data none)
          (on_pointer drops proxy_object c.proxy ++ last),
      dropped-append r (on_pointer drops proxy_object c.proxy) last,
      dropped-append r (on_pointer drops main_context c.context) (unref_socket c.socket),
      dropped_let_go r proxy_object c.proxy,
      dropped_let_go r main_context c.context,
      dropped-unref_socket r c.socket,
    )
