-- ===== src/Connection/Holding.antt =====
-- The objects that a connection holds for the program (loudmouth/lm-connection.c).
pub mod Counts
use loudmouth.Base.{ℕ, ◌+◌, ◌≡◌, List, [], ◌∷◌, ◌++◌, Option, none, Text, if◌then◌else◌, ◌==◌}
use loudmouth.Proxy.{ProxyType}
use loudmouth.Connection.Link.{State}
use loudmouth.Connection.Settings.{
  Resource, Effect, drops, Settings, is_open, set_jid, set_port, set_ssl, set_proxy,
  set_disconnect_function, set_server, new_with_context, free_settings, do_open, create_socket,
}
use loudmouth.Connection.Holding.Counts.{taken, dropped, held, kept}

-- What the program and the main loop do with the connection, whose state changes meanwhile.
pub data Call : Type 0 where
  sets_server : Text → Call
  sets_jid : Option Text → Call
  sets_port : ℕ → Call
  sets_ssl : Option ℕ → Call
  sets_proxy : Option (ℕ × ProxyType) → Call
  sets_disconnect_function : Option (Option ℕ) → Call
  opens : Call
  comes_to : State → Call

module _ (to_punycode : Text → Text) where
  unfoldable pub call : Settings → Call → Settings × List Effect
  unfolding set_server set_jid set_port set_ssl set_proxy set_disconnect_function do_open
  call c (sets_server server) = set_server to_punycode server c
  call c (sets_jid jid) = set_jid jid c
  call c (sets_port port) = set_port port c
  call c (sets_ssl ssl) = set_ssl ssl c
  call c (sets_proxy proxy) = set_proxy proxy c
  call c (sets_disconnect_function callback) = set_disconnect_function callback c
  call c opens = do_open c
  call c (comes_to state) = (record c { state = state }, [])

  unfoldable pub calls : Settings → List Call → Settings × List Effect
  unfolding call
  calls c [] = (c, [])
  calls c (k ∷ ks) =
      let (next, es) = call c k in let (last, later) = calls next ks in (last, es ++ later)

  -- The references of the earlier socket that a call overwrites the pointer to.
  abbrev pub lost_by : Settings → Call → Resource → ℕ
  lost_by c opens r = if is_open c then 0 else kept c.socket r
  lost_by c _ r = 0

  abbrev pub lost : Settings → List Call → Resource → ℕ
  lost c [] r = 0
  lost c (k ∷ ks) r = lost_by c k r + lost (call c k).0 ks r

  -- What is held at first and what is taken is what is dropped, held at last or lost.
  abbrev Balances : Settings → Settings × List Effect → ℕ → Resource → Type 0
  Balances c (c', es) gone r = held c r + taken r es ≡ dropped r es + held c' r + gone

  -- All that is done from a new connection to its end.
  abbrev pub life : Option Text → Option ℕ → List Call → List Effect
  life server context ks =
      let (c, first) = new_with_context to_punycode server context in
      let (last, es) = calls c ks in first ++ (es ++ free_settings last)

  -- The connection before it is freed.
  abbrev pub at_last : Option Text → Option ℕ → List Call → Settings
  at_last server context ks = (calls (new_with_context to_punycode server context).0 ks).0
