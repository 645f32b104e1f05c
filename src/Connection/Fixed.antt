-- ===== src/Connection/Fixed.antt =====
-- What cannot be set while a connection is open (loudmouth/lm-connection.c).
use loudmouth.Base.{ℕ, ◌≡◌, refl, Bool, true, false, List, [], ◌∷◌, Option, Text, leb, ◌&&◌}
use loudmouth.Connection.Link.{state_number}
use loudmouth.Connection.Settings.{Settings, is_open, do_open}
use loudmouth.Connection.Holding.{
  Call, sets_server, sets_jid, sets_port, sets_ssl, sets_proxy, sets_disconnect_function, opens,
  comes_to, call, calls,
}

-- Where to connect to, and as whom.
abbrev pub address : Settings → Option Text × Option Text × ℕ × Option ℕ
address c = (c.server, c.jid, c.port, c.proxy)

-- The connection does not go below being open.
abbrev pub stays_open : List Call → Bool
stays_open [] = true
stays_open (comes_to state ∷ ks) = leb 2 (state_number state) && stays_open ks
stays_open (_ ∷ ks) = stays_open ks

both : (a b : Bool) → (a && b) ≡ true → (a ≡ true) × (b ≡ true)
both true true h = (refl, refl)
both true false h = cc
both false b h = cc

module _ (to_punycode : Text → Text) where
  -- As long as a connection is open, no call changes the server, the JID, the port or the proxy.
  pub calls-address :
      (c : Settings) (ks : List Call)
      → is_open c ≡ true
      → stays_open ks ≡ true
      → address (calls to_punycode c ks).0 ≡ address c
  unfolding calls call is_open do_open
  calls-address c [] up h = refl
  calls-address c (sets_server server ∷ ks) up h = rw up (calls-address c ks up h)
  calls-address c (sets_jid jid ∷ ks) up h = rw up (calls-address c ks up h)
  calls-address c (sets_port port ∷ ks) up h = rw up (calls-address c ks up h)
  calls-address c (sets_ssl ssl ∷ ks) up h = calls-address (record c { ssl = ssl }) ks up h
  calls-address c (sets_proxy proxy ∷ ks) up h = rw up (calls-address c ks up h)
  calls-address c (sets_disconnect_function callback ∷ ks) up h =
      calls-address (record c { disconnect_cb = callback }) ks up h
  calls-address c (opens ∷ ks) up h = rw up (calls-address c ks up h)
  calls-address c (comes_to state ∷ ks) up h =
      let (next, later) = both (leb 2 (state_number state)) (stays_open ks) h in
      calls-address (record c { state = state }) ks next later
