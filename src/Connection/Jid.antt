-- ===== src/Connection/Jid.antt =====
-- The server's name in a JID (loudmouth/lm-connection.c).
use mathlib.Core.List.{append-nil, append_assoc}
use loudmouth.Base.{ℕ, ◌≡◌, refl, sym, ap, ◌∙◌, [], ◌∷◌, ◌++◌, Option, none, some, arith, Text}
use loudmouth.Sasl.Challenge.{take_until}
use loudmouth.Sasl.Challenge.RoundTrip.{Lacks, take_until-Lacks}

-- What stands behind the `@` that `strchr` finds, up to a slash: `strchr` finds none if nothing is
-- left, and then the rest is the server.
unfoldable pub server_behind : Text → Option Text
unfolding take_until
server_behind [] = none
server_behind (sign ∷ rest) = some (take_until b'/' rest).0

-- `connection_get_server_from_jid`: the server, or `none` for `FALSE`.
unfoldable pub get_server_from_jid : Option Text → Option Text
unfolding take_until
get_server_from_jid none = none
get_server_from_jid (some jid) = server_behind (take_until b'@' jid).1

-- A JID as it is written: `node@domain`, with `/resource` behind it if there is one.
abbrev pub resource_part : Option Text → Text
resource_part none = []
resource_part (some resource) = b'/' ∷ resource

take_until-all : (stop : ℕ) (a : Text) → Lacks stop a → take_until stop a ≡ (a, [])
unfolding take_until
take_until-all stop [] h = refl
take_until-all stop (c ∷ cs) h = ground (arith, take_until-all stop cs h.1)

domain_found :
    (domain : Text) (resource : Option Text)
    → Lacks b'/' domain
    → (take_until b'/' (domain ++ resource_part resource)).0 ≡ domain
domain_found domain none h =
    ap (λ d. (take_until b'/' d).0) (append-nil domain)
    ∙ ap (λ p. p.0) (take_until-all b'/' domain h)
domain_found domain (some resource) h = ap (λ p. p.0) (take_until-Lacks b'/' domain resource h)

-- The server of a JID with a node is its domain, with or without a resource and whatever stands in
-- that, if the node has no `@` and the domain no slash.
pub get_server_from_jid-domain :
    (name domain : Text) (resource : Option Text)
    → Lacks b'@' name
    → Lacks b'/' domain
    → get_server_from_jid (some (name ++ b'@' ∷ (domain ++ resource_part resource))) ≡ some domain
unfolding get_server_from_jid server_behind
get_server_from_jid-domain name domain resource h k =
    rw (take_until-Lacks b'@' name (domain ++ resource_part resource) h)
      (ap some (domain_found domain resource k))

Lacks-append : (x : ℕ) (a b : Text) → Lacks x a → Lacks x b → Lacks x (a ++ b)
Lacks-append x [] b h k = k
Lacks-append x (c ∷ cs) b h k = (h.0, Lacks-append x cs b h.1 k)

-- A JID without a node, but with an `@` in its resource, is taken apart at the first one: if the
-- domain has none, the server found is what stands behind it, up to the next slash, and not the
-- domain.
get_server_from_jid-resource :
    (domain before behind : Text) (more : Option Text)
    → Lacks b'@' domain
    → Lacks b'@' before
    → Lacks b'/' behind
    → get_server_from_jid
        (some (domain ++ b'/' ∷ (before ++ b'@' ∷ (behind ++ resource_part more))))
      ≡ some behind
get_server_from_jid-resource domain before behind more h k l =
    ap (λ t. get_server_from_jid (some t))
      (sym (append_assoc domain (b'/' ∷ before) (b'@' ∷ (behind ++ resource_part more))))
    ∙ get_server_from_jid-domain (domain ++ b'/' ∷ before) behind more
        (Lacks-append b'@' domain (b'/' ∷ before) h (refl, k)) l
