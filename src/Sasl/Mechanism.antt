-- ===== src/Sasl/Mechanism.antt =====
-- Which mechanism loudmouth/lm-sasl.c picks from those that the server offers.
use loudmouth.Base.{
  ◌≡◌, refl, ap, ◌∙◌, Bool, true, false, ◌||◌, [], Option, none, some, arith, Text, codes, str_eq,
  str_eq_iff, opt_str_eq, if◌then◌else◌, Bool-cases, inl, inr,
}
use loudmouth.Node.{Node, Children, nil, cons, get_value, children_of}
use loudmouth.Sasl.Machine.{
  is_foreign, add_mechanism, mechanism_types, set_auth_type, start, authenticate,
}
use loudmouth.Sasl.{AuthType, no_type, plain_started, digest_md5_started, Sasl, Env}

-- A child of `<mechanisms>` has this name as its value.
unfoldable pub offers : Text → Children → Bool
offers name nil = false
offers name (cons m rest) = opt_str_eq (get_value m) name || offers name rest

abbrev pub plain_name : Text
plain_name = codes "PLAIN"

abbrev pub digest_name : Text
digest_name = codes "DIGEST-MD5"

abbrev pub gssapi_name : Text
gssapi_name = codes "GSSAPI"

-- A set of types with what some children offer added.
abbrev with_offers : AuthType → Children → AuthType
with_offers t cs = record {
  plain = t.plain || offers plain_name cs;
  digest = t.digest || offers digest_name cs;
  gssapi = t.gssapi || offers gssapi_name cs;
}

-- The three names differ.
abbrev Differ : Text → Text → Type 0
Differ a b = (str_eq a b ≡ false) × (str_eq b a ≡ false)

names-Differ :
    Differ plain_name digest_name × Differ plain_name gssapi_name × Differ digest_name gssapi_name
unfolding str_eq
names-Differ = ((refl, refl), (refl, refl), (refl, refl))

add_mechanism_lem :
    (t : AuthType) (name : Option Text)
    → add_mechanism t name ≡ record {
      plain = t.plain || opt_str_eq name plain_name;
      digest = t.digest || opt_str_eq name digest_name;
      gssapi = t.gssapi || opt_str_eq name gssapi_name;
    }
unfolding add_mechanism
add_mechanism_lem t none = ground arith
add_mechanism_lem t (some name) = ground (
  arith,
  names-Differ,
  str_eq_iff name plain_name,
  str_eq_iff name digest_name,
  str_eq_iff name gssapi_name,
)

or_assoc : (a b c : Bool) → ((a || b) || c) ≡ (a || (b || c))
or_assoc a b c = ground arith

mechanism_types-offers : (t : AuthType) (cs : Children) → mechanism_types t cs ≡ with_offers t cs
unfolding mechanism_types offers
mechanism_types-offers t nil = ground arith
mechanism_types-offers t (cons m rest) =
    mechanism_types-offers (add_mechanism t (get_value m)) rest
    ∙ rw (add_mechanism_lem t (get_value m)) (simp or_assoc)

module _ (s : Sasl) (mechanisms : Node) where
  chosen_type :
      is_foreign mechanisms ≡ false
      → (set_auth_type s mechanisms).0 ≡ record s {
        auth_type = record {
          plain = offers plain_name (children_of mechanisms);
          digest = offers digest_name (children_of mechanisms);
          gssapi = offers gssapi_name (children_of mechanisms);
        };
      }
  unfolding set_auth_type
  chosen_type h =
      rw (h, set_auth_type)
        (ap (λ t. record s { auth_type = t })
          (mechanism_types-offers no_type (children_of mechanisms)))

  -- The types of `<mechanisms>` in another namespace do not count at all.
  chosen_foreign :
      is_foreign mechanisms ≡ true
      → (set_auth_type s mechanisms).0 ≡ record s { auth_type = no_type }
  unfolding set_auth_type
  chosen_foreign h = rw (h, set_auth_type)

state-authenticate :
    (env : Env) (s : Sasl)
    → (authenticate env s).0.state ≡ (
        if s.auth_type.digest
        then digest_md5_started
        else if s.auth_type.plain
        then plain_started
        else s.state)
unfolding authenticate start
state-authenticate env s = ground arith

-- Authentication with the mechanisms of a `<mechanisms>` element starts DIGEST-MD5 if that is
-- among them, at whatever place, else PLAIN if that is, and else nothing; an element that is not
-- in the namespace of SASL offers nothing.
pub authenticate-set_auth_type :
    (env : Env) (s : Sasl) (mechanisms : Node)
    → (authenticate env (set_auth_type s mechanisms).0).0.state ≡ (
        if is_foreign mechanisms
        then s.state
        else if offers digest_name (children_of mechanisms)
        then digest_md5_started
        else if offers plain_name (children_of mechanisms)
        then plain_started
        else s.state)
authenticate-set_auth_type env s mechanisms = elim (Bool-cases (is_foreign mechanisms)) [
  | inl h ↦ rw (chosen_foreign s mechanisms h, h) (state-authenticate env _)
  | inr h ↦ rw (chosen_type s mechanisms h, h) (state-authenticate env _)
]

-- If the server offers neither PLAIN nor DIGEST-MD5, nothing is sent and nobody is told: the
-- result handler is not called, whatever state the exchange is in.
authenticate_unsupported :
    (env : Env) (s : Sasl) (mechanisms : Node)
    → offers digest_name (children_of mechanisms) ≡ false
    → offers plain_name (children_of mechanisms) ≡ false
    → (authenticate env (set_auth_type s mechanisms).0).1 ≡ []
unfolding authenticate
authenticate_unsupported env s mechanisms d p = elim (Bool-cases (is_foreign mechanisms)) [
  | inl h ↦ rw (chosen_foreign s mechanisms h)
  | inr h ↦ rw (chosen_type s mechanisms h) (ground (arith, d, p))
]
