-- ===== src/Connection/Secure.antt =====
-- What is sent in the clear while a connection is authenticated (loudmouth/lm-connection.c).
use loudmouth.Base.{
  opt_str_eq, ◌≡◌, refl, ap, ◌∙◌, ◌⊎◌, inl, inr, Bool, true, false, not, Bool-cases, List, [], ◌∷◌,
  ◌++◌, Option, none, some, Text, codes, is_null, str_eq, if◌then◌else◌,
}
use loudmouth.Node.{
  Node, Children, nil, cons, name_of, children_of, first_named, get_child, get_value,
}
use loudmouth.Message.{Message}
use loudmouth.Handler.{HandlerResult, remove_message}
use loudmouth.Sasl.{AuthParameters}
use loudmouth.Connection.Link as L
use loudmouth.Connection.Account.{
  Account, Effect, sends, check_auth_type, offered_by, create_auth_msg,
}

-- The messages that are sent.
abbrev pub sent : List Effect → List Message
sent [] = []
sent (sends m ∷ es) = m ∷ sent es
sent (_ ∷ es) = sent es

-- The value of the element of that name below `query`.
abbrev pub value_below : Message → Text → Option Text
value_below m name = elim (get_child m.node (some (codes "query"))) [
  | none ↦ none
  | some query ↦ elim (get_child query (some name)) [ none ↦ none | some n ↦ get_value n ]
]

-- What the server hashes to check a digest: the id of the stream and the password.
abbrev pub digest_text : Option Text → Text → Option Text
digest_text none password = none
digest_text (some stream_id) password = some (stream_id ++ password)

auth_msg_values :
    (lm_sha_hash : Option Text → Text) (id : Text) (stream_id : Option Text)
    (params : AuthParameters) (plain digest zero_k : Bool)
    → let m =
        create_auth_msg lm_sha_hash id stream_id params
          (record { plain = plain; digest = digest; zero_k = zero_k }) in
      (value_below m (codes "username") ≡ some params.username)
      × (value_below m (codes "resource") ≡ some params.resource)
      × (value_below m (codes "digest")
          ≡ (if digest then some (lm_sha_hash (digest_text stream_id params.password)) else none))
      × (value_below m (codes "password")
          ≡ (if digest then none else if plain then some params.password else none))
unfolding create_auth_msg get_child get_value str_eq
auth_msg_values lm_sha_hash id stream_id params true false zero_k = (refl, refl, refl, refl)
auth_msg_values lm_sha_hash id stream_id params false false zero_k = (refl, refl, refl, refl)
auth_msg_values lm_sha_hash id (some s) params plain true zero_k = (refl, refl, refl, refl)
auth_msg_values lm_sha_hash id none params plain true zero_k = (refl, refl, refl, refl)

-- Whether one of the children has the name.
abbrev pub is_among : Text → Children → Bool
is_among name nil = false
is_among name (cons n cs) = if opt_str_eq (name_of n) name then true else is_among name cs

abbrev pub has_below : Option Node → Text → Bool
has_below none name = false
has_below (some query) name = is_among name (children_of query)

-- Whether there is an element of that name below `query`.
abbrev pub offers : Message → Text → Bool
offers m name = has_below (get_child m.node (some (codes "query"))) name

abbrev pub has_no_query : Message → Bool
has_no_query m = is_null (get_child m.node (some (codes "query")))

not_null-first_named :
    (name : Text) (cs : Children) → not (is_null (first_named name cs)) ≡ is_among name cs
unfolding first_named
not_null-first_named name nil = refl
not_null-first_named name (cons n cs) = elim (Bool-cases (opt_str_eq (name_of n) name)) [
  | inl same ↦ rw same refl
  | inr other ↦ rw other (not_null-first_named name cs)
]

not_null-get_child :
    (n : Node) (name : Text)
    → not (is_null (get_child n (some name))) ≡ is_among name (children_of n)
unfolding get_child
not_null-get_child n name = not_null-first_named name (children_of n)

nested :
    {A : Type 0} (a b c : Bool) (x y : A)
    → (if a then y else if (if b then true else c) then x else y)
      ≡ (if a then y else if b then x else if c then x else y)
nested a true c x y = refl
nested a false c x y = refl

-- What is offered is what there is an element for; without `query`, it is the password.
offered_by_lem :
    (query : Option Node)
    → ((offered_by query).digest ≡ has_below query (codes "digest"))
      × ((offered_by query).plain
          ≡ (if is_null query then true else has_below query (codes "password")))
unfolding offered_by
offered_by_lem none = (refl, refl)
offered_by_lem (some query) =
    (not_null-get_child query (codes "digest"), not_null-get_child query (codes "password"))

check_auth_type_lem :
    (offer : Message)
    → ((check_auth_type offer).digest ≡ offers offer (codes "digest"))
      × ((check_auth_type offer).plain
          ≡ (if has_no_query offer then true else offers offer (codes "password")))
unfolding check_auth_type
check_auth_type_lem offer = offered_by_lem (get_child offer.node (some (codes "query")))

-- The message that answers the server's offer for a user has the name, the resource and, if there is
-- an element `digest` below the offer's `query`, the hash of the stream's id with the password. The
-- password itself is in it only if there is no `digest`, and there is an element `password` or no
-- `query` at all.
pub create_auth_msg-check_auth_type :
    (lm_sha_hash : Option Text → Text) (id : Text) (stream_id : Option Text)
    (params : AuthParameters) (offer : Message)
    → let m = create_auth_msg lm_sha_hash id stream_id params (check_auth_type offer) in
      (value_below m (codes "username") ≡ some params.username)
      × (value_below m (codes "resource") ≡ some params.resource)
      × (value_below m (codes "digest") ≡ (
          if offers offer (codes "digest")
          then some (lm_sha_hash (digest_text stream_id params.password))
          else none))
      × (value_below m (codes "password") ≡ (
          if offers offer (codes "digest")
          then none
          else if has_no_query offer
          then some params.password
          else if offers offer (codes "password")
          then some params.password
          else none))
create_auth_msg-check_auth_type lm_sha_hash id stream_id params offer =
    let t = check_auth_type offer in
    let (digest, plain) = check_auth_type_lem offer in
    let hash = lm_sha_hash (digest_text stream_id params.password) in
    let (name, resource, proof, password) =
      auth_msg_values lm_sha_hash id stream_id params t.plain t.digest t.zero_k in
    (
      name,
      resource,
      proof ∙ ap (λ (b : Bool). if b then some hash else none) digest,
      password
          ∙ ap (λ (b : Bool). if b then none else if t.plain then some params.password else none)
              digest
          ∙ ap
              (λ (b : Bool).
                if offers offer (codes "digest")
                then none
                else if b
                then some params.password
                else none)
              plain
          ∙ nested (offers offer (codes "digest")) (has_no_query offer)
              (offers offer (codes "password")) (some params.password) none,
    )

-- Nothing is sent, or just this, and no other handler sees the message.
abbrev pub SendsAtMost : Message → Account × List Effect × HandlerResult → Type 0
SendsAtMost m (next, es, result) = ((sent es ≡ []) ⊎ (sent es ≡ m ∷ [])) × (result ≡ remove_message)
