-- ===== src/Connection/Replies.antt =====
-- The handler of a reply runs once (loudmouth/lm-connection.c).
use loudmouth.Base.{
  ℕ, ◌≡◌, ◌≢◌, refl, sym, ap, ◌∙◌, false, List, [], ◌∷◌, Option, none, some, arith, Text, codes,
  str_eq, str_eq_iff, str_eq_self, Bool-cases, Option-cases, inl, inr, subst,
}
use loudmouth.Node.{get_attribute, set_attributes}
use loudmouth.Node.Attributes.{HasUniqueKeys, get_attribute-set_attribute}
use loudmouth.Message.{Message}
use loudmouth.Handler.{HandlerResult, allow_more_handlers, Handler, handle_message}
use loudmouth.Connection.Registry.{
  hash_lookup, hash_remove, hash_insert, Registry, send_with_reply, run_reply_handler,
  run_message_handler,
}

module _ {ℓ} {A : Type ℓ} where
  hash_lookup-remove_self :
      (key : Text) (t : List (Text × A)) → hash_lookup key (hash_remove key t) ≡ none
  unfolding hash_lookup hash_remove
  hash_lookup-remove_self key [] = refl
  hash_lookup-remove_self key ((k, v) ∷ rest) = ground (arith, hash_lookup-remove_self key rest)

  hash_lookup-remove_ne :
      (key other : Text) (t : List (Text × A))
      → str_eq key other ≡ false
      → hash_lookup other (hash_remove key t) ≡ hash_lookup other t
  unfolding hash_lookup hash_remove
  hash_lookup-remove_ne key other [] h = refl
  hash_lookup-remove_ne key other ((k, v) ∷ rest) h = ground (
    arith,
    h,
    str_eq_iff k key,
    str_eq_iff k other,
    str_eq_iff key other,
    hash_lookup-remove_ne key other rest h,
  )

abbrev pub id_of : Message → Option Text
id_of m = get_attribute m.node (some (codes "id"))

-- The handler of a text in the table of a connection.
abbrev pub handler_for : Text → Registry → Option ℕ
handler_for id c = hash_lookup id c.id_handlers

sent_id :
    (new_id : Text) (c : Registry) (m : Message) (handler : ℕ)
    → HasUniqueKeys m.node
    → (id : Text) × (id_of (send_with_reply new_id c m handler).1 ≡ some id)
      × ((send_with_reply new_id c m handler).0
          ≡ record c { id_handlers = hash_insert id handler c.id_handlers })
unfolding send_with_reply set_attributes str_eq
sent_id new_id c m handler u = elim (Option-cases (id_of m)) [
  | inl e ↦ (
    new_id,
    rw (send_with_reply, e) (get_attribute-set_attribute m.node (codes "id") new_id (codes "id") u),
    rw (send_with_reply, e),
  )
  | inr (id, e) ↦ (id, rw (send_with_reply, e) e, rw (send_with_reply, e))
]

str_eq-ne : (id other : Text) → some id ≢ some other → str_eq id other ≡ false
str_eq-ne id other n = elim (Bool-cases (str_eq id other)) [
  | inl e ↦ absurd (n (ap some ((str_eq_iff id other).0 e)))
  | inr e ↦ e
]

inserted_other :
    (id other : Text) (handler : ℕ) (t : List (Text × ℕ))
    → str_eq id other ≡ false
    → hash_lookup other (hash_remove id (hash_insert id handler t)) ≡ hash_lookup other t
unfolding hash_lookup hash_insert
inserted_other id other handler t d =
    hash_lookup-remove_ne id other (hash_insert id handler t) d
    ∙ rw (hash_lookup, d) (hash_lookup-remove_ne id other t d)

inserted :
    (id : Text) (handler : ℕ) (t : List (Text × ℕ))
    → hash_lookup id (hash_insert id handler t) ≡ some handler
unfolding hash_lookup hash_insert
inserted id handler t = rw (str_eq_self id)

module _ {W : Type 0} (handler_at : ℕ → Handler W Message) where
  answered :
      (w : W) (c : Registry) (m : Message) (id : Text) (handler : ℕ)
      → id_of m ≡ some id
      → handler_for id c ≡ some handler
      → run_message_handler handler_at w c m ≡ (
        (handle_message (handler_at handler) w m).0,
        record c { id_handlers = hash_remove id c.id_handlers },
        (handle_message (handler_at handler) w m).1,
      )
  unfolding run_message_handler run_reply_handler
  answered w c m id handler e f =
      rw (run_message_handler, e) (ap (run_reply_handler handler_at w c m id) f)

  unanswered :
      (w : W) (c : Registry) (m : Message) (id : Text)
      → id_of m ≡ some id
      → handler_for id c ≡ none
      → run_message_handler handler_at w c m ≡ (w, c, allow_more_handlers)
  unfolding run_message_handler run_reply_handler
  unanswered w c m id e f =
      rw (run_message_handler, e) (ap (run_reply_handler handler_at w c m id) f)

-- What a run of the handlers for replies has done, if it was the first for this handler.
abbrev AnswersOnce :
    {W : Type 0}
    → (ℕ → Handler W Message)
    → Registry
    → ℕ
    → W
    → W
    → Message
    → Message
    → Text
    → W × Registry × HandlerResult
    → Type 0
AnswersOnce {W} handler_at c handler w v reply later other (w', answered, result) =
    ((w', result) ≡ handle_message (handler_at handler) w reply)
    × (run_message_handler handler_at v answered later ≡ (v, answered, allow_more_handlers))
    × (handler_for other answered ≡ handler_for other c)

-- After lm_connection_send_with_reply, with an id of the message's own or a new one, the first
-- message with that id is given to the handler and to no other. Another message with that id, in
-- whatever state, is not, and passes by unchanged. What any other id is waited for by is as before
-- the call.
pub run_message_handler-send_with_reply :
    {W : Type 0} (handler_at : ℕ → Handler W Message) (new_id : Text) (c : Registry) (m : Message)
    (handler : ℕ) (w v : W) (reply later : Message) (other : Text)
    → HasUniqueKeys m.node
    → id_of reply ≡ id_of (send_with_reply new_id c m handler).1
    → id_of later ≡ id_of reply
    → id_of reply ≢ some other
    → let sent = (send_with_reply new_id c m handler).0 in
      let (w', answered, result) = run_message_handler handler_at w sent reply in
      ((w', result) ≡ handle_message (handler_at handler) w reply)
      × (run_message_handler handler_at v answered later ≡ (v, answered, allow_more_handlers))
      × (handler_for other answered ≡ handler_for other c)
run_message_handler-send_with_reply handler_at new_id c m handler w v reply later other u e f n =
    let (id, known, stored) = sent_id new_id c m handler u in
    let t = hash_insert id handler c.id_handlers in
    let run =
      answered handler_at w (record c { id_handlers = t }) reply id handler (e ∙ known)
        (inserted id handler c.id_handlers) in
    let differ = str_eq-ne id other (subst (λ o. o ≢ some other) (e ∙ known) n) in
    subst (AnswersOnce handler_at c handler w v reply later other)
      (sym (ap (λ s. run_message_handler handler_at w s reply) stored ∙ run))
      (
        refl,
        unanswered handler_at v (record c { id_handlers = hash_remove id t }) later id
            (f ∙ e ∙ known) (hash_lookup-remove_self id t),
        inserted_other id other handler c.id_handlers differ,
      )
