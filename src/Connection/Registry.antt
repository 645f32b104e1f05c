-- ===== src/Connection/Registry.antt =====
-- The handlers of a connection (loudmouth/lm-connection.c), and which of them see a message.
use loudmouth.Base.{
  ℕ, Bool, List, [], ◌∷◌, Option, none, some, Text, codes, str_eq, leb, ◌==◌, if◌then◌else◌,
}
use loudmouth.Node.{get_attribute, set_attributes}
use loudmouth.Message.{Message, MessageType, type_eq}
use loudmouth.Handler.{HandlerResult, remove_message, allow_more_handlers, Handler, handle_message}

-- GLib's hash tables from texts, as association lists in which a key stands once.
module _ {ℓ} {A : Type ℓ} where
  unfoldable pub hash_lookup : Text → List (Text × A) → Option A
  hash_lookup key [] = none
  hash_lookup key ((k, v) ∷ rest) = if str_eq k key then some v else hash_lookup key rest

  unfoldable pub hash_remove : Text → List (Text × A) → List (Text × A)
  hash_remove key [] = []
  hash_remove key ((k, v) ∷ rest) =
      let others = hash_remove key rest in if str_eq k key then others else (k, v) ∷ others

  unfoldable pub hash_insert : Text → A → List (Text × A) → List (Text × A)
  unfolding hash_remove
  hash_insert key v t = (key, v) ∷ hash_remove key t

-- `HandlerData`. A pointer to a handler is a number.
pub record HandlerData : Type 0 where
  pub priority : ℕ
  pub handler : ℕ

-- Of `struct _LmConnection`: `id_handlers`, and `handlers` with its list for each type.
pub record Registry : Type 0 where
  pub id_handlers : List (Text × ℕ)
  pub handlers : MessageType → List HandlerData

abbrev pub no_handlers : Registry
no_handlers = record { id_handlers = []; handlers = λ type. [] }

-- `connection_handler_compare_func (a, b) <= 0`
abbrev pub may_precede : HandlerData → HandlerData → Bool
may_precede a b = leb b.priority a.priority

-- An assignment to `connection->handlers[type]`.
abbrev pub with_handlers : Registry → MessageType → List HandlerData → Registry
with_handlers c type l = record c { handlers = λ t. if type_eq t type then l else c.handlers t }

-- The loop of `lm_connection_unregister_message_handler`, which ends at the first match.
unfoldable pub without_handler : ℕ → List HandlerData → List HandlerData
without_handler handler [] = []
without_handler handler (hd ∷ rest) =
    let others = without_handler handler rest in if handler == hd.handler then rest else hd ∷ others

-- `lm_connection_unregister_message_handler`
unfoldable pub unregister_message_handler : Registry → ℕ → MessageType → Registry
unregister_message_handler c handler type =
    with_handlers c type (without_handler handler (c.handlers type))

-- `g_slist_insert_sorted` of GLib is a parameter; its comparison says whether one element may stand
-- before another.
module _
    (insert_sorted : List HandlerData
      → HandlerData
      → (HandlerData → HandlerData → Bool)
      → List HandlerData) where
  -- `lm_connection_register_message_handler`
  unfoldable pub register_message_handler : Registry → ℕ → MessageType → ℕ → Registry
  register_message_handler c handler type priority = with_handlers c type (
      insert_sorted (c.handlers type) (record { priority = priority; handler = handler })
        may_precede)

-- What `lm_connection_send_with_reply` does before it sends: the message as it is sent. The id that
-- `_lm_utils_generate_id` makes is given.
unfoldable pub send_with_reply : Text → Registry → Message → ℕ → Registry × Message
unfolding hash_insert
send_with_reply new_id c m handler = elim (get_attribute m.node (some (codes "id"))) [
  | some id ↦ (record c { id_handlers = hash_insert id handler c.id_handlers }, m)
  | none ↦ (
    record c { id_handlers = hash_insert new_id handler c.id_handlers },
    record m { node = set_attributes m.node ((codes "id", some new_id) ∷ []) },
  )
]

-- The handlers that the pointers stand for. A callback changes the state `W`, which holds neither
-- the registry nor the handlers.
module _ {W : Type 0} (handler_at : ℕ → Handler W Message) where
  -- The part of `connection_run_message_handler` behind the look-up.
  unfoldable pub run_reply_handler :
      W → Registry → Message → Text → Option ℕ → W × Registry × HandlerResult
  run_reply_handler w c m id none = (w, c, allow_more_handlers)
  run_reply_handler w c m id (some handler) =
      let (w', result) = handle_message (handler_at handler) w m in
      (w', record c { id_handlers = hash_remove id c.id_handlers }, result)

  -- `connection_run_message_handler`
  unfoldable pub run_message_handler : W → Registry → Message → W × Registry × HandlerResult
  unfolding run_reply_handler
  run_message_handler w c m = elim (get_attribute m.node (some (codes "id"))) [
    | none ↦ (w, c, allow_more_handlers)
    | some id ↦ run_reply_handler w c m id (hash_lookup id c.id_handlers)
  ]

  -- The loop of `connection_handle_message` over the handlers of a type.
  unfoldable pub run_handlers : W → List HandlerData → Message → W × HandlerResult
  run_handlers w [] m = (w, allow_more_handlers)
  run_handlers w (hd ∷ l) m =
      let (w', result) = handle_message (handler_at hd.handler) w m in
      elim result [
        | remove_message ↦ (w', remove_message)
        | allow_more_handlers ↦ run_handlers w' l m
      ]
