-- ===== src/Queue.antt =====
-- loudmouth/lm-message-queue.c: the messages that wait for the main loop, and its source there; and
-- the search for a reply in loudmouth/lm-connection.c.
pub mod Sources
pub mod Order
pub mod Reply
use loudmouth.Base.{
  ℕ, zero, suc, ◌+◌, ◌-◌, ◌≡◌, refl, Bool, true, false, not, ◌&&◌, ◌||◌, List, [], ◌∷◌, ◌++◌,
  Option, none, some, arith, ◌==◌, if◌then◌else◌, length, Text, opt_str_eq, leb, codes,
}
use loudmouth.Node.{get_attribute}
use loudmouth.Message.{Message}

-- Pointers to a `GMainContext` and to a `GSource` are numbers, `NULL` is `none`.
-- `struct _LmMessageQueue`. Its callback is `connection_message_queue_cb`.
pub record Queue (M : Type 0) : Type 0 where
  pub messages : List M
  pub context : Option ℕ
  pub source : Option ℕ
  pub ref_count : ℕ

-- What it does to the main loop, and the messages that it gives up.
pub data Effect (M : Type 0) : Type 0 where
  attaches : ℕ → Option ℕ → Effect M
  destroys : ℕ → Effect M
  refs_context unrefs_context : ℕ → Effect M
  unrefs_message : M → Effect M

-- Equality of two pointers.
abbrev pub same : Option ℕ → Option ℕ → Bool
same none none = true
same (some a) (some b) = a == b
same _ _ = false

module _ {M : Type 0} where
  -- `lm_message_queue_new`
  unfoldable pub new : Queue M
  new = record { messages = []; context = none; source = none; ref_count = 1 }

  -- `lm_message_queue_detach`
  unfoldable pub detach : Queue M → Queue M × List (Effect M)
  detach queue =
      let destroyed : List (Effect M) = elim queue.source [
        | none ↦ []
        | some source ↦ destroys source ∷ []
      ] in
      let unreffed : List (Effect M) = elim queue.context [
        | none ↦ []
        | some context ↦ unrefs_context context ∷ []
      ] in
      (record queue { source = none; context = none }, destroyed ++ unreffed)

  -- The part of `lm_message_queue_attach` behind the check: `source` is the new one.
  unfoldable pub attach_new : ℕ → Option ℕ → Queue M → Queue M × List (Effect M)
  attach_new source none queue =
      (record queue { source = some source }, attaches source queue.context ∷ [])
  attach_new source (some context) queue = (
    record queue { context = some context; source = some source },
    refs_context context ∷ attaches source (some context) ∷ [],
  )

  -- `lm_message_queue_attach`
  unfoldable pub attach : ℕ → Queue M → Option ℕ → Queue M × List (Effect M)
  attach source queue context = elim queue.source [
    | none ↦ attach_new source context queue
    | some old ↦
        if same queue.context context
        then (queue, [])
        else (let (detached, before) = detach queue in
            let (attached, after) = attach_new source context detached in
            (attached, before ++ after))
  ]

  -- `lm_message_queue_push_tail`
  unfoldable pub push_tail : Queue M → M → Queue M
  push_tail queue m = record queue { messages = queue.messages ++ m ∷ [] }

  -- `g_queue_peek_nth` on a list: `NULL` if there are not so many.
  unfoldable pub nth : ℕ → List M → Option M
  nth n [] = none
  nth zero (m ∷ ms) = some m
  nth (suc n) (m ∷ ms) = nth n ms

  -- What `g_queue_pop_nth` leaves.
  unfoldable pub without_nth : ℕ → List M → List M
  without_nth n [] = []
  without_nth zero (m ∷ ms) = ms
  without_nth (suc n) (m ∷ ms) = m ∷ without_nth n ms

  -- `lm_message_queue_peek_nth`
  unfoldable pub peek_nth : Queue M → ℕ → Option M
  peek_nth queue n = nth n queue.messages

  -- `lm_message_queue_pop_nth`
  unfoldable pub pop_nth : Queue M → ℕ → Queue M × Option M
  pop_nth queue n = (record queue { messages = without_nth n queue.messages }, nth n queue.messages)

  -- `lm_message_queue_get_length`
  unfoldable pub get_length : Queue M → ℕ
  get_length queue = length queue.messages

  -- `lm_message_queue_is_empty`
  unfoldable pub is_empty : Queue M → Bool
  is_empty queue = elim queue.messages [ [] ↦ true | m ∷ ms ↦ false ]

  -- `message_queue_prepare_func`: the source is ready if a message waits.
  unfoldable pub prepare_func : Queue M → Bool
  prepare_func queue = not (is_empty queue)

  unfoldable pub unref_all : List M → List (Effect M)
  unref_all [] = []
  unref_all (m ∷ ms) = unrefs_message m ∷ unref_all ms

  -- `message_queue_free`
  unfoldable pub queue_free : Queue M → List (Effect M)
  queue_free queue = (detach queue).1 ++ unref_all queue.messages

  -- `lm_message_queue_ref`
  unfoldable pub ref : Queue M → Queue M
  ref queue = record queue { ref_count = queue.ref_count + 1 }

  -- `lm_message_queue_unref`: `none` once the queue is freed. A live queue has a count of at least
  -- one, so the count does not pass zero.
  unfoldable pub unref : Queue M → Option (Queue M) × List (Effect M)
  unref queue =
      if leb queue.ref_count 1
      then (none, queue_free queue)
      else (some (record queue { ref_count = queue.ref_count - 1 }), [])

-- The test of `lm_connection_send_with_reply_and_block`: the message has this id.
abbrev pub has_id : Text → Message → Bool
has_id id m = opt_str_eq (get_attribute m.node (some (codes "id"))) id

-- Its loop over `n`, run once more after every iteration of the main loop, with as much fuel as
-- there are messages from `n` on. The message found is taken out of the queue.
unfoldable pub find_reply : ℕ → ℕ → Text → Queue Message → Option (Message × Queue Message)
find_reply zero n id queue = none
find_reply (suc fuel) n id queue =
    let later = find_reply fuel (suc n) id queue in
    elim (peek_nth queue n) [
      | none ↦ none
      | some m ↦ if has_id id m then some (m, (pop_nth queue n).0) else later
    ]

unfoldable pub take_reply : Text → Queue Message → Option (Message × Queue Message)
take_reply id queue = find_reply (get_length queue) 0 id queue
