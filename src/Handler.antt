-- ===== src/Handler.antt =====
-- loudmouth/lm-message-handler.c: a callback for incoming messages, shared by reference count.
pub mod Lifetime
use loudmouth.Base.{ℕ, ◌+◌, ◌%◌, Bool, true, false, not, Option, none, some, ◌==◌, if◌then◌else◌}

-- `LmHandlerResult`
pub data HandlerResult : Type 0 where
  remove_message allow_more_handlers : HandlerResult

-- A callback acts on the state `W` of the program and sees a message `M`.
module _ (W M : Type 0) where
  -- `struct LmMessageHandler`. `notify` frees the user data; the function has these inside.
  pub record Handler : Type 0 where
    pub valid : Bool
    pub ref_count : ℕ
    pub function : Option (W → M → W × HandlerResult)
    pub notify : Option (W → W)

module _ {W M : Type 0} where
  -- `_lm_message_handler_handle_message`
  unfoldable pub handle_message : Handler W M → W → M → W × HandlerResult
  handle_message handler w m =
      if not handler.valid
      then (w, allow_more_handlers)
      else elim handler.function [ none ↦ (w, allow_more_handlers) | some function ↦ function w m ]

  -- `lm_message_handler_new`; `NULL` for a `NULL` function.
  unfoldable pub new : Option (W → M → W × HandlerResult) → Option (W → W) → Option (Handler W M)
  new none notify = none
  new (some function) notify =
      some (record { valid = true; ref_count = 1; function = some function; notify = notify })

  -- `lm_message_handler_invalidate`
  unfoldable pub invalidate : Handler W M → Handler W M
  invalidate handler = record handler { valid = false }

  -- `lm_message_handler_is_valid`
  unfoldable pub is_valid : Handler W M → Bool
  is_valid handler = handler.valid

  -- `lm_message_handler_ref`
  unfoldable pub ref : Handler W M → Handler W M
  ref handler = record handler { ref_count = (handler.ref_count + 1) % 4294967296 }

  -- `lm_message_handler_unref`: `none` once the handler is freed. The count is a `gint`, so it keeps
  -- to 32 bits.
  unfoldable pub unref : Handler W M → W → Option (Handler W M) × W
  unref handler w =
      let ref_count = (handler.ref_count + 4294967295) % 4294967296 in
      if ref_count == 0
      then (none, elim handler.notify [ none ↦ w | some notify ↦ notify w ])
      else (some (record handler { ref_count = ref_count }), w)
