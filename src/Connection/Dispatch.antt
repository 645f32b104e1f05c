-- ===== src/Connection/Dispatch.antt =====
-- A message on its way from the queue to the handlers and the connection (loudmouth/lm-connection.c).
use mathlib.Core.List.{append-nil}
use loudmouth.Base.{
  ℕ, ◌≡◌, refl, sym, ap, ◌∙◌, Bool, List, [], ◌∷◌, ◌++◌, Option, none, some, if◌then◌else◌,
}
use loudmouth.Message.{Message, MessageType, stream, type_eq, type_number}
use loudmouth.Message as M
use loudmouth.Handler.{HandlerResult, remove_message, allow_more_handlers, Handler}
use loudmouth.Queue.{Queue, push_tail, pop_nth}
use loudmouth.Queue.Order.{Turn, incoming, dispatch, turns, to_list, arrived, turns-arrived}
use loudmouth.Connection.Link.{Link, Effect, stream_received, stream_error}
use loudmouth.Connection.Registry.{Registry, run_message_handler, run_handlers}

-- The state that callbacks change, the registry of handlers and the link.
pub record Connection (W : Type 0) : Type 0 where
  pub world : W
  pub registry : Registry
  pub link : Link

-- The socket says if it uses StartTLS. A callback changes neither the registry nor the link.
module _ {W : Type 0} (handler_at : ℕ → Handler W Message) (use_starttls : Bool) where
  -- `connection_handle_message` after the handler for a reply: what the loop over the other handlers
  -- gives is not looked at.
  unfoldable pub handle_further :
      Connection W → Message → HandlerResult → Connection W × List Effect
  unfolding run_handlers stream_error
  handle_further c m remove_message = (c, [])
  handle_further c m allow_more_handlers =
      let (w, _) = run_handlers handler_at c.world (c.registry.handlers m.type) m in
      let (link, es) = stream_error m c.link in
      if type_eq m.type M.stream_error
      then (record c { world = w; link = link }, es)
      else (record c { world = w }, [])

  -- `connection_handle_message`
  unfoldable pub connection_handle_message : Connection W → Message → Connection W × List Effect
  unfolding stream_received run_message_handler handle_further
  connection_handle_message c m =
      let (link, es) = stream_received use_starttls m c.link in
      let (w, registry, result) = run_message_handler handler_at c.world c.registry m in
      if type_eq m.type stream
      then (record c { link = link }, es)
      else handle_further (record c { world = w; registry = registry }) m result

  -- `connection_message_queue_cb`, by the message that is taken out.
  unfoldable pub handle_popped : Connection W → Option Message → Connection W × List Effect
  unfolding connection_handle_message
  handle_popped c none = (c, [])
  handle_popped c (some m) = connection_handle_message c m

  -- `connection_message_queue_cb`
  unfoldable pub message_queue_cb :
      Queue Message → Connection W → Queue Message × Connection W × List Effect
  unfolding pop_nth handle_popped
  message_queue_cb queue c =
      let (rest, m) = pop_nth queue 0 in let (next, es) = handle_popped c m in (rest, next, es)

  -- The turns of the main loop: `connection_new_message_cb` and `connection_message_queue_cb`.
  unfoldable pub run_turns :
      Queue Message
      → Connection W
      → List (Turn Message)
      → Queue Message × Connection W × List Effect
  unfolding push_tail message_queue_cb
  run_turns queue c [] = (queue, c, [])
  run_turns queue c (incoming m ∷ ts) = run_turns (push_tail queue m) c ts
  run_turns queue c (dispatch ∷ ts) =
      let (rest, next, es) = message_queue_cb queue c in
      let (last, final, later) = run_turns rest next ts in (last, final, es ++ later)

  -- Messages handled one after the other.
  abbrev pub handle_all : Connection W → List Message → Connection W × List Effect
  handle_all c [] = (c, [])
  handle_all c (m ∷ ms) =
      let (next, es) = connection_handle_message c m in
      let (last, later) = handle_all next ms in (last, es ++ later)

  handle_all-popped :
      (c : Connection W) (o : Option Message) (later : List Message)
      → let (next, es) = handle_popped c o in
        handle_all c (to_list o ++ later)
        ≡ ((handle_all next later).0, es ++ (handle_all next later).1)
  unfolding handle_popped
  handle_all-popped c none later = refl
  handle_all-popped c (some m) later = refl

  run_turns-turns :
      (queue : Queue Message) (c : Connection W) (ts : List (Turn Message))
      → let (rest, handled) = turns queue ts in
        run_turns queue c ts ≡ (rest, (handle_all c handled).0, (handle_all c handled).1)
  unfolding run_turns turns
  run_turns-turns queue c [] = refl
  run_turns-turns queue c (incoming m ∷ ts) = run_turns-turns (push_tail queue m) c ts
  run_turns-turns queue c (dispatch ∷ ts) =
      let (rest, popped) = pop_nth queue 0 in
      let (next, es) = handle_popped c popped in
      ap
        (λ ((last, final, later) : Queue Message × Connection W × List Effect).
          (last, final, es ++ later))
        (run_turns-turns rest next ts)
      ∙ ap (λ ((final, all) : Connection W × List Effect). ((turns rest ts).0, final, all))
          (sym (handle_all-popped c popped (turns rest ts).1))

  -- If no message waits at the end, what has been done, however the callback of the queue was called
  -- between the arrivals, is to handle those that waited and then those that came in, in their order
  -- and each once.
  pub run_turns-arrived :
      (queue : Queue Message) (c : Connection W) (ts : List (Turn Message))
      → (run_turns queue c ts).0.messages ≡ []
      → let (last, final, es) = run_turns queue c ts in
        (final, es) ≡ handle_all c (queue.messages ++ arrived ts)
  run_turns-arrived queue c ts h =
      let (rest, handled) = turns queue ts in
      let whole = run_turns-turns queue c ts in
      let none_left : rest.messages ≡ [] = sym (ap (λ r. r.0.messages) whole) ∙ h in
      let all : handled ≡ queue.messages ++ arrived ts =
        sym (append-nil handled)
        ∙ ap (λ ms. handled ++ ms) (sym none_left)
        ∙ turns-arrived queue ts in
      ap (λ ((last, final, es) : Queue Message × Connection W × List Effect). (final, es)) whole
      ∙ ap (handle_all c) all
