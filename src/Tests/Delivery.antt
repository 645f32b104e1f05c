-- ===== src/Tests/Delivery.antt =====
-- Tests of the model of loudmouth/lm-message-queue.c and of the way of a message to its handlers.
use loudmouth.Base.{
  ℕ, ◌≡◌, ◌+◌, true, false, refl, List, [], ◌∷◌, ◌++◌, none, some, Text, codes, str_eq,
}
use loudmouth.Node.{node, nil, get_attribute}
use loudmouth.Message.{Message, type_number, MessageType, SubType}
use loudmouth.Queue.{Queue, nth, without_nth, new, take_reply}
use loudmouth.Handler.{Handler, allow_more_handlers, handle_message}
use loudmouth.Connection.Link as Link
use loudmouth.Connection.Registry.{hash_lookup}
use loudmouth.Connection.Dispatch.{Connection, run_turns, handle_all, run_turns-arrived}
use loudmouth.Queue.Order.{Turn, incoming, dispatch, arrived}
use loudmouth.Queue.Reply.{first_reply, take_reply-first_reply}
use loudmouth.Queue.Sources.{
  Call, attach_to, push, pop, calls, replay, idle_loop, loop_of, calls-loop_of,
}

-- Attached, moved to another context, attached there again, and used.
abbrev moved : List (Call ℕ)
moved =
    attach_to 100 none
    ∷ push 1
    ∷ attach_to 101 (some 7)
    ∷ attach_to 102 (some 7)
    ∷ push 2
    ∷ pop 0
    ∷ []

calls-loop_of_example :
    replay idle_loop (calls new moved).1
    ≡ loop_of (calls new moved).0.source (calls new moved).0.context
calls-loop_of_example = calls-loop_of moved

abbrev iq_with : Text → Message
iq_with id = record {
  node = node (some (codes "iq")) none false ((codes "id", id) ∷ []) nil;
  type = MessageType.iq;
  sub_type = SubType.result;
}

abbrev replies : Queue Message
replies = record {
  messages = iq_with (codes "1") ∷ iq_with (codes "2") ∷ iq_with (codes "3") ∷ [];
  context = none;
  source = none;
  ref_count = 1;
}

take_reply-first_reply_example :
    take_reply (codes "2") replies
    ≡ some (
      iq_with (codes "2"),
      record replies { messages = iq_with (codes "1") ∷ iq_with (codes "3") ∷ [] },
    )
unfolding first_reply get_attribute str_eq
take_reply-first_reply_example = take_reply-first_reply (codes "2") replies

-- A handler that counts, registered for an iq, in a connection that is open.
abbrev counter : ℕ → Handler ℕ Message
counter i = record {
  valid = true;
  ref_count = 1;
  function = some (λ w m. (w + 1, allow_more_handlers));
  notify = none;
}

abbrev listening : Connection ℕ
listening = record {
  world = 0;
  registry = record {
    id_handlers = [];
    handlers = λ type. record { priority = 1; handler = 0 } ∷ [];
  };
  link = Link.new;
}

-- The three replies wait, one more comes in, and the callback of the queue is called five times.
abbrev busy : List (Turn Message)
busy = dispatch ∷ dispatch ∷ incoming (iq_with (codes "4")) ∷ dispatch ∷ dispatch ∷ dispatch ∷ []

all_counted : (run_turns counter false replies listening busy).1.world ≡ 4
unfolding run_turns Link.new nth without_nth type_number get_attribute hash_lookup handle_message
    str_eq
all_counted = refl

run_turns-arrived_example :
    let (last, final, es) = run_turns counter false replies listening busy in
    (final, es) ≡ handle_all counter false listening (replies.messages ++ arrived busy)
unfolding run_turns without_nth
run_turns-arrived_example = run_turns-arrived counter false replies listening busy refl
