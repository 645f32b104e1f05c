-- ===== src/Tests/Handlers.antt =====
-- Tests of the models of loudmouth/lm-message-handler.c and of the handlers in
-- loudmouth/lm-connection.c.
use loudmouth.Base.{
  ℕ, ◌+◌, ◌≡◌, ◌≢◌, refl, Bool, true, false, List, [], ◌∷◌, none, some, arith, Text, codes, str_eq,
  if◌then◌else◌, ◌==◌, Bool-cases, inl, inr,
}
use loudmouth.Node.{node, nil, get_attribute, set_attributes}
use loudmouth.Node.Attributes.{HasUniqueKeys}
use loudmouth.Message.{Message, MessageType, SubType}
use loudmouth.Handler.{HandlerResult, remove_message, allow_more_handlers, Handler, handle_message}
use loudmouth.Handler
use loudmouth.Handler.Lifetime.{
  Use, takes, drops, invalidates, gets, uses, references, messages_handled, uses-new,
}
use loudmouth.Connection.Priority.{
  IsOrder, IsBefore, IsSortedBy, IsSortedInsert, Change, registers, unregisters, changes, at_least,
  less_than, and_then, run_handlers-changes,
}
use loudmouth.Connection.Registry.{
  HandlerData, Registry, no_handlers, send_with_reply, run_message_handler, run_handlers,
}
use loudmouth.Connection.Replies.{id_of, handler_for, run_message_handler-send_with_reply}

-- A handler that adds up what it gets.
abbrev adds : ℕ → ℕ → ℕ × HandlerResult
adds w m = (w + m, allow_more_handlers)

abbrev life : List (Use ℕ)
life = gets 3 ∷ takes ∷ gets 4 ∷ invalidates ∷ gets 5 ∷ drops ∷ []

uses-new_example :
    let handled = messages_handled true adds 0 life in
    let (h, w') = uses (Handler.new (some adds) (some (λ w. w + 1000))) 0 life in
    (w' ≡ handled) × (uses h w' (drops ∷ []) ≡ (none, handled + 1000))
unfolding references
uses-new_example = uses-new adds (λ w. w + 1000) 0 life (omega arith) refl

-- `g_slist_insert_sorted`
insert_sorted :
    List HandlerData → HandlerData → (HandlerData → HandlerData → Bool) → List HandlerData
insert_sorted [] hd before = hd ∷ []
insert_sorted (x ∷ l) hd before =
    let rest = insert_sorted l hd before in if before hd x then hd ∷ x ∷ l else x ∷ rest

module _ (before : HandlerData → HandlerData → Bool) (o : IsOrder before) where
  insert_sorted-IsBefore :
      (x : HandlerData) (l : List HandlerData) (hd : HandlerData)
      → before x hd ≡ true
      → IsBefore before x l
      → IsBefore before x (insert_sorted l hd before)
  unfolding insert_sorted
  insert_sorted-IsBefore x [] hd h b = (h, tt)
  insert_sorted-IsBefore x (y ∷ l) hd h b =
      ground (arith, h, b, insert_sorted-IsBefore x l hd h b.1)

  IsBefore-earlier :
      (x y : HandlerData) (l : List HandlerData)
      → before x y ≡ true
      → IsBefore before y l
      → IsBefore before x l
  IsBefore-earlier x y [] h b = tt
  IsBefore-earlier x y (hd ∷ l) h b = (o.trans x y hd h b.0, IsBefore-earlier x y l h b.1)

  insert_sorted-IsSortedBy :
      (l : List HandlerData) (hd : HandlerData)
      → IsSortedBy before l
      → IsSortedBy before (insert_sorted l hd before)
  unfolding insert_sorted
  insert_sorted-IsSortedBy [] hd s = (tt, tt)
  insert_sorted-IsSortedBy (x ∷ l) hd s = elim (Bool-cases (before hd x)) [
    | inl e ↦ rw (insert_sorted, e) ((e, IsBefore-earlier hd x l e s.0), s)
    | inr e ↦
        rw (insert_sorted, e)
          (insert_sorted-IsBefore x l hd (other_way x hd e) s.0, insert_sorted-IsSortedBy l hd s.1)
  ]
    where
      other_way : (x hd : HandlerData) → before hd x ≡ false → before x hd ≡ true
      other_way x hd e = ground (arith, e, o.total hd x)

insert_sorted-IsSortedInsert : IsSortedInsert insert_sorted
insert_sorted-IsSortedInsert = record {
  sorted = λ before l hd o s. insert_sorted-IsSortedBy before o l hd s;
}

abbrev iq_with : Text → Message
iq_with id = record {
  node = node (some (codes "iq")) none false ((codes "id", id) ∷ []) nil;
  type = MessageType.iq;
  sub_type = SubType.result;
}

abbrev unnamed : Message
unnamed = record {
  node = node (some (codes "iq")) none false [] nil;
  type = MessageType.iq;
  sub_type = SubType.get;
}

-- The handler 2 removes what it gets; each leaves its number.
abbrev handler_at : ℕ → Handler (List ℕ) Message
handler_at n = record {
  valid = true;
  ref_count = 1;
  function = some (λ w m. (n ∷ w, if n == 2 then remove_message else allow_more_handlers));
  notify = none;
}

abbrev history : List Change
history =
    registers 1 MessageType.iq 1
    ∷ registers 2 MessageType.iq 2
    ∷ registers 3 MessageType.iq 3
    ∷ registers 4 MessageType.message 3
    ∷ unregisters 4 MessageType.message
    ∷ []

run_handlers-changes_example :
    run_handlers handler_at []
      ((changes insert_sorted no_handlers history).handlers MessageType.iq)
      unnamed
    ≡ and_then handler_at
        (run_handlers handler_at []
          (at_least 2 ((changes insert_sorted no_handlers history).handlers MessageType.iq))
          unnamed)
        (less_than 2 ((changes insert_sorted no_handlers history).handlers MessageType.iq))
        unnamed
run_handlers-changes_example =
    run_handlers-changes insert_sorted insert_sorted-IsSortedInsert handler_at history
      MessageType.iq 2 [] unnamed

unnamed-HasUniqueKeys : HasUniqueKeys unnamed.node
unnamed-HasUniqueKeys = tt

abbrev sent : Registry × Message
sent = send_with_reply (codes "77") no_handlers unnamed 2

sent_77 : id_of (iq_with (codes "77")) ≡ id_of sent.1
unfolding send_with_reply get_attribute set_attributes str_eq
sent_77 = refl

not_empty : id_of (iq_with (codes "77")) ≢ some []
unfolding get_attribute str_eq
not_empty e = cc

run_message_handler-send_with_reply_example :
    let (w', answered, result) = run_message_handler handler_at [] sent.0 (iq_with (codes "77")) in
    ((w', result) ≡ handle_message (handler_at 2) [] (iq_with (codes "77")))
    × (run_message_handler handler_at (9 ∷ []) answered (iq_with (codes "77"))
        ≡ (9 ∷ [], answered, allow_more_handlers))
    × (handler_for [] answered ≡ handler_for [] no_handlers)
run_message_handler-send_with_reply_example =
    run_message_handler-send_with_reply handler_at (codes "77") no_handlers unnamed 2 [] (9 ∷ [])
      (iq_with (codes "77")) (iq_with (codes "77")) [] unnamed-HasUniqueKeys sent_77 refl not_empty
