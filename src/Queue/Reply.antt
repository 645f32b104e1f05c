-- ===== src/Queue/Reply.antt =====
-- The search for a reply in lm_connection_send_with_reply_and_block (loudmouth/lm-connection.c).
use mathlib.Core.List.{append_assoc}
use loudmouth.Base.{
  ℕ, suc, ◌≡◌, refl, ap, ◌∙◌, sym, List, [], ◌∷◌, ◌++◌, Option, none, some, arith, Text,
  if◌then◌else◌, length, length-append, Bool-cases, inl, inr,
}
use loudmouth.Message.{Message}
use loudmouth.Queue.{
  Queue, nth, without_nth, peek_nth, pop_nth, get_length, has_id, find_reply, take_reply,
}

-- The first message of that id, and the others in their order.
unfoldable pub first_reply : Text → List Message → Option (Message × List Message)
first_reply id [] = none
first_reply id (m ∷ ms) =
    let later = first_reply id ms in
    if has_id id m
    then some (m, ms)
    else elim later [ none ↦ none | some (r, rest) ↦ some (r, m ∷ rest) ]

abbrev in_queue :
    Queue Message
    → List Message
    → Option (Message × List Message)
    → Option (Message × Queue Message)
in_queue queue before none = none
in_queue queue before (some (r, rest)) = some (r, record queue { messages = before ++ rest })

nth-append :
    (before after : List Message) (m : Message) → nth (length before) (before ++ m ∷ after) ≡ some m
unfolding nth
nth-append [] after m = refl
nth-append (b ∷ before) after m = nth-append before after m

without_nth-append :
    (before after : List Message) (m : Message)
    → without_nth (length before) (before ++ m ∷ after) ≡ before ++ after
unfolding without_nth
without_nth-append [] after m = refl
without_nth-append (b ∷ before) after m = ap (λ l. b ∷ l) (without_nth-append before after m)

in_queue-shift :
    (queue : Queue Message) (before : List Message) (m : Message)
    (found : Option (Message × List Message))
    → in_queue queue (before ++ m ∷ []) found
      ≡ in_queue queue before (elim found [ none ↦ none | some (r, rest) ↦ some (r, m ∷ rest) ])
in_queue-shift queue before m none = refl
in_queue-shift queue before m (some (r, rest)) =
    ap (λ l. some (r, record queue { messages = l })) (append_assoc before (m ∷ []) rest)

module _ (id : Text) where
  find_reply_lem :
      (before after : List Message) (queue : Queue Message) (n : ℕ)
      → n ≡ length before
      → queue.messages ≡ before ++ after
      → find_reply (length after) n id queue ≡ in_queue queue before (first_reply id after)
  unfolding find_reply first_reply peek_nth pop_nth
  find_reply_lem before [] queue n k h = refl
  find_reply_lem before (m ∷ after) queue n k h =
      let next : queue.messages ≡ (before ++ m ∷ []) ++ after =
        h ∙ sym (append_assoc before (m ∷ []) after) in
      let counted : suc n ≡ length (before ++ m ∷ []) =
        omega (arith, k, length-append before (m ∷ [])) in
      let here : nth n queue.messages ≡ some m = rw (k, h) (nth-append before after m) in
      let left : without_nth n queue.messages ≡ before ++ after =
        rw (k, h) (without_nth-append before after m) in
      let later = find_reply_lem (before ++ m ∷ []) after queue (suc n) counted next in
      elim (Bool-cases (has_id id m)) [
        | inl e ↦ rw (find_reply, here, e, left)
        | inr e ↦
            rw (find_reply, here, e) (later ∙ in_queue-shift queue before m (first_reply id after))
      ]

-- The search for a reply takes the first message of that id, wherever it stands in the queue, and
-- leaves the others in their order; it finds nothing only if there is none. The loop does not run
-- out of fuel.
pub take_reply-first_reply :
    (id : Text) (queue : Queue Message)
    → take_reply id queue
      ≡ elim (first_reply id queue.messages) as (λ o. Option (Message × Queue Message)) [
        | none ↦ none
        | some (r, rest) ↦ some (r, record queue { messages = rest })
      ]
unfolding take_reply get_length
take_reply-first_reply id queue =
    find_reply_lem id [] queue.messages queue 0 refl refl ∙ shown (first_reply id queue.messages)
  where
    shown :
        (found : Option (Message × List Message))
        → in_queue queue [] found ≡ elim found as (λ o. Option (Message × Queue Message)) [
          | none ↦ none
          | some (r, rest) ↦ some (r, record queue { messages = rest })
        ]
    shown none = refl
    shown (some (r, rest)) = refl
