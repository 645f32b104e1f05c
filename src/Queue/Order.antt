-- ===== src/Queue/Order.antt =====
-- The order in which loudmouth/lm-message-queue.c gives messages out.
use mathlib.Core.List.{append-nil, append_assoc}
use loudmouth.Base.{◌≡◌, refl, sym, ap, ◌∙◌, List, [], ◌∷◌, ◌++◌, Option, none, some}
use loudmouth.Queue.{Queue, nth, without_nth, push_tail, pop_nth}

-- What the connection does with its queue while it is attached: the parser's messages go in, and
-- the callback of the source takes one out.
pub data Turn (M : Type 0) : Type 0 where
  incoming : M → Turn M
  dispatch : Turn M

module _ {M : Type 0} where
  abbrev pub to_list : Option M → List M
  to_list none = []
  to_list (some m) = m ∷ []

  -- The messages taken out, in order.
  unfoldable pub turns : Queue M → List (Turn M) → Queue M × List M
  turns q [] = (q, [])
  turns q (incoming m ∷ ts) = turns (push_tail q m) ts
  turns q (dispatch ∷ ts) =
      let (q', popped) = pop_nth q 0 in
      let (q'', later) = turns q' ts in (q'', to_list popped ++ later)

  -- The messages put in, in order.
  pub arrived : List (Turn M) → List M
  arrived [] = []
  arrived (incoming m ∷ ts) = m ∷ arrived ts
  arrived (dispatch ∷ ts) = arrived ts

  first-rest : (ms : List M) → to_list (nth 0 ms) ++ without_nth 0 ms ≡ ms
  unfolding nth without_nth
  first-rest [] = refl
  first-rest (m ∷ ms) = refl

  -- However messages coming in and dispatches follow each other, the messages dispatched and then
  -- those that still wait are the messages that waited at the start and then those that came in,
  -- all in their order: none is lost, doubled or overtaken.
  pub turns-arrived :
      (q : Queue M) (ts : List (Turn M))
      → (turns q ts).1 ++ (turns q ts).0.messages ≡ q.messages ++ arrived ts
  unfolding turns arrived push_tail pop_nth
  turns-arrived q [] = sym (append-nil q.messages)
  turns-arrived q (incoming m ∷ ts) =
      turns-arrived (push_tail q m) ts ∙ append_assoc q.messages (m ∷ []) (arrived ts)
  turns-arrived q (dispatch ∷ ts) =
      append_assoc (to_list (nth 0 q.messages)) (turns (pop_nth q 0).0 ts).1
        (turns (pop_nth q 0).0 ts).0.messages
      ∙ ap (λ l. to_list (nth 0 q.messages) ++ l) (turns-arrived (pop_nth q 0).0 ts)
      ∙ sym (append_assoc (to_list (nth 0 q.messages)) (without_nth 0 q.messages) (arrived ts))
      ∙ ap (λ l. l ++ arrived ts) (first-rest q.messages)
