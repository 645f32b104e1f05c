-- ===== src/Connection/Priority.antt =====
-- Handlers of higher priority come first (loudmouth/lm-connection.c).
use loudmouth.Base.{
  ℕ, ◌≤◌, ◌<◌, ◌≡◌, refl, sym, ap, ◌∙◌, Bool, true, ◌||◌, List, [], ◌∷◌, ◌++◌, arith, leb,
  if◌then◌else◌, Bool-cases, inl, inr,
}
use loudmouth.Message.{Message, MessageType}
use loudmouth.Handler.{HandlerResult, remove_message, allow_more_handlers, Handler, handle_message}
use loudmouth.Connection.Registry.{
  HandlerData, Registry, no_handlers, may_precede, with_handlers, without_handler,
  unregister_message_handler, register_message_handler, run_handlers,
}

-- No handler is of higher priority than one before it.
abbrev pub IsBelow : ℕ → List HandlerData → Type 0
IsBelow p [] = Unit {0}
IsBelow p (hd ∷ l) = (hd.priority ≤ p) × IsBelow p l

abbrev pub IsSorted : List HandlerData → Type 0
IsSorted [] = Unit {0}
IsSorted (hd ∷ l) = IsBelow hd.priority l × IsSorted l

-- A comparison under which any two elements can be put in order.
pub record IsOrder (before : HandlerData → HandlerData → Bool) : Type 0 where
  pub total : (a b : HandlerData) → (before a b || before b a) ≡ true
  pub trans : (a b c : HandlerData) → before a b ≡ true → before b c ≡ true → before a c ≡ true

abbrev pub IsBefore : (HandlerData → HandlerData → Bool) → HandlerData → List HandlerData → Type 0
IsBefore before x [] = Unit {0}
IsBefore before x (hd ∷ l) = (before x hd ≡ true) × IsBefore before x l

abbrev pub IsSortedBy : (HandlerData → HandlerData → Bool) → List HandlerData → Type 0
IsSortedBy before [] = Unit {0}
IsSortedBy before (hd ∷ l) = IsBefore before hd l × IsSortedBy before l

-- What GLib documents of `g_slist_insert_sorted`: a sorted list stays sorted.
pub record IsSortedInsert
    (insert_sorted : List HandlerData
      → HandlerData
      → (HandlerData → HandlerData → Bool)
      → List HandlerData)
    : Type 0 where
  pub sorted :
      (before : HandlerData → HandlerData → Bool) (l : List HandlerData) (hd : HandlerData)
      → IsOrder before
      → IsSortedBy before l
      → IsSortedBy before (insert_sorted l hd before)

may_precede-IsOrder : IsOrder may_precede
may_precede-IsOrder = record {
  total = λ a b. ground arith;
  trans = λ a b c h k. ground (arith, h, k);
}

IsBefore-IsBelow :
    (x : HandlerData) (l : List HandlerData) → IsBefore may_precede x l → IsBelow x.priority l
IsBefore-IsBelow x [] h = tt
IsBefore-IsBelow x (hd ∷ l) h = (ground (arith, h.0), IsBefore-IsBelow x l h.1)

IsBelow-IsBefore :
    (x : HandlerData) (l : List HandlerData) → IsBelow x.priority l → IsBefore may_precede x l
IsBelow-IsBefore x [] h = tt
IsBelow-IsBefore x (hd ∷ l) h = (ground (arith, h.0), IsBelow-IsBefore x l h.1)

IsSortedBy-IsSorted : (l : List HandlerData) → IsSortedBy may_precede l → IsSorted l
IsSortedBy-IsSorted [] s = tt
IsSortedBy-IsSorted (hd ∷ l) s = (IsBefore-IsBelow hd l s.0, IsSortedBy-IsSorted l s.1)

IsSorted-IsSortedBy : (l : List HandlerData) → IsSorted l → IsSortedBy may_precede l
IsSorted-IsSortedBy [] s = tt
IsSorted-IsSortedBy (hd ∷ l) s = (IsBelow-IsBefore hd l s.0, IsSorted-IsSortedBy l s.1)

-- A call that changes the registry.
pub data Change : Type 0 where
  registers : ℕ → MessageType → ℕ → Change
  unregisters : ℕ → MessageType → Change

-- The handlers of a list with at least, or with less than, this priority.
unfoldable pub at_least : ℕ → List HandlerData → List HandlerData
at_least p [] = []
at_least p (hd ∷ l) = let rest = at_least p l in if leb p hd.priority then hd ∷ rest else rest

unfoldable pub less_than : ℕ → List HandlerData → List HandlerData
less_than p [] = []
less_than p (hd ∷ l) = let rest = less_than p l in if leb p hd.priority then rest else hd ∷ rest

without_handler-IsBelow :
    (h p : ℕ) (l : List HandlerData) → IsBelow p l → IsBelow p (without_handler h l)
unfolding without_handler
without_handler-IsBelow h p [] b = tt
without_handler-IsBelow h p (hd ∷ l) b = ground (arith, b, without_handler-IsBelow h p l b.1)

without_handler-IsSorted :
    (h : ℕ) (l : List HandlerData) → IsSorted l → IsSorted (without_handler h l)
unfolding without_handler
without_handler-IsSorted h [] s = tt
without_handler-IsSorted h (hd ∷ l) s =
    ground (arith, s, without_handler-IsSorted h l s.1, without_handler-IsBelow h hd.priority l s.0)

IsBelow-weaken : (p q : ℕ) (l : List HandlerData) → p ≤ q → IsBelow p l → IsBelow q l
IsBelow-weaken p q [] h b = tt
IsBelow-weaken p q (hd ∷ l) h b = (omega (arith, h, b.0), IsBelow-weaken p q l h b.1)

-- Below the threshold, all of a list is less.
split_below :
    (p q : ℕ) (l : List HandlerData)
    → q < p
    → IsBelow q l
    → (at_least p l ≡ []) × (less_than p l ≡ l)
unfolding at_least less_than
split_below p q [] h b = (refl, refl)
split_below p q (hd ∷ l) h b =
    let (empty, whole) = split_below p q l h b.1 in
    (ground (arith, b.0, h, empty), ground (arith, b.0, h, whole))

split_sorted : (p : ℕ) (l : List HandlerData) → IsSorted l → at_least p l ++ less_than p l ≡ l
unfolding at_least less_than
split_sorted p [] s = refl
split_sorted p (hd ∷ l) s = elim (Bool-cases (leb p hd.priority)) [
  | inl e ↦ rw (at_least, less_than, e) (ap (λ k. hd ∷ k) (split_sorted p l s.1))
  | inr e ↦
      let (empty, whole) = split_below p hd.priority l (ground (arith, e)) s.0 in
      rw (at_least, less_than, e, empty, whole)
]

module _ {W : Type 0} (handler_at : ℕ → Handler W Message) where
  -- The rest of the handlers run if the message has not been removed.
  abbrev pub and_then : W × HandlerResult → List HandlerData → Message → W × HandlerResult
  and_then (w, remove_message) l m = (w, remove_message)
  and_then (w, allow_more_handlers) l m = run_handlers handler_at w l m

  run_handlers-append :
      (w : W) (l k : List HandlerData) (m : Message)
      → run_handlers handler_at w (l ++ k) m ≡ and_then (run_handlers handler_at w l m) k m
  unfolding run_handlers
  run_handlers-append w [] k m = refl
  run_handlers-append w (hd ∷ l) k m =
      stepped (handle_message (handler_at hd.handler) w m) (λ v. run_handlers-append v l k m)
    where
      stepped :
          (r : W × HandlerResult)
          → ((v : W)
              → run_handlers handler_at v (l ++ k) m ≡ and_then (run_handlers handler_at v l m) k m)
          → elim r.1 as (λ x. W × HandlerResult) [
            | remove_message ↦ (r.0, remove_message)
            | allow_more_handlers ↦ run_handlers handler_at r.0 (l ++ k) m
          ]
            ≡ and_then
                (elim r.1 as (λ x. W × HandlerResult) [
                  | remove_message ↦ (r.0, remove_message)
                  | allow_more_handlers ↦ run_handlers handler_at r.0 l m
                ])
                k
                m
      stepped (w', remove_message) later = refl
      stepped (w', allow_more_handlers) later = later w'

module _
    (insert_sorted : List HandlerData
      → HandlerData
      → (HandlerData → HandlerData → Bool)
      → List HandlerData) where
  unfoldable pub change : Registry → Change → Registry
  change c (registers handler type priority) =
      register_message_handler insert_sorted c handler type priority
  change c (unregisters handler type) = unregister_message_handler c handler type

  unfoldable pub changes : Registry → List Change → Registry
  unfolding change
  changes c [] = c
  changes c (x ∷ xs) = changes (change c x) xs

  abbrev AllSorted : Registry → Type 0
  AllSorted c = (type : MessageType) → IsSorted (c.handlers type)

  with_handlers-AllSorted :
      (c : Registry) (type : MessageType) (l : List HandlerData)
      → AllSorted c
      → IsSorted l
      → AllSorted (with_handlers c type l)
  with_handlers-AllSorted c type l s t other = ground (arith, s other, t)

  change-AllSorted :
      (c : Registry) (x : Change)
      → IsSortedInsert insert_sorted
      → AllSorted c
      → AllSorted (change c x)
  unfolding change register_message_handler unregister_message_handler
  change-AllSorted c (registers handler type priority) i s = with_handlers-AllSorted c type _ s (
      IsSortedBy-IsSorted _ (
        i.sorted may_precede (c.handlers type) _ may_precede-IsOrder
          (IsSorted-IsSortedBy (c.handlers type) (s type))))
  change-AllSorted c (unregisters handler type) i s =
      with_handlers-AllSorted c type _ s
        (without_handler-IsSorted handler (c.handlers type) (s type))

  changes-AllSorted :
      (c : Registry) (xs : List Change)
      → IsSortedInsert insert_sorted
      → AllSorted c
      → AllSorted (changes c xs)
  unfolding changes
  changes-AllSorted c [] i s = s
  changes-AllSorted c (x ∷ xs) i s = changes-AllSorted (change c x) xs i (change-AllSorted c x i s)

-- After any sequence of registrations and their removals, the handlers of a type that have at least
-- a given priority all run before the others of that type, and the others run only if none of them
-- removes the message. GLib's sorted insertion is taken to keep a sorted list sorted.
pub run_handlers-changes :
    (insert_sorted : List HandlerData
      → HandlerData
      → (HandlerData → HandlerData → Bool)
      → List HandlerData)
    → IsSortedInsert insert_sorted
    → {W : Type 0} (handler_at : ℕ → Handler W Message) (xs : List Change) (type : MessageType)
      (p : ℕ) (w : W) (m : Message)
    → let l = (changes insert_sorted no_handlers xs).handlers type in
      run_handlers handler_at w l m
      ≡ and_then handler_at (run_handlers handler_at w (at_least p l) m) (less_than p l) m
run_handlers-changes insert_sorted i handler_at xs type p w m =
    let l = (changes insert_sorted no_handlers xs).handlers type in
    let sorted : IsSorted l = changes-AllSorted insert_sorted no_handlers xs i (λ t. tt) type in
    ap (λ k. run_handlers handler_at w k m) (sym (split_sorted p l sorted))
    ∙ run_handlers-append handler_at w (at_least p l) (less_than p l) m
