-- ===== src/Queue/Sources.antt =====
-- The sources and contexts that loudmouth/lm-message-queue.c holds in the main loop.
use loudmouth.Base.{
  ℕ, ◌≡◌, refl, sym, ap, ◌∙◌, true, List, [], ◌∷◌, ◌++◌, Option, none, some, ◌==◌, if◌then◌else◌,
  Bool-cases, Option-cases, inl, inr, subst, ==_iff,
}
use loudmouth.Queue.{
  Queue, Effect, attaches, destroys, refs_context, unrefs_context, unrefs_message, same, new,
  detach, attach_new, attach, push_tail, pop_nth, queue_free, unref_all, unref,
}

-- What the main loop knows: the live sources with their contexts, and the references to contexts.
pub record Loop : Type 0 where
  pub live : List (ℕ × Option ℕ)
  pub held : List ℕ

abbrev pub idle_loop : Loop
idle_loop = record { live = []; held = [] }

abbrev pub without_source : ℕ → List (ℕ × Option ℕ) → List (ℕ × Option ℕ)
without_source s [] = []
without_source s ((t, c) ∷ rest) =
    let others = without_source s rest in if t == s then others else (t, c) ∷ others

abbrev pub without_one : ℕ → List ℕ → List ℕ
without_one c [] = []
without_one c (d ∷ rest) = let others = without_one c rest in if d == c then rest else d ∷ others

module _ {M : Type 0} where
  unfoldable pub after : Loop → Effect M → Loop
  after l (attaches s c) = record l { live = (s, c) ∷ l.live }
  after l (destroys s) = record l { live = without_source s l.live }
  after l (refs_context c) = record l { held = c ∷ l.held }
  after l (unrefs_context c) = record l { held = without_one c l.held }
  after l (unrefs_message m) = l

  unfoldable pub replay : Loop → List (Effect M) → Loop
  unfolding after
  replay l [] = l
  replay l (e ∷ es) = replay (after l e) es

  replay-append :
      (l : Loop) (es fs : List (Effect M)) → replay l (es ++ fs) ≡ replay (replay l es) fs
  unfolding replay
  replay-append l [] fs = refl
  replay-append l (e ∷ es) fs = replay-append (after l e) es fs

-- What a queue with this source and this context has in the main loop.
abbrev pub loop_of : Option ℕ → Option ℕ → Loop
loop_of none none = idle_loop
loop_of none (some c) = record { live = []; held = c ∷ [] }
loop_of (some s) none = record { live = (s, none) ∷ []; held = [] }
loop_of (some s) (some c) = record { live = (s, some c) ∷ []; held = c ∷ [] }

-- No context is kept without a source.
abbrev pub IsTidy : Option ℕ → Option ℕ → Type 0
IsTidy none (some c) = ⊥
IsTidy _ _ = Unit {0}

same_self : (n : ℕ) → (n == n) ≡ true
same_self n = (==_iff n n).1 refl

IsTidy-none : (c : Option ℕ) → IsTidy none c → c ≡ none
IsTidy-none none t = refl
IsTidy-none (some c) t = absurd t

module _ (M : Type 0) where
  detached :
      (s c : Option ℕ)
      → replay {M = M} (loop_of s c) (
          elim s [ none ↦ [] | some source ↦ destroys source ∷ [] ]
          ++ elim c [ none ↦ [] | some context ↦ unrefs_context context ∷ [] ])
        ≡ idle_loop
  unfolding replay
  detached none none = refl
  detached none (some c) = rw (same_self c)
  detached (some s) none = rw (same_self s)
  detached (some s) (some c) = rw (same_self s, same_self c)

-- A call of the queue; that of attach comes with the source that is made.
pub data Call (M : Type 0) : Type 0 where
  attach_to : ℕ → Option ℕ → Call M
  detach_from : Call M
  push : M → Call M
  pop : ℕ → Call M

module _ {M : Type 0} where
  unfoldable pub call : Queue M → Call M → Queue M × List (Effect M)
  call q (attach_to source context) = attach source q context
  call q detach_from = detach q
  call q (push m) = (push_tail q m, [])
  call q (pop n) = ((pop_nth q n).0, [])

  unfoldable pub calls : Queue M → List (Call M) → Queue M × List (Effect M)
  unfolding call
  calls q [] = (q, [])
  calls q (c ∷ cs) =
      let (q', now) = call q c in let (q'', later) = calls q' cs in (q'', now ++ later)

  -- A result that the main loop agrees with, and that keeps the count.
  abbrev Agrees : Queue M → Queue M × List (Effect M) → Type 0
  Agrees q (q', es) =
      IsTidy q'.source q'.context
      × (replay (loop_of q.source q.context) es ≡ loop_of q'.source q'.context)
      × (q'.ref_count ≡ q.ref_count)

  detach-Agrees : (q : Queue M) → Agrees q (detach q)
  unfolding detach
  detach-Agrees q = (tt, detached M q.source q.context, refl)

  attach_new-Agrees :
      (s : ℕ) (c : Option ℕ) (q : Queue M)
      → q.source ≡ none
      → q.context ≡ none
      → Agrees q (attach_new s c q)
  unfolding attach_new replay
  attach_new-Agrees s none q e f = (tt, rw (e, f), refl)
  attach_new-Agrees s (some c) q e f = (tt, rw (e, f), refl)

  attach-first :
      (s : ℕ) (c : Option ℕ) (q : Queue M) → q.source ≡ none → attach s q c ≡ attach_new s c q
  unfolding attach
  attach-first s c q e = rw e

  attach-again :
      (s old : ℕ) (c : Option ℕ) (q : Queue M)
      → q.source ≡ some old
      → attach s q c ≡ (
          if same q.context c
          then (q, [])
          else ((attach_new s c (detach q).0).0, (detach q).1 ++ (attach_new s c (detach q).0).1))
  unfolding attach
  attach-again s old c q e = rw e

  moved-Agrees :
      (s : ℕ) (c : Option ℕ) (q : Queue M)
      → Agrees q ((attach_new s c (detach q).0).0, (detach q).1 ++ (attach_new s c (detach q).0).1)
  unfolding detach
  moved-Agrees s c q =
      let (tidy, agrees, kept) = attach_new-Agrees s c (detach q).0 refl refl in
      (
        tidy,
        replay-append (loop_of q.source q.context) (detach q).1 (attach_new s c (detach q).0).1
            ∙ ap (λ l. replay l (attach_new s c (detach q).0).1) (detached M q.source q.context)
            ∙ agrees,
        kept,
      )

  attach-Agrees :
      (s : ℕ) (c : Option ℕ) (q : Queue M) → IsTidy q.source q.context → Agrees q (attach s q c)
  unfolding replay
  attach-Agrees s c q t = elim (Option-cases q.source) [
    | inl e ↦
        subst (Agrees q) (sym (attach-first s c q e))
          (attach_new-Agrees s c q e (IsTidy-none q.context (subst (λ o. IsTidy o q.context) e t)))
    | inr (old, e) ↦ elim (Bool-cases (same q.context c)) [
      | inl same_context ↦
          let stays : attach s q c ≡ (q, []) = attach-again s old c q e ∙ rw same_context in
          subst (Agrees q) (sym stays) (t, refl, refl)
      | inr other ↦
          let moves : attach s q c
              ≡ ((attach_new s c (detach q).0).0, (detach q).1 ++ (attach_new s c (detach q).0).1) =
            attach-again s old c q e ∙ rw other in
          subst (Agrees q) (sym moves) (moved-Agrees s c q)
    ]
  ]

  call-Agrees : (q : Queue M) (c : Call M) → IsTidy q.source q.context → Agrees q (call q c)
  unfolding call push_tail pop_nth replay
  call-Agrees q (attach_to s context) t = attach-Agrees s context q t
  call-Agrees q detach_from t = detach-Agrees q
  call-Agrees q (push m) t = (t, refl, refl)
  call-Agrees q (pop n) t = (t, refl, refl)

  calls-Agrees :
      (q : Queue M) (cs : List (Call M)) → IsTidy q.source q.context → Agrees q (calls q cs)
  unfolding calls replay
  calls-Agrees q [] t = (t, refl, refl)
  calls-Agrees q (c ∷ cs) t =
      let (tidy, now, kept) = call-Agrees q c t in
      let (still_tidy, later, still_kept) = calls-Agrees (call q c).0 cs tidy in
      (
        still_tidy,
        replay-append (loop_of q.source q.context) (call q c).1 (calls (call q c).0 cs).1
            ∙ ap (λ l. replay l (calls (call q c).0 cs).1) now
            ∙ later,
        still_kept ∙ kept,
      )

  unref_all-replay : (l : Loop) (ms : List M) → replay l (unref_all ms) ≡ l
  unfolding replay unref_all
  unref_all-replay l [] = refl
  unref_all-replay l (m ∷ ms) = unref_all-replay l ms

  queue_free-replay : (q : Queue M) → replay (loop_of q.source q.context) (queue_free q) ≡ idle_loop
  unfolding queue_free detach
  queue_free-replay q =
      replay-append (loop_of q.source q.context) (detach q).1 (unref_all q.messages)
      ∙ ap (λ l. replay l (unref_all q.messages)) (detached M q.source q.context)
      ∙ unref_all-replay idle_loop q.messages

  -- After any calls on a new queue, attaching to any contexts in any order included, the main loop
  -- has the queue's one source, in its context, and one reference to that context, or nothing if
  -- the queue is not attached.
  pub calls-loop_of :
      (cs : List (Call M))
      → replay idle_loop (calls new cs).1 ≡ loop_of (calls new cs).0.source (calls new cs).0.context
  unfolding new
  calls-loop_of cs = (calls-Agrees new cs tt).1

  -- After any calls on a new queue, giving up its one reference frees the queue, and no source and no
  -- reference to a context is left in the main loop.
  pub calls-unref :
      (cs : List (Call M))
      → ((unref (calls new cs).0).0 ≡ none)
        × (replay idle_loop ((calls new cs).1 ++ (unref (calls new cs).0).1) ≡ idle_loop)
  unfolding new unref
  calls-unref cs =
      let q = (calls new cs).0 in
      let (tidy, agrees, kept) = calls-Agrees new cs tt in
      let freed : unref q ≡ (none, queue_free q) = rw (unref, kept) in
      (
        ap (λ r. r.0) freed,
        replay-append idle_loop (calls new cs).1 (unref q).1
            ∙ ap (λ l. replay l (unref q).1) agrees
            ∙ ap (λ r. replay (loop_of q.source q.context) r.1) freed
            ∙ queue_free-replay q,
      )
