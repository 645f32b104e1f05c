-- ===== src/Ping/Timers.antt =====
-- The timers of loudmouth/lm-feature-ping.c in the main loop.
use loudmouth.Base.{
  ℕ, ◌*◌, ◌≡◌, refl, ap, ◌∙◌, true, List, [], ◌∷◌, ◌++◌, Option, none, some, ◌==◌, ==_iff, ltb,
  if◌then◌else◌, Bool-cases, inl, inr,
}
use loudmouth.Ping.{Ping, Effect, adds_timeout, destroys, wrapped, start, stop, set_rate}

abbrev pub without : ℕ → List ℕ → List ℕ
without s [] = []
without s (t ∷ rest) = let others = without s rest in if t == s then others else t ∷ others

-- The live timers.
unfoldable pub after : List ℕ → Effect → List ℕ
after live (adds_timeout source interval) = source ∷ live
after live (destroys source) = without source live
after live _ = live

unfoldable pub replay : List ℕ → List Effect → List ℕ
unfolding after
replay live [] = live
replay live (e ∷ es) = replay (after live e) es

abbrev pub timers_of : Option ℕ → List ℕ
timers_of none = []
timers_of (some source) = source ∷ []

pub data Call : Type 0 where
  starts : ℕ → Call
  stops : Call
  sets_rate : ℕ → Call

unfoldable pub call : Ping → Call → Ping × List Effect
call p (starts source) = start source p
call p stops = stop p
call p (sets_rate rate) = (set_rate rate p, [])

unfoldable pub calls : Ping → List Call → Ping × List Effect
unfolding call
calls p [] = (p, [])
calls p (c ∷ cs) = let (p', now) = call p c in let (p'', later) = calls p' cs in (p'', now ++ later)

replay-append :
    (live : List ℕ) (es fs : List Effect) → replay live (es ++ fs) ≡ replay (replay live es) fs
unfolding replay
replay-append live [] fs = refl
replay-append live (e ∷ es) fs = replay-append (after live e) es fs

same_self : (n : ℕ) → (n == n) ≡ true
same_self n = (==_iff n n).1 refl

abbrev Agrees : Ping → Ping × List Effect → Type 0
Agrees p (p', es) = replay (timers_of p.keep_alive_source) es ≡ timers_of p'.keep_alive_source

destroyed :
    (source : Option ℕ)
    → replay (timers_of source) (elim source [ none ↦ [] | some s ↦ destroys s ∷ [] ]) ≡ []
unfolding replay
destroyed none = refl
destroyed (some s) = rw (same_self s)

stop-Agrees : (p : Ping) → Agrees p (stop p)
unfolding stop
stop-Agrees p = destroyed p.keep_alive_source

start-Agrees : (source : ℕ) (p : Ping) → Agrees p (start source p)
unfolding start stop replay
start-Agrees source p = elim (Bool-cases (ltb 0 p.keep_alive_rate)) [
  | inl e ↦ rw (start, e) (begun (wrapped (p.keep_alive_rate * 1000)))
  | inr e ↦ rw (start, e) (destroyed p.keep_alive_source)
]
  where
    begun :
        (interval : ℕ)
        → replay (timers_of p.keep_alive_source) ((stop p).1 ++ adds_timeout source interval ∷ [])
          ≡ source ∷ []
    begun interval =
        replay-append (timers_of p.keep_alive_source) (stop p).1 (adds_timeout source interval ∷ [])
        ∙ ap (λ l. source ∷ l) (destroyed p.keep_alive_source)

call-Agrees : (p : Ping) (c : Call) → Agrees p (call p c)
unfolding call replay set_rate
call-Agrees p (starts source) = start-Agrees source p
call-Agrees p stops = stop-Agrees p
call-Agrees p (sets_rate rate) = refl

-- After any calls of start and stop and any changes of the rate, the main loop has just the one
-- timer that is kept, if one is kept: starting again stops the timer before, and with a rate of
-- zero starting only stops it.
calls-timers_of :
    (p : Ping) (cs : List Call)
    → replay (timers_of p.keep_alive_source) (calls p cs).1
      ≡ timers_of (calls p cs).0.keep_alive_source
unfolding calls replay
calls-timers_of p [] = refl
calls-timers_of p (c ∷ cs) =
    replay-append (timers_of p.keep_alive_source) (call p c).1 (calls (call p c).0 cs).1
    ∙ ap (λ l. replay l (calls (call p c).0 cs).1) (call-Agrees p c)
    ∙ calls-timers_of (call p c).0 cs
