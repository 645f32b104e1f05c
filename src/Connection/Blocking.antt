-- ===== src/Connection/Blocking.antt =====
-- The calls of loudmouth/lm-connection.c that run the main loop until something has come about.
use loudmouth.Base.{
  ◌≡◌, refl, ap, ◌∙◌, Bool, true, false, not, List, [], ◌∷◌, ◌++◌, Option, none, some, leb,
  if◌then◌else◌,
}
use loudmouth.Connection.Link.{
  State, closed, opening, opened, authenticating, authenticated, state_number, Link, Effect,
  is_open, do_open, start_keep_alive,
}

-- What a call comes to: it still waits, the program is aborted, or it returns.
pub data Outcome : Type 0 where
  waits aborts : Outcome
  returns : Link → List Effect → Bool → Outcome

abbrev pub is_opening : State → Bool
is_opening opening = true
is_opening _ = false

abbrev pub is_authenticating : State → Bool
is_authenticating authenticating = true
is_authenticating _ = false

-- A loop that runs the main loop while the state is of a kind: the link as it is at first, and as
-- each iteration leaves it. `none` means that it still waits.
unfoldable pub wait_while : (State → Bool) → Link → List Link → Option Link
wait_while kind c [] = if kind c.state then none else some c
wait_while kind c (next ∷ later) =
    let rest = wait_while kind next later in if kind c.state then rest else some c

-- The end of `lm_connection_open_and_block`.
unfoldable pub opened_or_failed : List Effect → Option Link → Outcome
unfolding is_open start_keep_alive
opened_or_failed effects none = waits
opened_or_failed effects (some c) =
    let (alive, more) = start_keep_alive c in
    if is_open c then returns alive (effects ++ more) true else returns c effects false

-- `lm_connection_open_and_block`; the iterations start from the link as it is opened.
unfoldable pub open_and_block : Bool → Link → List Link → Outcome
unfolding do_open wait_while opened_or_failed
open_and_block created c iterations =
    let (c', effects, result) = do_open created (record c { open_cb = none }) in
    if not result
    then returns c' effects false
    else opened_or_failed effects (wait_while is_opening c' iterations)

-- The `switch` at the end of `lm_connection_authenticate_and_block`.
unfoldable pub authentication_outcome : Link → State → Outcome
authentication_outcome c authenticated = returns c [] true
authentication_outcome c opened = returns c [] false
authentication_outcome c _ = aborts

unfoldable pub settled : Option Link → Outcome
unfolding authentication_outcome
settled none = waits
settled (some c) = authentication_outcome c c.state

-- `lm_connection_authenticate_and_block`, by what `lm_connection_authenticate` leaves and returns.
unfoldable pub authenticate_and_block : Link → Bool → List Link → Outcome
unfolding wait_while settled
authenticate_and_block c result iterations =
    if not result then returns c [] false else settled (wait_while is_authenticating c iterations)

-- The connection is still being authenticated after each iteration.
abbrev pub AllWait : List Link → Type 0
AllWait [] = Unit {0}
AllWait (c ∷ cs) = (c.state ≡ authenticating) × AllWait cs

wait_while-past :
    (c last : Link) (cs later : List Link)
    → c.state ≡ authenticating
    → AllWait cs
    → is_authenticating last.state ≡ false
    → wait_while is_authenticating c (cs ++ last ∷ later) ≡ some last
unfolding wait_while
wait_while-past c last [] [] e w h = rw (e, h)
wait_while-past c last [] (next ∷ later) e w h = rw (e, h)
wait_while-past c last (d ∷ cs) later e (f, w) h = rw e (wait_while-past d last cs later f w h)

outcome_by :
    (c : Link) (state : State)
    → is_authenticating state ≡ false
    → authentication_outcome c state
      ≡ (if leb 2 (state_number state) then returns c [] (leb 4 (state_number state)) else aborts)
unfolding authentication_outcome state_number
outcome_by c closed h = refl
outcome_by c opening h = refl
outcome_by c opened h = refl
outcome_by c authenticating h = cc
outcome_by c authenticated h = refl

-- Once authentication has been started, the call that waits for its end ends with it, however long
-- it takes: it returns whether the connection is authenticated, but if the connection has been
-- closed meanwhile, or is opened anew, the program is aborted.
pub authenticate_and_block-outcome :
    (c last : Link) (cs later : List Link)
    → c.state ≡ authenticating
    → AllWait cs
    → is_authenticating last.state ≡ false
    → authenticate_and_block c true (cs ++ last ∷ later) ≡ (
        if leb 2 (state_number last.state)
        then returns last [] (leb 4 (state_number last.state))
        else aborts)
unfolding authenticate_and_block settled
authenticate_and_block-outcome c last cs later e w h =
    ap settled (wait_while-past c last cs later e w h) ∙ outcome_by last last.state h
