-- ===== src/Socket/Early.antt =====
-- What a refused connection comes to if another address is left: loudmouth/lm-old-socket.c.
use loudmouth.Base.{
  ℕ, ◌<◌, ◌≡◌, refl, ap, ◌∙◌, Bool, true, false, List, [], ◌∷◌, ◌++◌, none, if◌then◌else◌, arith,
}
use loudmouth.Socket.{Socket, ConnectData, Effect, watch_connect, destroy_if}
use loudmouth.Socket.Silence.{after_silent, all_of-append, destroy_if-IsSilent, unref-IsSilent}
use loudmouth.Socket.Connect.{
  Outcome, ref, unref, failed_with_error, do_connect, succeeded, watch_input,
}
use loudmouth.Socket.Attempts.{
  told, told_by, told_by-IsOpenKind, left, failed_with_error-ReportsOnce, do_connect-ReportsOnce,
}
use loudmouth.Socket.Open.{just_err, connected, data_of, retried, connect_cb}

told-succeeded :
    (ssl_begins : Bool) (socket : Socket) (connect_data : ConnectData)
    → socket.cancel_open ≡ false
    → socket.ssl ≡ none
    → told (succeeded ssl_begins socket connect_data).1 ≡ true ∷ []
unfolding succeeded watch_input
told-succeeded ssl_begins socket connect_data c s =
    rw (c, s)
      (after_silent told_by (destroy_if socket.has_watch_connect watch_connect) _ _
        (destroy_if-IsSilent told_by told_by-IsOpenKind socket.has_watch_connect watch_connect)
        refl)

told-connected :
    (ssl_begins : Bool) (socket : Socket) (connect_data : ConnectData)
    → socket.cancel_open ≡ false
    → socket.ssl ≡ none
    → told (connected ssl_begins socket connect_data).1 ≡ true ∷ []
unfolding connected
told-connected ssl_begins socket connect_data c s =
    let (next, effects) = succeeded ssl_begins socket connect_data in
    all_of-append told_by effects (unref next).1
    ∙ ap (λ ts. ts ++ told (unref next).1) (told-succeeded ssl_begins socket connect_data c s)
    ∙ ap (λ ts. true ∷ ts) (unref-IsSilent told_by told_by-IsOpenKind next)

told-retried :
    (ssl_begins : Bool) (connect_data : ConnectData) (socket : Socket) (effects : List Effect)
    (goes_on : Bool)
    → told effects ≡ (if goes_on then [] else false ∷ [])
    → goes_on ≡ true
    → socket.cancel_open ≡ false
    → socket.ssl ≡ none
    → told (retried ssl_begins connect_data (socket, effects, goes_on)).1 ≡ true ∷ []
unfolding retried
told-retried ssl_begins connect_data socket effects true h g c s =
    after_silent told_by effects _ _ h
      (told-connected ssl_begins socket (data_of connect_data socket.connect_data) c s)
told-retried ssl_begins connect_data socket effects false h g c s = cc

-- A connection is refused and another address is left, to which connecting has only begun: in a
-- socket that is not cancelled and has no SSL the program is told at once, and only, that the
-- connection is there.
pub connect_cb-early :
    (closes : Bool) (outcome : ℕ → Outcome) (ssl_begins : Bool) (fuel : ℕ) (socket : Socket)
    (connect_data : ConnectData)
    → left socket.resolver < fuel
    → let (next, effects, goes_on) =
        failed_with_error closes (do_connect closes outcome fuel) (ref socket) connect_data in
      goes_on ≡ true
      → next.cancel_open ≡ false
      → next.ssl ≡ none
      → told (connect_cb closes outcome ssl_begins fuel (just_err false) socket connect_data).1
        ≡ true ∷ []
unfolding connect_cb ref
connect_cb-early closes outcome ssl_begins fuel socket connect_data l g c s =
    let (next, effects, goes_on) =
      failed_with_error closes (do_connect closes outcome fuel) (ref socket) connect_data in
    told-retried ssl_begins connect_data next effects goes_on
      (failed_with_error-ReportsOnce closes (do_connect closes outcome fuel) (ref socket)
        connect_data
        (λ s_1 d_1 a less.
          do_connect-ReportsOnce closes outcome fuel s_1 d_1 a (omega (arith, less, l))))
      g c s
