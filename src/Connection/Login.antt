-- ===== src/Connection/Login.antt =====
-- What the program is told of its authentication, and what is sent for it (loudmouth/lm-connection.c).
use loudmouth.Base.{
  ℕ, suc, ◌+◌, ◌≤◌, ◌≡◌, refl, ap, Bool, true, false, not, ◌&&◌, is_null, List, [], ◌∷◌, ◌++◌,
  Option, none, some, Text, codes, if◌then◌else◌, arith,
}
use loudmouth.Node.{find_child, Node}
use loudmouth.Message.{Message}
use loudmouth.Sasl.{AuthParameters}
use loudmouth.Connection.Link.{Link, do_close, is_open}
use loudmouth.Connection.Link as L
use loudmouth.Handler.{HandlerResult, remove_message}
use loudmouth.Connection.Account.{
  Account, Effect, links, sends, waits_for, starts_sasl, registers_features, frees_auth_cb,
  calls_auth_cb, on_link, send, connection_send_with_reply, bind_reply, old_auth, auth_cb_effects,
  call_back, closes,
}
use loudmouth.Connection.Features.{
  send_stream_header, ask_with, lacks_sasl, bind_request, starttls_request, closes_with_error,
  cope_with_old_auth, bind_features, connection_features_cb,
}

-- How often the program is told of a result.
abbrev pub times_told : List Effect → ℕ
times_told [] = 0
times_told (calls_auth_cb success ∷ es) = suc (times_told es)
times_told (_ ∷ es) = times_told es

-- A callback that waits to be called.
abbrev pub waiting : Option Bool → ℕ
waiting none = 0
waiting (some _) = 1

-- No more is told than waits to be told.
abbrev pub TellsWaiting : Account → Account × List Effect → Type 0
TellsWaiting a (next, es) = times_told es + waiting next.auth_cb ≤ waiting a.auth_cb

-- Nothing is told, and the callback is kept.
abbrev pub IsQuiet : Account → Account × List Effect → Type 0
IsQuiet a (next, es) = (times_told es ≡ 0) × (next.auth_cb ≡ a.auth_cb)

pub times_told-append : (a b : List Effect) → times_told (a ++ b) ≡ times_told a + times_told b
times_told-append [] b = omega arith
times_told-append (calls_auth_cb success ∷ a) b = omega (arith, times_told-append a b)
times_told-append (links e ∷ a) b = times_told-append a b
times_told-append (sends m ∷ a) b = times_told-append a b
times_told-append (waits_for id r ∷ a) b = times_told-append a b
times_told-append (starts_sasl p s ∷ a) b = times_told-append a b
times_told-append (registers_features ∷ a) b = times_told-append a b
times_told-append (frees_auth_cb ∷ a) b = times_told-append a b

times_told-on_link : (es : List L.Effect) → times_told (on_link es) ≡ 0
times_told-on_link [] = refl
times_told-on_link (e ∷ es) = times_told-on_link es

pub times_told-send :
    (written : Bool) (a : Account) (m : Message) → times_told (send written a m).0 ≡ 0
unfolding send
times_told-send written a m = ground arith

pub closes-IsQuiet : (a : Account) → IsQuiet a (closes a)
unfolding closes
closes-IsQuiet a = (times_told-on_link (do_close a.link).1, refl)

told-auth_cb_effects :
    (success : Bool) (auth_cb : Option Bool)
    → times_told (auth_cb_effects success auth_cb) ≤ waiting auth_cb
unfolding auth_cb_effects
told-auth_cb_effects success none = omega arith
told-auth_cb_effects success (some false) = omega arith
told-auth_cb_effects success (some true) = omega arith

pub call_back-TellsWaiting : (success : Bool) (a : Account) → TellsWaiting a (call_back success a)
unfolding call_back
call_back-TellsWaiting success a = omega (arith, told-auth_cb_effects success a.auth_cb)

-- Either way quiet, and either way no more than waits.
pub if-IsQuiet :
    (b : Bool) (a : Account) (x y : Account × List Effect)
    → IsQuiet a x
    → IsQuiet a y
    → IsQuiet a (if b then x else y)
if-IsQuiet true a x y h k = h
if-IsQuiet false a x y h k = k

pub append-IsQuiet :
    (a next : Account) (before after : List Effect)
    → times_told before ≡ 0
    → IsQuiet a (next, after)
    → IsQuiet a (next, before ++ after)
append-IsQuiet a next before after h (told, kept) =
    (omega (arith, times_told-append before after, h, told), kept)

pub IsQuiet-TellsWaiting :
    (a : Account) (r : Account × List Effect) → IsQuiet a r → TellsWaiting a r
IsQuiet-TellsWaiting a (next, es) (told, kept) =
    let same = ap waiting kept in omega (arith, told, same)

pub send_stream_header-IsQuiet :
    (written : Bool) (a : Account) → IsQuiet a (send_stream_header written a)
unfolding send_stream_header
send_stream_header-IsQuiet written a =
    let effects = (send written a _).0 in
    let silent = times_told-send written a _ in
    if-IsQuiet (send written a _).1 a _ _ (silent, refl)
      (append-IsQuiet a (closes a).0 effects (closes a).1 silent (closes-IsQuiet a))

times_told-ask_with :
    (written : Bool) (id : Text) (a : Account) (params : Option AuthParameters)
    → times_told (ask_with written id a params) ≡ 0
unfolding ask_with old_auth connection_send_with_reply
times_told-ask_with written id a none = refl
times_told-ask_with written id a (some params) = times_told-send written a _

cope_with_old_auth-IsQuiet :
    (written : Bool) (id : Text) (a : Account) (b : Bool)
    → IsQuiet a (cope_with_old_auth written id a b)
unfolding cope_with_old_auth
cope_with_old_auth-IsQuiet written id a false = (refl, refl)
cope_with_old_auth-IsQuiet written id a true =
    let link_1 = a.link in
    let plain = record a {
      link = record link_1 { use_sasl = false; sasl = false };
      sasl_params = none;
    } in
    let asked = ask_with written id plain a.sasl_params in
    if-IsQuiet a.link.sasl a _ _
      (append-IsQuiet a plain asked (links L.frees_sasl ∷ [])
        (times_told-ask_with written id plain a.sasl_params) (refl, refl))
      (refl, refl)

-- The same of what also gives a result.
abbrev Quietly : Account → Account × List Effect × HandlerResult → Type 0
Quietly a (next, es, _) = IsQuiet a (next, es)

if-Quietly :
    (b : Bool) (a : Account) (x y : Account × List Effect × HandlerResult)
    → Quietly a x
    → Quietly a y
    → Quietly a (if b then x else y)
if-Quietly true a x y h k = h
if-Quietly false a x y h k = k

bind_features-Quietly :
    (written : Bool) (bind_id auth_id : Text) (a : Account) (root : Node) (bind_node : Option Node)
    → Quietly a (bind_features written bind_id auth_id a root bind_node)
unfolding bind_features connection_send_with_reply
bind_features-Quietly written bind_id auth_id a root none =
    cope_with_old_auth-IsQuiet written auth_id a (lacks_sasl a root)
bind_features-Quietly written bind_id auth_id a root (some bind_node) =
    let (next, effects) = cope_with_old_auth written auth_id a (lacks_sasl a root) in
    let request = bind_request bind_id a.resource in
    if-Quietly _ a _ _
      (append-IsQuiet a next (connection_send_with_reply written a bind_id request bind_reply).0
        effects (times_told-send written a request)
        (cope_with_old_auth-IsQuiet written auth_id a (lacks_sasl a root)))
      (refl, refl)

pub closes_with_error-IsQuiet : (a : Account) → IsQuiet a (closes_with_error a)
closes_with_error-IsQuiet a =
    let (closed, effects) = closes a in
    let last = on_link (L.signal_disconnect closed.link L.error) in
    let (told, kept) = closes-IsQuiet a in
    append-IsQuiet a closed effects last told
      (times_told-on_link (L.signal_disconnect closed.link L.error), kept)

pub connection_features_cb-Quietly :
    (use_starttls require_starttls written : Bool) (tls_id bind_id auth_id : Text) (a : Account)
    (m : Message)
    → Quietly a
        (connection_features_cb use_starttls require_starttls written tls_id bind_id auth_id a m)
unfolding connection_features_cb
connection_features_cb-Quietly use_starttls require_starttls written tls_id bind_id auth_id a m =
    let wants_tls = a.link.ssl && use_starttls in
    let offered = not (is_null (find_child m.node (some (codes "starttls")))) in
    let bind_node = find_child m.node (some (codes "bind")) in
    let later = bind_features written bind_id auth_id a m.node bind_node in
    let (closed, effects) = closes_with_error a in
    let gives_up : Account × List Effect × HandlerResult = (closed, effects, remove_message) in
    let asks : Account × List Effect × HandlerResult =
      (a, (send written a (starttls_request tls_id)).0, remove_message) in
    let later-Quietly = bind_features-Quietly written bind_id auth_id a m.node bind_node in
    let refused = not a.tls_started && require_starttls in
    let otherwise = if refused then gives_up else later in
    if-Quietly (not wants_tls) a later (if offered then asks else otherwise) later-Quietly (
      if-Quietly offered a asks otherwise
        (times_told-send written a (starttls_request tls_id), refl)
        (if-Quietly refused a gives_up later (closes_with_error-IsQuiet a) later-Quietly))
