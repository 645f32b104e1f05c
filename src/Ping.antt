-- ===== src/Ping.antt =====
-- loudmouth/lm-feature-ping.c: pings that keep a connection alive, and find out that it is not.
pub mod Silence
pub mod Timers
pub mod Stanza
use loudmouth.Base.{
  ℕ, ◌+◌, ◌*◌, ◌^◌, ◌%◌, ◌≡◌, refl, Bool, true, false, List, [], ◌∷◌, ◌++◌, Option, none, some,
  Text, codes, ltb, if◌then◌else◌,
}
use loudmouth.Node.{Node, set_attribute, add_child_node}
use loudmouth.Node
use loudmouth.Message.{Message, iq, SubType, new_with_sub_type}
use loudmouth.Handler.{HandlerResult, remove_message}

-- `LmFeaturePingPriv`. The source is a number, the place of its `GSource`.
pub record Ping : Type 0 where
  pub keep_alive_rate : ℕ
  pub keep_alive_source : Option ℕ
  pub keep_alive_counter : ℕ

-- What it does: the signal `timed-out`, a ping that waits for a reply, and a timer of the main loop,
-- with its interval in milliseconds.
pub data Effect : Type 0 where
  timed_out : Effect
  sends : Message → Effect
  adds_timeout : ℕ → ℕ → Effect
  destroys : ℕ → Effect

-- A `guint`.
abbrev pub wrapped : ℕ → ℕ
wrapped n = n % 2 ^ 32

abbrev pub ping_ns : Text
ping_ns = codes "urn:xmpp:ping"

-- `feature_ping_set_property` of the rate: a timer that runs is not started again.
unfoldable pub set_rate : ℕ → Ping → Ping
set_rate rate p = record p { keep_alive_rate = rate }

-- `feature_ping_keep_alive_reply`
unfoldable pub keep_alive_reply : Ping → Ping × HandlerResult
keep_alive_reply p = (record p { keep_alive_counter = 0 }, remove_message)

-- The message that `feature_ping_send_keep_alive` makes, with a given id. The child gets its
-- attribute before it is put below the root.
unfoldable pub ping_message : Text → Option Text → Message
unfolding new_with_sub_type set_attribute add_child_node Node.new
ping_message id server =
    let ping = new_with_sub_type id server iq SubType.get in
    let ping_node =
      set_attribute (Node.new (some (codes "ping"))) (some (codes "xmlns")) (some ping_ns) in
    record ping { node = add_child_node ping.node ping_node }

-- `feature_ping_send_keep_alive`, run by the timer: the id and the server are given.
unfoldable pub send_keep_alive : Text → Option Text → Ping → Ping × List Effect
send_keep_alive id server p =
    let counter = wrapped (p.keep_alive_counter + 1) in
    let signal = if ltb 3 counter then timed_out ∷ [] else [] in
    (record p { keep_alive_counter = counter }, signal ++ sends (ping_message id server) ∷ [])

-- `lm_feature_ping_stop`
unfoldable pub stop : Ping → Ping × List Effect
stop p =
    let destroyed : List Effect = elim p.keep_alive_source [
      | none ↦ []
      | some source ↦ destroys source ∷ []
    ] in
    (record p { keep_alive_source = none }, destroyed)

-- `lm_feature_ping_start`, where `source` is the new timer. A source that is there is stopped first.
unfoldable pub start : ℕ → Ping → Ping × List Effect
unfolding stop
start source p =
    let (stopped, before) = stop p in
    if ltb 0 p.keep_alive_rate
    then (
      record stopped { keep_alive_counter = 0; keep_alive_source = some source },
      before ++ adds_timeout source (wrapped (p.keep_alive_rate * 1000)) ∷ [],
    )
    else (stopped, before)
