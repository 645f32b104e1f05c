-- ===== src/Connection/Sending.antt =====
-- What lm_connection_send and lm_connection_send_raw write (loudmouth/lm-connection.c).
use mathlib.Core.List.{append_assoc}
use loudmouth.Base.{
  ℕ, ◌-◌, ◌≡◌, refl, sym, ap, ◌∙◌, Bool, true, false, ◌&&◌, not, List, [], ◌∷◌, ◌++◌, Option, none,
  some, Text, codes, leb, ◌==◌, if◌then◌else◌, length, length-append, take, take-append, strstr,
  starts_with, arith,
}
use loudmouth.Node.{node, nil, Attribute, to_string, attributes_string, value_string}
use loudmouth.Message.{Message}
use loudmouth.Socket.{Socket, Channel, write}
use loudmouth.Socket as S
use loudmouth.Connection.Link.{State, state_number}

abbrev pub stream_end : Text
stream_end = codes "</stream:stream>"

-- The text before what is left of it.
abbrev pub before : Text → Option Text → Text
before t none = t
before t (some rest) = take (length t - length rest) t

-- The text before another text, if that is in it, as a zero is written over its start.
unfoldable pub cut : Text → Text → Text
cut needle t = before t (strstr t needle)

-- What the result of `lm_old_socket_write` comes to.
abbrev pub is_written : Option ℕ → Bool
is_written none = false
is_written (some b_written) = true

-- `connection_send`
unfoldable pub connection_send : State → Socket → Channel → Text → Socket × List S.Effect × Bool
unfolding state_number write
connection_send state socket channel str =
    let (socket', b_written, effects) = write socket channel str in
    if leb 1 (state_number state)
    then (socket', effects, is_written b_written)
    else (socket, [], false)

-- `lm_connection_send_raw`
unfoldable pub send_raw : State → Socket → Channel → Text → Socket × List S.Effect × Bool
unfolding connection_send
send_raw state socket channel str = connection_send state socket channel str

module _ (escape : Text → Text) where
  -- The text of a message that is sent.
  unfoldable pub message_text : Message → Text
  unfolding cut to_string
  message_text m = cut stream_end (to_string escape m.node)

  -- `lm_connection_send`
  unfoldable pub send : State → Socket → Channel → Message → Socket × List S.Effect × Bool
  unfolding message_text connection_send
  send state socket channel m = connection_send state socket channel (message_text m)

-- No `<` in a text.
abbrev pub lacks_bracket : Text → Bool
lacks_bracket [] = true
lacks_bracket (c ∷ cs) = not (c == b'<') && lacks_bracket cs

-- Nor in the names of attributes.
abbrev pub HavePlainNames : List Attribute → Type 0
HavePlainNames [] = Unit {0}
HavePlainNames ((k, v) ∷ ats) = (lacks_bracket k ≡ true) × HavePlainNames ats

lacks_bracket-append :
    (a b : Text) → lacks_bracket a ≡ true → lacks_bracket b ≡ true → lacks_bracket (a ++ b) ≡ true
lacks_bracket-append [] b h k = k
lacks_bracket-append (c ∷ a) b h k = ground (arith, lacks_bracket-append a b)

strstr-past :
    (t : Text) → lacks_bracket t ≡ true → strstr (t ++ stream_end) stream_end ≡ some stream_end
unfolding strstr starts_with
strstr-past [] h = refl
strstr-past (c ∷ t) h = ground (arith, strstr-past t)

take_front : (a b : Text) → take (length (a ++ b) - length b) (a ++ b) ≡ a
take_front a b =
    let front : length (a ++ b) - length b ≡ length a = omega (arith, length-append a b) in
    ap (λ n. take n (a ++ b)) front ∙ take-append a b

attributes-lacks_bracket :
    (escape : Text → Text) (ats : List Attribute)
    → ((t : Text) → lacks_bracket (escape t) ≡ true)
    → HavePlainNames ats
    → lacks_bracket (attributes_string escape false ats) ≡ true
unfolding attributes_string
attributes-lacks_bracket escape [] clean plain = refl
attributes-lacks_bracket escape ((k, v) ∷ ats) clean (name, names) =
    lacks_bracket-append k (b'=' ∷ b'"' ∷ (escape v ++ (b'"' ∷ attributes_string escape false ats)))
      name
      (lacks_bracket-append (escape v) (b'"' ∷ attributes_string escape false ats) (clean v)
        (attributes-lacks_bracket escape ats clean names))

-- The opening tag of a stream.
abbrev pub opening_tag : (Text → Text) → List Attribute → Text
opening_tag escape ats = codes "<stream:stream" ++ (attributes_string escape false ats ++ b'>' ∷ [])

-- The bracket at its start is followed by no slash.
strstr-tag :
    (rest : Text)
    → lacks_bracket rest ≡ true
    → strstr ((codes "<stream:stream" ++ rest) ++ stream_end) stream_end ≡ some stream_end
unfolding strstr starts_with
strstr-tag rest h = strstr-past (codes "stream:stream" ++ rest) h

to_string-header :
    (escape : Text → Text) (ats : List Attribute)
    → to_string escape (node (some (codes "stream:stream")) none false ats nil)
      ≡ opening_tag escape ats ++ stream_end
unfolding to_string value_string
to_string-header escape ats =
    ap (λ t. codes "<stream:stream" ++ t)
      (sym (append_assoc (attributes_string escape false ats) (b'>' ∷ []) stream_end))

cut-end :
    (t : Text)
    → strstr (t ++ stream_end) stream_end ≡ some stream_end
    → cut stream_end (t ++ stream_end) ≡ t
unfolding cut
cut-end t h = ap (before (t ++ stream_end)) h ∙ take_front t stream_end

-- The header of a stream is sent as its opening tag alone, with all its attributes. GLib's escaping
-- is taken to leave no opening bracket, and none stands in the name of an attribute.
pub message_text-header :
    (escape : Text → Text) (m : Message) (ats : List Attribute)
    → m.node ≡ node (some (codes "stream:stream")) none false ats nil
    → ((t : Text) → lacks_bracket (escape t) ≡ true)
    → HavePlainNames ats
    → message_text escape m ≡ opening_tag escape ats
unfolding message_text
message_text-header escape m ats h clean plain =
    let named = attributes-lacks_bracket escape ats clean plain in
    let rest = attributes_string escape false ats ++ b'>' ∷ [] in
    ap (λ n. cut stream_end (to_string escape n)) h
    ∙ (ap (cut stream_end) (to_string-header escape ats)
        ∙ cut-end (opening_tag escape ats) (
            strstr-tag rest
              (lacks_bracket-append (attributes_string escape false ats) (b'>' ∷ []) named refl)))
