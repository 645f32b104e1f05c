-- ===== src/Tests/Streams.antt =====
-- Tests of the model of loudmouth/lm-parser.c.
use loudmouth.Base.{
  ℕ, ◌+◌, some, true, ◌≡◌, refl, false, List, [], ◌∷◌, ◌++◌, none, some, codes, str_eq,
}
use loudmouth.Node.{Node, node, nil, cons, Attribute}
use loudmouth.Node.Attributes.{IsUnique, has_key}
use loudmouth.Node.Print.{Event, start_element, end_element, text}
use loudmouth.Message.{unknown, message_type_from_string}
use loudmouth.Parser.{idle, run}
use loudmouth.Parser.Stream.{
  AreStanzas, IsKnown, stanza_events, stream_name, header, messages, run_stream,
}
use loudmouth.Parser.Unknown.{run_unknown}
use loudmouth.Tests.Messages.{strcaseeq}
use loudmouth.Node.Print.{events}
use loudmouth.Message.{Message, MessageType, SubType}
use loudmouth.Parser.{Markup}

abbrev from_server : List Attribute
from_server = (codes "from", codes "c") ∷ (codes "id", codes "5") ∷ []

from_server-IsUnique : IsUnique from_server
unfolding has_key str_eq
from_server-IsUnique = (refl, (refl, tt))

abbrev hello : Node
hello =
    node (some (codes "message")) none false ((codes "to", codes "a") ∷ [])
      (cons (node (some (codes "body")) (some (codes "hi")) false [] nil) nil)

abbrev online : Node
online = node (some (codes "presence")) none false [] nil

hello-IsKnown : IsKnown hello
unfolding message_type_from_string str_eq
hello-IsKnown e = cc

online-IsKnown : IsKnown online
unfolding message_type_from_string str_eq
online-IsKnown e = cc

stanzas-AreStanzas : AreStanzas (hello ∷ online ∷ [])
unfolding has_key str_eq
stanzas-AreStanzas =
    ((refl, (refl, tt), ((refl, tt, tt), tt)), hello-IsKnown, ((refl, tt, tt), online-IsKnown, tt))

run_stream_example :
    run strcaseeq idle (
      start_element stream_name from_server
      ∷ (stanza_events (hello ∷ online ∷ []) ++ (end_element stream_name ∷ [])))
    ≡ (idle, messages strcaseeq (header from_server ∷ hello ∷ online ∷ []))
run_stream_example =
    run_stream strcaseeq from_server (hello ∷ online ∷ []) from_server-IsUnique stanzas-AreStanzas

-- An element that arrives in the middle of another one, and a wrong end tag.
abbrev broken : List Event
broken =
    start_element (codes "iq") from_server
    ∷ text (codes "x")
    ∷ start_element (codes "query") []
    ∷ end_element (codes "iq")
    ∷ end_element (codes "query")
    ∷ end_element (codes "iq")
    ∷ start_element (codes "presence") []
    ∷ []

foo_unknown : message_type_from_string (some (codes "foo")) ≡ unknown
unfolding message_type_from_string str_eq
foo_unknown = refl

run_unknown_example :
    (run strcaseeq idle
      (start_element (codes "foo") [] ∷ (end_element (codes "foo") ∷ stanza_events (hello ∷ [])))).1
    ≡ []
run_unknown_example =
    run_unknown strcaseeq (codes "foo") [] (end_element (codes "foo") ∷ stanza_events (hello ∷ []))
      foo_unknown

-- A markup parser that knows one document.
abbrev knows_online : Markup
knows_online = record {
  Context = ℕ;
  context_new = 0;
  parse = λ context string. (context + 1, events online, true);
}

abbrev online_message : Message
online_message = record { node = online; type = MessageType.presence; sub_type = SubType.available }
