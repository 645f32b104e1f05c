-- ===== src/Tests/Links.antt =====
-- Tests of the model of opening and closing a connection in loudmouth/lm-connection.c.
use loudmouth.Base.{true, false, List, [], ◌∷◌, none, some, codes}
use loudmouth.Node.{node, nil}
use loudmouth.Message.{Message, MessageType, SubType}
use loudmouth.Connection.Closing.{
  IsClean, Call, opens, closes, sets_rate, receives_stream, calls, calls-IsClean,
}
use loudmouth.Connection.Link.{Link, new, opened}

abbrev header : Message
header = record {
  node =
      node (some (codes "stream:stream")) none false
        ((codes "id", codes "5") ∷ (codes "version", codes "1.0") ∷ []) nil;
  type = MessageType.stream;
  sub_type = SubType.not_set;
}

abbrev session : List Call
session = sets_rate 30 ∷ opens true true ∷ receives_stream false header ∷ closes true ∷ []

calls-IsClean_example : IsClean (calls new session).0
calls-IsClean_example = calls-IsClean session

abbrev running : Link
running = record new { state = opened; socket = true; feature_ping = true; disconnect_cb = true }
