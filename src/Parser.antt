-- ===== src/Parser.antt =====
-- loudmouth/lm-parser.c: from the events of GLib's XML parser to messages.
pub mod Stanza
pub mod Stream
pub mod Sound
pub mod Unknown
pub mod Receive
use loudmouth.Base.{
  ◌≡◌, refl, Bool, true, false, not, List, [], ◌∷◌, ◌++◌, Option, none, some, arith, Text, codes,
  str_eq, opt_str_eq, if◌then◌else◌, map,
}
use loudmouth.Node.{Node, name_of, set_value, set_attributes, add_child_node, Attribute}
use loudmouth.Node
use loudmouth.Node.Print.{Event, start_element, end_element, text}
use loudmouth.Message.{Message, new_from_node}

-- The nodes that are open, innermost first: `cur_node` is the first and `cur_root` the last, both
-- `NULL` if there is none. Each is the last child of the next one: the code links a child when it
-- is opened, and here it is put below its parent when it is closed.
pub record Parser : Type 0 where
  pub open_nodes : List Node

abbrev pub idle : Parser
idle = record { open_nodes = [] }

-- `attribute_names` and `attribute_values`, given to `lm_message_node_set_attributes` one by one.
abbrev pub pairs : List Attribute → List (Text × Option Text)
pairs [] = []
pairs ((k, v) ∷ ats) = (k, some v) ∷ pairs ats

module _ (strcaseeq : Text → Text → Bool) where
  -- A closed root is handed over as a message if its name is known. If not, it stays open.
  unfoldable pub close_root : Node → Parser × List Message
  close_root root = elim (new_from_node strcaseeq root) [
    | none ↦ (record { open_nodes = root ∷ [] }, [])
    | some m ↦ (idle, m ∷ [])
  ]

  -- The part of `parser_end_node_cb` behind the check of the name.
  unfoldable pub close : Node → List Node → Parser × List Message
  close cur_node [] = close_root cur_node
  close cur_node (parent ∷ outer) =
      (record { open_nodes = add_child_node parent cur_node ∷ outer }, [])

  -- `parser_end_node_cb`
  unfoldable pub end_node : List Node → Text → Parser × List Message
  end_node [] node_name = (idle, [])
  end_node (cur_node ∷ outer) node_name =
      if not (opt_str_eq (name_of cur_node) node_name)
      then (record { open_nodes = cur_node ∷ outer }, [])
      else close cur_node outer

  -- `parser_start_node_cb`: the end of a stream's root is not waited for.
  unfoldable pub start_node : List Node → Text → List Attribute → Parser × List Message
  start_node open_nodes node_name attributes =
      let cur_node = set_attributes (Node.new (some node_name)) (pairs attributes) in
      if str_eq (codes "stream:stream") node_name
      then end_node (cur_node ∷ open_nodes) (codes "stream:stream")
      else (record { open_nodes = cur_node ∷ open_nodes }, [])

  -- `parser_text_cb`
  unfoldable pub text_node : List Node → Text → Parser × List Message
  text_node [] t = (idle, [])
  text_node (cur_node ∷ outer) t =
      if not (str_eq t [])
      then (record { open_nodes = set_value cur_node (some t) ∷ outer }, [])
      else (record { open_nodes = cur_node ∷ outer }, [])

  unfoldable pub step : Parser → Event → Parser × List Message
  step p (start_element node_name attributes) = start_node p.open_nodes node_name attributes
  step p (end_element node_name) = end_node p.open_nodes node_name
  step p (text t) = text_node p.open_nodes t

  -- The events of one or more calls of `lm_parser_parse`, and the messages handed to the callback.
  unfoldable pub run : Parser → List Event → Parser × List Message
  run p [] = (p, [])
  run p (e ∷ es) = let (q, now) = step p e in let (r, later) = run q es in (r, now ++ later)

-- GLib's XML parser: what it makes of a chunk of text, `FALSE` on an error. Its contexts are opaque.
pub record Markup : Type 1 where
  pub Context : Type 0
  pub context_new : Context
  pub parse : Context → Text → Context × List Event × Bool

-- `struct LmParser` with its context, which is `NULL` after an error.
pub record Feed (m : Markup) : Type 0 where
  pub parser : Parser
  pub context : Option m.Context

module _ (strcaseeq : Text → Text → Bool) (m : Markup) where
  -- `lm_parser_new`
  unfoldable pub parser_new : Feed m
  parser_new = record { parser = idle; context = some m.context_new }

  -- `lm_parser_parse`: what was parsed, the messages handed over, and the result.
  unfoldable pub parser_parse : Feed m → Text → Feed m × List Message × Bool
  parser_parse f string =
      let context : m.Context = elim f.context [ none ↦ m.context_new | some c ↦ c ] in
      let (context', es, parsed) = m.parse context string in
      let (p, messages) = run strcaseeq f.parser es in
      (record { parser = p; context = if parsed then some context' else none }, messages, parsed)
