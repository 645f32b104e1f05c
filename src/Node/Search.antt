-- ===== src/Node/Search.antt =====
-- Looking for children and descendants in loudmouth/lm-message-node.c.
use loudmouth.Base.{
  ◌≡◌, refl, false, List, [], ◌∷◌, ◌++◌, Option, none, some, arith, Text, str_eq, opt_str_eq,
  if◌then◌else◌,
}
use loudmouth.Node.{
  Node, node, Children, nil, cons, name_of, add_child, append_child, first_named, get_child,
  or_else, find_below, find_among, find_child,
}

-- The first node of a list that has the name.
unfoldable pub first : Text → List Node → Option Node
first name [] = none
first name (n ∷ ns) = if opt_str_eq (name_of n) name then some n else first name ns

-- The nodes below a node in document order: each before those below it, and those before its
-- later siblings.
unfoldable mutual
  pub descendants : Node → List Node
  descendants (node n v r ats cs) = children_descendants cs

  pub children_descendants : Children → List Node
  children_descendants nil = []
  children_descendants (cons n cs) = n ∷ (descendants n ++ children_descendants cs)

first-append :
    (name : Text) (xs ys : List Node)
    → first name (xs ++ ys) ≡ or_else (first name xs) (first name ys)
unfolding first
first-append name [] ys = refl
first-append name (x ∷ xs) ys = ground (arith, first-append name xs ys)

mutual
  unfolding find_below descendants first

  find_below-descendants : (name : Text) (n : Node) → find_below name n ≡ first name (descendants n)
  find_below-descendants name (node n v r ats cs) = find_among-descendants name cs

  find_among-descendants :
      (name : Text) (cs : Children) → find_among name cs ≡ first name (children_descendants cs)
  find_among-descendants name nil = refl
  find_among-descendants name (cons n cs) = ground (
    arith,
    first-append name (descendants n) (children_descendants cs),
    find_below-descendants name n,
    find_among-descendants name cs,
  )

-- lm_message_node_find_child returns the first node with the name, in document order, among all
-- nodes below the given one, and NULL if there is none.
pub find_child-descendants :
    (n : Node) (name : Text) → find_child n (some name) ≡ first name (descendants n)
unfolding find_child
find_child-descendants n name = find_below-descendants name n

first_named-append_child :
    (name : Text) (cs : Children) (child : Node)
    → first_named name (append_child cs child)
      ≡ or_else (first_named name cs) (if opt_str_eq (name_of child) name then some child else none)
unfolding first_named append_child
first_named-append_child name nil child = ground arith
first_named-append_child name (cons n cs) child =
    ground (arith, first_named-append_child name cs child)

-- After lm_message_node_add_child, lm_message_node_get_child finds what it found before, and
-- otherwise the new child, with its value, if it has the name asked for: a new child never hides
-- an older one of the same name.
get_child-add_child :
    (n : Node) (name other : Text) (value : Option Text)
    → get_child (add_child n (some name) value).0 (some other)
      ≡ or_else
          (get_child n (some other))
          (if str_eq name other then some (node (some name) value false [] nil) else none)
unfolding get_child add_child
get_child-add_child (node n v r ats cs) name other value = first_named-append_child other cs _
