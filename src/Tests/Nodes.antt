-- ===== src/Tests/Nodes.antt =====
-- Tests of the model of loudmouth/lm-message-node.c.
use loudmouth.Base.{
  ℕ, ◌+◌, ◌≡◌, refl, arith, ◌==◌, if◌then◌else◌, false, [], ◌∷◌, none, some, codes, str_eq,
}
use loudmouth.Node.{Node, node, nil, cons, to_string, attributes_string, value_string}
use loudmouth.Node.Attributes.{has_key, HasUniqueKeys}
use loudmouth.Node.Shared.{Shared, shared, no_more, sibling, unref}
use loudmouth.Node.Shared.Release.{total, weigh, AreHeld, NoneHeld, unref_lem}
use loudmouth.Node.Print.{events_string, events, to_string-events}

-- `<iq to="b" id="1"><query xmlns="v"><digest/></query><error/></iq>`
abbrev query : Node
query =
    node (some (codes "query")) none false ((codes "xmlns", codes "v") ∷ [])
      (cons (node (some (codes "digest")) none false [] nil) nil)

abbrev iq : Node
iq =
    node (some (codes "iq")) none false ((codes "to", codes "b") ∷ (codes "id", codes "1") ∷ [])
      (cons query (cons (node (some (codes "error")) none false [] nil) nil))

iq_text :
    to_string (λ t. t) iq
    ≡ codes "<iq to=\"b\" id=\"1\"><query xmlns=\"v\"><digest></digest></query><error></error></iq>"
unfolding to_string attributes_string value_string
iq_text = refl

iq-HasUniqueKeys : HasUniqueKeys iq
unfolding has_key str_eq
iq-HasUniqueKeys = (refl, (refl, tt))

to_string-events_example : to_string (λ t. t) iq ≡ events_string (λ t. t) (events iq)
to_string-events_example =
    to_string-events (λ t. t) iq (refl, ((refl, ((refl, tt), tt)), ((refl, tt), tt)))

-- A root with two children, of which the program holds the second, which has a child of its own.
abbrev holders : ℕ → ℕ
holders label = if label == 3 then 2 else 0

abbrev tree : Shared ℕ
tree = shared 1 1 (
    sibling (shared 2 1 no_more)
      (sibling (shared 3 3 (sibling (shared 4 1 no_more) no_more)) no_more))

tree_dropped : unref tree ≡ (shared 3 2 (sibling (shared 4 1 no_more) no_more) ∷ [], 2 ∷ 1 ∷ [])
unfolding unref
tree_dropped = refl

unref_lem_example :
    AreHeld holders (unref tree).0
    × NoneHeld holders (unref tree).1
    × (total (weigh (λ label. label)) (unref tree).0 + total (λ label. label) (unref tree).1 ≡ 10)
unref_lem_example =
    unref_lem holders (λ label. label) tree
      (
        refl,
        omega arith,
        ((refl, omega arith, tt), ((refl, omega arith, ((refl, omega arith, tt), tt)), tt)),
      )
