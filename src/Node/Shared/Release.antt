-- ===== src/Node/Shared/Release.antt =====
-- What becomes of nodes that are let go of (loudmouth/lm-message-node.c).
use loudmouth.Base.{
  ℕ, zero, suc, ◌+◌, ◌%◌, ◌<◌, ◌≡◌, refl, sym, ap, List, [], ◌∷◌, ◌++◌, Option, none, arith,
}
use loudmouth.Node.Shared.{
  Shared, shared, SharedMessage, Siblings, no_more, sibling, released, unref, unref_children,
  new_from_node, message_unref,
}

-- The sum of a weight over a list.
abbrev pub total : {A : Type 0} → (A → ℕ) → List A → ℕ
total weight [] = 0
total weight (a ∷ as') = weight a + total weight as'

-- The sum of a weight over a tree.
abbrev mutual
  pub weigh : {A : Type 0} → (A → ℕ) → Shared A → ℕ
  weigh weight (shared a n cs) = weight a + weigh_all weight cs

  pub weigh_all : {A : Type 0} → (A → ℕ) → Siblings A → ℕ
  weigh_all weight no_more = 0
  weigh_all weight (sibling t ts) = weigh weight t + weigh_all weight ts

total-append :
    {A : Type 0}
    → (weight : A → ℕ) (xs ys : List A)
    → total weight (xs ++ ys) ≡ total weight xs + total weight ys
total-append weight [] ys = omega arith
total-append weight (x ∷ xs) ys = omega (arith, total-append weight xs ys)

one_less : (n h : ℕ) → n ≡ suc h → n < 4294967296 → (n + 4294967295) % 4294967296 ≡ h
one_less n h e small = ground arith

module _ {A : Type 0} (held : A → ℕ) where
  -- Each node of a tree is held by its parent, or by the one who is about to let go of it, and as
  -- often as `held` says by others.
  abbrev mutual
    pub IsOwned : Shared A → Type 0
    IsOwned (shared a n cs) = (n ≡ suc (held a)) × (n < 4294967296) × AreOwned cs

    pub AreOwned : Siblings A → Type 0
    AreOwned no_more = Unit {0}
    AreOwned (sibling t ts) = IsOwned t × AreOwned ts

  -- A tree that only others hold, at least once.
  abbrev pub IsHeld : Shared A → Type 0
  IsHeld (shared a n cs) = (n ≡ held a) × (0 < held a) × AreOwned cs

  abbrev pub AreHeld : List (Shared A) → Type 0
  AreHeld [] = Unit {0}
  AreHeld (t ∷ ts) = IsHeld t × AreHeld ts

  abbrev pub NoneHeld : List A → Type 0
  NoneHeld [] = Unit {0}
  NoneHeld (a ∷ as') = (held a ≡ 0) × NoneHeld as'

  AreHeld-append : (xs ys : List (Shared A)) → AreHeld xs → AreHeld ys → AreHeld (xs ++ ys)
  AreHeld-append [] ys h k = k
  AreHeld-append (x ∷ xs) ys (hx, h) k = (hx, AreHeld-append xs ys h k)

  NoneHeld-append : (xs ys : List A) → NoneHeld xs → NoneHeld ys → NoneHeld (xs ++ ys)
  NoneHeld-append [] ys h k = k
  NoneHeld-append (x ∷ xs) ys (hx, h) k = (hx, NoneHeld-append xs ys h k)

  -- What is left is held, what is freed is not, and that is all there was.
  abbrev Parts : (A → ℕ) → List (Shared A) × List A → ℕ → Type 0
  Parts weight (left, freed) whole =
      AreHeld left × NoneHeld freed × (total (weigh weight) left + total weight freed ≡ whole)

  released-Parts :
      (weight : A → ℕ) (a : A) (n : ℕ) (cs : Siblings A) (below : List (Shared A) × List A)
      → n ≡ held a
      → AreOwned cs
      → Parts weight below (weigh_all weight cs)
      → Parts weight (released a n cs below) (weight a + weigh_all weight cs)
  unfolding released
  released-Parts weight a zero cs (left, freed) e o (h, k, s) = (
    h,
    NoneHeld-append freed (a ∷ []) k (sym e, tt),
    omega (arith, s, total-append weight freed (a ∷ [])),
  )
  released-Parts weight a (suc n) cs below e o p = (((e, omega (arith, e), o), tt), tt, omega arith)

  mutual
    unfolding unref

    unref-Parts :
        (weight : A → ℕ) (t : Shared A) → IsOwned t → Parts weight (unref t) (weigh weight t)
    unref-Parts weight (shared a n cs) (e, small, o) =
        released-Parts weight a ((n + 4294967295) % 4294967296) cs (unref_children cs)
          (one_less n (held a) e small) o (unref_children-Parts weight cs o)

    unref_children-Parts :
        (weight : A → ℕ) (ts : Siblings A)
        → AreOwned ts
        → Parts weight (unref_children ts) (weigh_all weight ts)
    unref_children-Parts weight no_more o = (tt, tt, refl)
    unref_children-Parts weight (sibling t ts) (o, os) =
        let (h, k, s) = unref-Parts weight t o in
        let (h', k', s') = unref_children-Parts weight ts os in
        (
          AreHeld-append (unref t).0 (unref_children ts).0 h h',
          NoneHeld-append (unref t).1 (unref_children ts).1 k k',
          omega (
            arith,
            s,
            s',
            total-append (weigh weight) (unref t).0 (unref_children ts).0,
            total-append weight (unref t).1 (unref_children ts).1,
          ),
        )

  -- If each node of a tree has as many references as others hold and one more, from its parent or
  -- from the one who drops it, then dropping the tree's root frees only nodes that nobody else
  -- holds, and leaves trees whose roots others do hold, as often as their counts say, with their
  -- children owned as before; every node is freed or left, once, so the sum of any weight of the
  -- nodes is the same.
  pub unref_lem :
      (weight : A → ℕ) (t : Shared A)
      → IsOwned t
      → AreHeld (unref t).0
        × NoneHeld (unref t).1
        × (total (weigh weight) (unref t).0 + total weight (unref t).1 ≡ weigh weight t)
  unref_lem weight t o = unref-Parts weight t o

count_back :
    (n : ℕ) → n + 2 < 4294967296 → ((suc n + 1) % 4294967296 + 4294967295) % 4294967296 ≡ suc n
count_back n small = ground arith

-- A message that is freed, and what becomes of its node.
abbrev freed_with :
    {A : Type 0} → List (Shared A) × List A → Option (SharedMessage A) × List (Shared A) × List A
freed_with (left, freed) = (none, left, freed)

-- A message that is made of a node and dropped leaves the node as it was.
message_unref-new_from_node :
    {A : Type 0} (a : A) (n : ℕ) (cs : Siblings A)
    → n + 2 < 4294967296
    → message_unref (new_from_node (shared a (suc n) cs)) ≡ (none, shared a (suc n) cs ∷ [], [])
unfolding message_unref new_from_node unref
message_unref-new_from_node a n cs small =
    ap (λ (k : ℕ). freed_with (released a k cs (unref_children cs))) (count_back n small)
