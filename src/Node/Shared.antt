-- ===== src/Node/Shared.antt =====
-- The references to nodes and messages (loudmouth/lm-message-node.c and lm-message.c). A node has
-- its label here, which stands for its name, value and attributes, its count and its children; the
-- counts are `gint`, so they keep to 32 bits.
pub mod Release
use loudmouth.Base.{ℕ, zero, suc, ◌+◌, ◌%◌, List, [], ◌∷◌, ◌++◌, Option, none, some, length}

mutual
  pub data Shared (A : Type 0) : Type 0 where
    shared : A → ℕ → Siblings A → Shared A

  pub data Siblings (A : Type 0) : Type 0 where
    no_more : Siblings A
    sibling : Shared A → Siblings A → Siblings A

-- `struct LmMessage` with the count of `LmMessagePriv`.
pub record SharedMessage (A : Type 0) : Type 0 where
  pub node : Shared A
  pub ref_count : ℕ

module _ {A : Type 0} where
  -- `lm_message_node_ref`
  unfoldable pub ref : Shared A → Shared A
  ref (shared a n cs) = shared a ((n + 1) % 4294967296) cs

  -- The test in `lm_message_node_unref` of the count that is left, and `message_node_free`, where
  -- the loop over the children has already come to some result.
  unfoldable pub released : A → ℕ → Siblings A → List (Shared A) × List A → List (Shared A) × List A
  released a zero cs (left, freed) = (left, freed ++ a ∷ [])
  released a (suc n) cs below = (shared a (suc n) cs ∷ [], [])

  -- `lm_message_node_unref`: the trees that are left, and the nodes that are freed, in order. The
  -- second is the loop of `message_node_free`.
  unfoldable mutual
    unfolding released

    pub unref : Shared A → List (Shared A) × List A
    unref (shared a n cs) =
        let below = unref_children cs in released a ((n + 4294967295) % 4294967296) cs below

    pub unref_children : Siblings A → List (Shared A) × List A
    unref_children no_more = ([], [])
    unref_children (sibling t ts) =
        let (left, freed) = unref t in
        let (later_left, later_freed) = unref_children ts in
        (left ++ later_left, freed ++ later_freed)

  -- `_lm_message_new_from_node`, for the counts: the message takes a reference.
  unfoldable pub new_from_node : Shared A → SharedMessage A
  unfolding ref
  new_from_node t = record { node = ref t; ref_count = 1 }

  -- `lm_message_unref` by the count that is left: the message, unless it is freed, and what becomes
  -- of its node.
  unfoldable pub message_released :
      ℕ → SharedMessage A → Option (SharedMessage A) × List (Shared A) × List A
  unfolding unref
  message_released zero m = let (left, freed) = unref m.node in (none, left, freed)
  message_released (suc n) m = (some (record m { ref_count = suc n }), m.node ∷ [], [])

  -- `lm_message_unref`
  unfoldable pub message_unref :
      SharedMessage A → Option (SharedMessage A) × List (Shared A) × List A
  unfolding message_released
  message_unref m = message_released ((m.ref_count + 4294967295) % 4294967296) m
