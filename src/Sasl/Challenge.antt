-- ===== src/Sasl/Challenge.antt =====
-- The parser of a DIGEST-MD5 challenge in loudmouth/lm-sasl.c
-- (sasl_digest_md5_challenge_to_hash and sasl_strndup_unescaped).
-- A position in the text is what is left of it: the end is the terminating zero.
pub mod Fuel
pub mod RoundTrip
use loudmouth.Base.{
  ℕ, zero, suc, ◌+◌, ◌≡◌, refl, Bool, true, false, not, ◌&&◌, ◌||◌, List, [], ◌∷◌, ◌++◌, Option,
  none, some, arith, Text, str_eq, ◌==◌, if◌then◌else◌, length,
}

-- A `GHashTable` of texts. The newest entry of a key counts: an insertion replaces the older one.
abbrev pub Table : Type 0
Table = List (Text × Text)

-- `g_hash_table_lookup`
unfoldable pub lookup : Text → Table → Option Text
lookup k [] = none
lookup k ((j, v) ∷ t) = if str_eq j k then some v else lookup k t

-- The loop of `sasl_strndup_unescaped`. The character behind the text is the closing quote: a
-- backslash at the end takes that.
unfoldable pub unescaped : Text → Text
unescaped [] = []
unescaped (c ∷ []) = if c == b'\\' then b'"' ∷ [] else c ∷ []
unescaped (c ∷ d ∷ rest) =
    let skipped = unescaped rest in
    let kept = unescaped (d ∷ rest) in if c == b'\\' then d ∷ skipped else c ∷ kept

-- `for (; *c != '\0' && *c != stop; c++)`: what was passed over, and what is left.
unfoldable pub take_until : ℕ → Text → Text × Text
take_until stop [] = ([], [])
take_until stop (c ∷ cs) =
    let (passed, left) = take_until stop cs in
    if c == stop then ([], c ∷ cs) else (c ∷ passed, left)

-- `if (*c == ',') c++`
unfoldable pub skip_comma : Text → Text
skip_comma [] = []
skip_comma (c ∷ cs) = if c == b',' then cs else c ∷ cs

-- A value that starts behind a quote, up to the closing one: what it says and what is left.
unfoldable pub quoted_value : Text × Text → Option (Text × Text)
quoted_value (passed, []) = none
quoted_value ([], quote ∷ left) = none
quoted_value (c ∷ passed, quote ∷ left) = some (unescaped (c ∷ passed), left)

-- A value that ends at a comma or at the end of the text.
unfoldable pub plain_value : Text × Text → Option (Text × Text)
plain_value ([], left) = none
plain_value (c ∷ passed, left) = some (c ∷ passed, left)

-- What stands behind the `=`.
unfoldable pub read_value : Text → Option (Text × Text)
read_value [] = plain_value (take_until b',' [])
read_value (c ∷ cs) =
    if c == b'"' then quoted_value (take_until b'"' cs) else plain_value (take_until b',' (c ∷ cs))

-- The key of an entry, with its value and what is left.
unfoldable pub read_entry : Text × Text → Option (Text × Text × Text)
read_entry (key, []) = none
read_entry ([], equals ∷ left) = none
read_entry (k ∷ key, equals ∷ left) = elim (read_value left) [
  | none ↦ none
  | some (val, left') ↦ some (k ∷ key, val, skip_comma left')
]

-- The result of the loop; `out_of_fuel` stands for a loop that was cut off.
pub data Outcome : Type 0 where
  parsed : Table → Outcome
  failed : Outcome
  out_of_fuel : Outcome

-- `g_ascii_isspace` of GLib is a parameter.
module _ (isspace : ℕ → Bool) where
  unfoldable pub skip_spaces : Text → Text
  skip_spaces [] = []
  skip_spaces (c ∷ cs) = if isspace c then skip_spaces cs else c ∷ cs

  -- One round of the loop.
  unfoldable pub next_entry : Text → Option (Text × Text × Text)
  next_entry c = read_entry (take_until b'=' (skip_spaces c))

  -- The `do … while (*c != '\0')` loop, with fuel for its rounds.
  unfoldable pub read_entries : ℕ → Table → Text → Outcome
  read_entries zero result c = out_of_fuel
  read_entries (suc fuel) result c = elim (next_entry c) [
    | none ↦ failed
    | some (key, val, []) ↦ parsed ((key, val) ∷ result)
    | some (key, val, d ∷ left) ↦ read_entries fuel ((key, val) ∷ result) (d ∷ left)
  ]

  -- `sasl_digest_md5_challenge_to_hash`: every round reads at least a key.
  unfoldable pub challenge_to_hash : Text → Outcome
  challenge_to_hash challenge = read_entries (suc (length challenge)) [] challenge
