-- ===== src/Sasl/Challenge/Fuel.antt =====
-- The loop of sasl_digest_md5_challenge_to_hash (loudmouth/lm-sasl.c) ends: every round moves on.
use loudmouth.Base.{
  ℕ, zero, suc, ◌+◌, ◌≤◌, ◌<◌, ◌≡◌, ◌≢◌, Bool, [], ◌∷◌, some, arith, Text, length, Option-cases,
  inl, inr,
}
use loudmouth.Sasl.Challenge.{
  Table, take_until, skip_comma, quoted_value, plain_value, read_value, read_entry, out_of_fuel,
  skip_spaces, next_entry, read_entries, challenge_to_hash,
}

-- The two parts of a text make up the text.
take_until-length :
    (stop : ℕ) (c : Text) → length (take_until stop c).0 + length (take_until stop c).1 ≡ length c
unfolding take_until
take_until-length stop [] = omega arith
take_until-length stop (c ∷ cs) = ground (arith, take_until-length stop cs)

skip_comma-le : (c : Text) → length (skip_comma c) ≤ length c
unfolding skip_comma
skip_comma-le [] = omega arith
skip_comma-le (c ∷ cs) = ground arith

quoted_value-le :
    (p : Text × Text) (val left : Text)
    → quoted_value p ≡ some (val, left)
    → length left ≤ length p.1
unfolding quoted_value
quoted_value-le (passed, []) val left h = cc
quoted_value-le ([], quote ∷ rest) val left h = cc
quoted_value-le (c ∷ passed, quote ∷ rest) val left h = ground arith

plain_value-le :
    (p : Text × Text) (val left : Text)
    → plain_value p ≡ some (val, left)
    → length left ≤ length p.1
unfolding plain_value
plain_value-le ([], rest) val left h = cc
plain_value-le (c ∷ passed, rest) val left h = ground arith

read_value-le : (c val left : Text) → read_value c ≡ some (val, left) → length left ≤ length c
unfolding read_value
read_value-le [] val left h =
    omega (arith, plain_value-le (take_until b',' []) val left h, take_until-length b',' [])
read_value-le (c ∷ cs) val left h = ground (
  arith,
  plain_value-le (take_until b',' (c ∷ cs)) val left,
  take_until-length b',' (c ∷ cs),
  quoted_value-le (take_until b'"' cs) val left,
  take_until-length b'"' cs,
)

read_entry-lt :
    (p : Text × Text) (key val left : Text)
    → read_entry p ≡ some (key, val, left)
    → length left < length p.0 + length p.1
unfolding read_entry
read_entry-lt (k, []) key val left h = cc
read_entry-lt ([], equals ∷ rest) key val left h = cc
read_entry-lt (k ∷ ks, equals ∷ rest) key val left h = elim (Option-cases (read_value rest)) [
  | inl e ↦ ground (arith, e)
  | inr ((v, left'), e) ↦ ground (arith, e, read_value-le rest v left' e, skip_comma-le left')
]

module _ (isspace : ℕ → Bool) where
  skip_spaces-le : (c : Text) → length (skip_spaces isspace c) ≤ length c
  unfolding skip_spaces
  skip_spaces-le [] = omega arith
  skip_spaces-le (c ∷ cs) = ground (arith, skip_spaces-le cs)

  next_entry-lt :
      (c key val left : Text)
      → next_entry isspace c ≡ some (key, val, left)
      → length left < length c
  unfolding next_entry
  next_entry-lt c key val left h = omega (
    arith,
    read_entry-lt (take_until b'=' (skip_spaces isspace c)) key val left h,
    take_until-length b'=' (skip_spaces isspace c),
    skip_spaces-le c,
  )

  read_entries_enough :
      (fuel : ℕ) (result : Table) (c : Text)
      → length c < fuel
      → read_entries isspace fuel result c ≢ out_of_fuel
  unfolding read_entries
  read_entries_enough zero result c h = absurd (omega arith)
  read_entries_enough (suc fuel) result c h = elim (Option-cases (next_entry isspace c)) [
    | inl e ↦ rw (e, read_entries) (λ x. cc)
    | inr ((key, val, []), e) ↦ rw (e, read_entries) (λ x. cc)
    | inr ((key, val, d ∷ left), e) ↦
        rw (e, read_entries)
          (read_entries_enough fuel ((key, val) ∷ result) (d ∷ left)
            (omega (arith, next_entry-lt c key val (d ∷ left) e)))
  ]

-- The parser of a challenge always comes to an end, with a table or with a failure.
pub challenge_to_hash-ne-out_of_fuel :
    (isspace : ℕ → Bool) (challenge : Text) → challenge_to_hash isspace challenge ≢ out_of_fuel
unfolding challenge_to_hash
challenge_to_hash-ne-out_of_fuel isspace challenge =
    read_entries_enough isspace (suc (length challenge)) [] challenge (omega arith)
