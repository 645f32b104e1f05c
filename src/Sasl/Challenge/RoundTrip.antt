-- ===== src/Sasl/Challenge/RoundTrip.antt =====
-- A challenge written as `key="value",…` is read back by the parser of loudmouth/lm-sasl.c.
use mathlib.Core.List.{append-nil, append_assoc, reverse, reverse-cons}
use loudmouth.Base.{
  ℕ, zero, suc, ◌≤◌, ◌<◌, ◌≡◌, refl, sym, ap, ◌∙◌, Bool, false, List, [], ◌∷◌, ◌++◌, some, arith,
  Text, ◌==◌, length, length-append,
}
use loudmouth.Sasl.Challenge.{
  Table, take_until, skip_comma, quoted_value, read_value, read_entry, parsed, skip_spaces,
  next_entry, read_entries, challenge_to_hash, unescaped,
}

abbrev pub Lacks : ℕ → Text → Type 0
Lacks x [] = Unit {0}
Lacks x (c ∷ cs) = ((c == x) ≡ false) × Lacks x cs

-- A key does not start with a space, nor hold an `=`.
abbrev pub IsKey : (ℕ → Bool) → Text → Type 0
IsKey isspace [] = ⊥
IsKey isspace (c ∷ cs) = (isspace c ≡ false) × Lacks b'=' (c ∷ cs)

-- A value holds something, and needs no escapes.
abbrev pub IsPlain : Text → Type 0
IsPlain [] = ⊥
IsPlain (c ∷ cs) = Lacks b'"' (c ∷ cs) × Lacks b'\\' (c ∷ cs)

abbrev pub ArePrintable : (ℕ → Bool) → List (Text × Text) → Type 0
ArePrintable isspace [] = Unit {0}
ArePrintable isspace ((k, v) ∷ es) = IsKey isspace k × IsPlain v × ArePrintable isspace es

pub entry_text : Text → Text → Text → Text
entry_text k v rest = k ++ b'=' ∷ b'"' ∷ (v ++ b'"' ∷ rest)

pub more_entries : List (Text × Text) → Text
more_entries [] = []
more_entries ((k, v) ∷ es) = b',' ∷ entry_text k v (more_entries es)

-- What the server sends for an entry and those behind it.
pub challenge_text : Text × Text → List (Text × Text) → Text
challenge_text (k, v) es = entry_text k v (more_entries es)

pub take_until-Lacks :
    (stop : ℕ) (a rest : Text)
    → Lacks stop a
    → take_until stop (a ++ stop ∷ rest) ≡ (a, stop ∷ rest)
unfolding take_until
take_until-Lacks stop [] rest h = ground arith
take_until-Lacks stop (c ∷ cs) rest h = ground (arith, take_until-Lacks stop cs rest h.1)

unescaped-Lacks : (v : Text) → Lacks b'\\' v → unescaped v ≡ v
unfolding unescaped
unescaped-Lacks [] h = refl
unescaped-Lacks (c ∷ []) h = ground arith
unescaped-Lacks (c ∷ d ∷ rest) h = ground (arith, unescaped-Lacks (d ∷ rest) h.1)

read_value-quoted :
    (v rest : Text) → IsPlain v → read_value (b'"' ∷ (v ++ b'"' ∷ rest)) ≡ some (v, rest)
unfolding read_value quoted_value
read_value-quoted [] rest h = absurd h
read_value-quoted (c ∷ cs) rest h =
    rw (take_until-Lacks b'"' (c ∷ cs) rest h.0) (rw (unescaped-Lacks (c ∷ cs) h.1))

reverse_shift {ℓ} :
    {A : Type ℓ} (x : A) (l acc : List A) → reverse (x ∷ l) ++ acc ≡ reverse l ++ x ∷ acc
reverse_shift x l acc = rw (reverse-cons x l) (append_assoc (reverse l) (x ∷ []) acc)

module _ (isspace : ℕ → Bool) where
  next_entry-entry_text :
      (k v rest : Text)
      → IsKey isspace k
      → IsPlain v
      → next_entry isspace (entry_text k v rest) ≡ some (k, v, skip_comma rest)
  unfolding next_entry entry_text skip_spaces read_entry
  next_entry-entry_text [] v rest h p = absurd h
  next_entry-entry_text (c ∷ cs) v rest h p = rw h.0 (
      rw (take_until-Lacks b'=' (c ∷ cs) (b'"' ∷ (v ++ b'"' ∷ rest)) h.1)
        (rw (read_value-quoted v rest p, read_entry)))

  read_entries-challenge_text :
      (fuel : ℕ) (acc : Table) (k v : Text) (es : List (Text × Text))
      → length es < fuel
      → ArePrintable isspace ((k, v) ∷ es)
      → read_entries isspace fuel acc (entry_text k v (more_entries es))
        ≡ parsed (reverse ((k, v) ∷ es) ++ acc)
  unfolding read_entries more_entries skip_comma entry_text
  read_entries-challenge_text zero acc k v es h p = absurd (omega arith)
  read_entries-challenge_text (suc fuel) acc k v [] h p =
      rw (next_entry-entry_text k v [] p.0 p.1, read_entries)
  read_entries-challenge_text (suc fuel) acc k v (([], w) ∷ es) h p = absurd p.2.0
  read_entries-challenge_text (suc fuel) acc k v ((c ∷ cs, w) ∷ es) h p =
      rw (next_entry-entry_text k v (more_entries ((c ∷ cs, w) ∷ es)) p.0 p.1, read_entries)
        (read_entries-challenge_text fuel ((k, v) ∷ acc) (c ∷ cs) w es (omega arith) p.2
          ∙ ap parsed (sym (reverse_shift (k, v) ((c ∷ cs, w) ∷ es) acc)))

length-more_entries : (es : List (Text × Text)) → length es ≤ length (more_entries es)
unfolding more_entries entry_text
length-more_entries [] = omega arith
length-more_entries ((k, v) ∷ es) = omega (
  arith,
  length-append k (b'=' ∷ b'"' ∷ (v ++ b'"' ∷ more_entries es)),
  length-append v (b'"' ∷ more_entries es),
  length-more_entries es,
)

-- A challenge written as entries `key="value"` with commas between them is parsed into exactly
-- those entries, a later one of the same key counting, if no key is empty, starts with a space or
-- holds an equals sign, and no value is empty or holds a quote or a backslash.
pub challenge_to_hash-challenge_text :
    (isspace : ℕ → Bool) (k v : Text) (es : List (Text × Text))
    → ArePrintable isspace ((k, v) ∷ es)
    → challenge_to_hash isspace (challenge_text (k, v) es) ≡ parsed (reverse ((k, v) ∷ es))
unfolding challenge_to_hash challenge_text entry_text
challenge_to_hash-challenge_text isspace k v es p =
    read_entries-challenge_text isspace (suc (length (entry_text k v (more_entries es)))) [] k v es
      (omega (
        arith,
        length-append k (b'=' ∷ b'"' ∷ (v ++ b'"' ∷ more_entries es)),
        length-append v (b'"' ∷ more_entries es),
        length-more_entries es,
      ))
      p
    ∙ ap parsed (append-nil (reverse ((k, v) ∷ es)))
