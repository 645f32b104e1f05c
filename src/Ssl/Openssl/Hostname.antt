-- ===== src/Ssl/Openssl/Hostname.antt =====
-- Which common names fit a server in loudmouth/lm-ssl-openssl.c.
use mathlib.Core.List.{append-nil}
use loudmouth.Base.{
  ℕ, ◌<◌, ◌≡◌, ◌≢◌, ◌⊎◌, refl, sym, ap, ◌∙◌, Bool, true, false, Option-cases, inl, inr, [], ◌∷◌,
  ◌++◌, Option, none, some, if◌then◌else◌, Text, length, length-append, take, drop, str_eq_self,
  starts_with, strstr, starts_with-take, starts_with-append, arith,
}
use loudmouth.Ssl.Openssl.{is_domain, hostname_matches}

found_or :
    (here : Bool) (t d : Text) (later : Option Text)
    → (if here then some t else later) ≡ some d
    → ((here ≡ true) × (t ≡ d)) ⊎ (later ≡ some d)
found_or true t d later h = inl (refl, cc)
found_or false t d later h = inr h

-- What `strstr` finds is a rest of the text that starts with what is looked for.
strstr-some :
    (t needle d : Text)
    → strstr t needle ≡ some d
    → (front : Text) × (t ≡ front ++ d) × (starts_with d needle ≡ true)
unfolding strstr
strstr-some [] needle d h = elim (found_or (starts_with [] needle) [] d none h) [
  | inl (here, e) ↦ ([], e, ap (λ t. starts_with t needle) (sym e) ∙ here)
  | inr later ↦ cc
]
strstr-some (c ∷ cs) needle d h =
    elim (found_or (starts_with (c ∷ cs) needle) (c ∷ cs) d (strstr cs needle) h) [
      | inl (here, e) ↦ ([], e, ap (λ t. starts_with t needle) (sym e) ∙ here)
      | inr later ↦
          let (front, split, start) = strstr-some cs needle d later in
          (c ∷ front, ap (λ t. c ∷ t) split, start)
    ]

head_eq : {x y : ℕ} {xs ys : Text} → x ∷ xs ≡ y ∷ ys → x ≡ y
head_eq h = cc

abbrev pub star_name : Text → Text
star_name rest = b'*' ∷ b'.' ∷ rest

one_long : (t : Text) → length t ≡ 1 → (c : ℕ) × (t ≡ c ∷ [])
one_long [] h = absurd (omega arith)
one_long (c ∷ []) h = (c, refl)
one_long (c ∷ d ∷ t) h = absurd (omega arith)

none_long : (t : Text) → length t ≡ 0 → t ≡ []
none_long [] h = refl
none_long (x ∷ t) h = absurd (omega arith)

bare :
    (front label u tail : Text) (c : ℕ)
    → front ≡ []
    → label ≡ c ∷ []
    → front ++ ((label ++ u) ++ tail) ≡ c ∷ (u ++ tail)
bare front label u tail c e f = rw (e, f)

-- A name below the domain of a wildcard is longer than what is left of the name behind its start.
not_within :
    (label rest front tail : Text)
    → 0 < length label
    → label ≢ b'*' ∷ []
    → b'*' ∷ b'.' ∷ rest ≢ front ++ ((label ++ b'.' ∷ rest) ++ tail)
not_within label rest front tail l other e =
    let sizes = ap length e in
    let front_size = length-append front ((label ++ b'.' ∷ rest) ++ tail) in
    let name_size = length-append (label ++ b'.' ∷ rest) tail in
    let label_size = length-append label (b'.' ∷ rest) in
    let no_front : length front ≡ 0 = omega (arith, sizes, front_size, name_size, label_size, l) in
    let (c, one) = one_long label (omega (arith, sizes, front_size, name_size, label_size, l)) in
    other (
      one
      ∙ ap (λ (x : ℕ). x ∷ [])
          (sym
            (head_eq (e ∙ bare front label (b'.' ∷ rest) tail c (none_long front no_front) one))))

not_found :
    (label rest : Text)
    → 0 < length label
    → label ≢ b'*' ∷ []
    → strstr (star_name rest) (label ++ b'.' ∷ rest) ≡ none
not_found label rest l other =
    elim (Option-cases (strstr (star_name rest) (label ++ b'.' ∷ rest))) [
      | inl absent ↦ absent
      | inr (d, found) ↦
          let (front, split, start) = strstr-some (star_name rest) (label ++ b'.' ∷ rest) d found in
          absurd (
            not_within label rest front (drop (length (label ++ b'.' ∷ rest)) d) l other
              (split ∙ ap (λ t. front ++ t) (starts_with-take d (label ++ b'.' ∷ rest) start)))
    ]

pub starts_self : (t : Text) → starts_with t t ≡ true
starts_self t = ap (λ u. starts_with u t) (sym (append-nil t)) ∙ starts_with-append t []

found_behind :
    (c : ℕ) (rest : Text)
    → c ≢ b'*'
    → c ≢ b'.'
    → strstr (star_name (c ∷ rest)) (c ∷ rest) ≡ some (c ∷ rest)
unfolding strstr starts_with
found_behind c rest star dot = ground (arith, star, dot, starts_self rest)

-- A certificate for `*.` and a domain is taken as one for the domain itself, if that does not begin
-- with a star or a dot, but for no name below the domain, whatever comes in front of it, a single
-- star aside.
pub hostname_matches-wildcard :
    (c : ℕ) (rest label : Text)
    → c ≢ b'*'
    → c ≢ b'.'
    → 0 < length label
    → label ≢ b'*' ∷ []
    → (hostname_matches (star_name (c ∷ rest)) (c ∷ rest) ≡ true)
      × (hostname_matches (star_name (c ∷ rest)) (label ++ b'.' ∷ c ∷ rest) ≡ false)
unfolding hostname_matches starts_with
hostname_matches-wildcard c rest label star dot l other = (
  ap (is_domain (c ∷ rest)) (found_behind c rest star dot) ∙ str_eq_self (take 63 (c ∷ rest)),
  ap (is_domain (label ++ b'.' ∷ c ∷ rest)) (not_found label (c ∷ rest) l other),
)
