-- ===== src/Resolver/Results.antt =====
-- The results of a look-up, one after the other: loudmouth/lm-resolver.c.
use loudmouth.Base.{ℕ, zero, suc, ◌≡◌, refl, ap, ◌∙◌, arith, List, [], ◌∷◌, Option, get_elem?}
use loudmouth.Resolver.{Addrinfo, inet, other, Resolver, next_inet, results_get_next, results_reset}

-- The IPv4 addresses among the results.
abbrev pub inet_of : List Addrinfo → List Addrinfo
inet_of [] = []
inet_of (a ∷ rest) = elim a.ai_family [ inet ↦ a ∷ inet_of rest | other ↦ inet_of rest ]

-- The resolver after a number of calls of `lm_resolver_results_get_next`.
abbrev pub after : ℕ → Resolver → Resolver
after zero resolver = resolver
after (suc n) resolver = after n (results_get_next resolver).1

abbrev first : List Addrinfo → Option Addrinfo
first xs = get_elem? xs 0

abbrev tail : List Addrinfo → List Addrinfo
tail [] = []
tail (x ∷ xs) = xs

next_inet-first : (xs : List Addrinfo) → (next_inet xs).0 ≡ get_elem? (inet_of xs) 0
unfolding next_inet
next_inet-first [] = refl
next_inet-first (a ∷ xs) = ground (arith, next_inet-first xs)

next_inet-tail : (xs : List Addrinfo) → inet_of (next_inet xs).1 ≡ tail (inet_of xs)
unfolding next_inet
next_inet-tail [] = refl
next_inet-tail (a ∷ xs) = ground (arith, next_inet-tail xs)

get_elem?-tail : (n : ℕ) (xs : List Addrinfo) → get_elem? (tail xs) n ≡ get_elem? xs (suc n)
get_elem?-tail n [] = refl
get_elem?-tail n (x ∷ xs) = refl

after-get_next :
    (n : ℕ) (resolver : Resolver)
    → (results_get_next (after n resolver)).0 ≡ get_elem? (inet_of resolver.current_result) n
unfolding results_get_next
after-get_next zero resolver = next_inet-first resolver.current_result
after-get_next (suc n) resolver =
    after-get_next n (results_get_next resolver).1
    ∙ ap (λ xs. get_elem? xs n) (next_inet-tail resolver.current_result)
    ∙ get_elem?-tail n (inet_of resolver.current_result)

-- After lm_resolver_results_reset, whatever has been read before, the calls of
-- lm_resolver_results_get_next give the IPv4 addresses among the results in their order, each once,
-- and then no more.
pub results_get_next-reset :
    (n m : ℕ) (resolver : Resolver)
    → (results_get_next (after n (results_reset (after m resolver)))).0
      ≡ get_elem? (inet_of resolver.results) n
unfolding results_reset results_get_next
results_get_next-reset n zero resolver = after-get_next n (results_reset resolver)
results_get_next-reset n (suc m) resolver = results_get_next-reset n m (results_get_next resolver).1
