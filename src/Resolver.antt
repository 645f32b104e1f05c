-- ===== src/Resolver.antt =====
-- loudmouth/lm-resolver.c: what a look-up is for and what it found, and the choice of a server in the
-- answer to an SRV query.
pub mod Results
pub mod Blocking
pub mod Asyncns
pub mod Srv
pub mod Reports
use loudmouth.Base.{
  ℕ, zero, suc, ◌+◌, ◌*◌, ◌-◌, Bool, true, false, List, [], ◌∷◌, ◌++◌, Option, none, some, Text,
  codes, ltb, if◌then◌else◌,
}

-- `LmResolverType`
pub data ResolverType : Type 0 where
  host srv : ResolverType

-- `LmResolverResult`
pub data Result : Type 0 where
  ok failed cancelled : Result

-- `ai_family`, as far as the code tells: `AF_INET` or another.
pub data Family : Type 0 where
  inet other : Family

-- `struct addrinfo`, without its pointer to the next: the address as the numbers of its bytes.
pub record Addrinfo : Type 0 where
  pub ai_family : Family
  pub ai_addr : Text

-- `struct LmResolverPriv`. A pointer into the results is the rest of them.
pub record Resolver : Type 0 where
  pub type : ResolverType
  pub host : Option Text
  pub port : ℕ
  pub domain : Option Text
  pub service : Option Text
  pub protocol : Option Text
  pub result : Result
  pub results : List Addrinfo
  pub current_result : List Addrinfo

-- `lm_resolver_new_for_host`
unfoldable pub new_for_host : Text → Resolver
new_for_host name = record {
  type = host;
  host = some name;
  port = 0;
  domain = none;
  service = none;
  protocol = none;
  result = ok;
  results = [];
  current_result = [];
}

-- `lm_resolver_new_for_service`
unfoldable pub new_for_service : Text → Text → Text → Resolver
new_for_service domain service protocol = record {
  type = srv;
  host = none;
  port = 0;
  domain = some domain;
  service = some service;
  protocol = some protocol;
  result = ok;
  results = [];
  current_result = [];
}

-- The loop of `lm_resolver_results_get_next`: the first IPv4 address, and the rest after it.
unfoldable pub next_inet : List Addrinfo → Option Addrinfo × List Addrinfo
next_inet [] = (none, [])
next_inet (a ∷ rest) = elim a.ai_family [ inet ↦ (some a, rest) | other ↦ next_inet rest ]

-- `lm_resolver_results_get_next`
unfoldable pub results_get_next : Resolver → Option Addrinfo × Resolver
unfolding next_inet
results_get_next resolver =
    let (found, rest) = next_inet resolver.current_result in
    (found, record resolver { current_result = rest })

-- `lm_resolver_results_reset`
unfoldable pub results_reset : Resolver → Resolver
results_reset resolver = record resolver { current_result = resolver.results }

-- `_lm_resolver_create_srv_string`
unfoldable pub create_srv_string : Option Text → Option Text → Option Text → Option Text
create_srv_string (some domain) (some service) (some protocol) =
    some (b'_' ∷ service ++ (codes "._" ++ (protocol ++ b'.' ∷ domain)))
create_srv_string _ _ _ = none

-- A call of the resolver's callback: the result, and the resolver as the callback finds it.
pub record Callback : Type 0 where
  pub result : Result
  pub resolver : Resolver

-- `_lm_resolver_set_result`, with the call of the callback.
unfoldable pub set_result : Resolver → Result → List Addrinfo → Resolver × Callback
set_result resolver result results =
    let set = record resolver { result = result; results = results; current_result = results } in
    (set, record { result = result; resolver = set })

-- The response to an SRV query in memory: the counts of its header, the bytes from `srv` on, and
-- `dn_expand` of the C library, which is a parameter: given a position and what the buffer for the
-- name holds, the length that it moved on, or `none` for -1, and what the buffer holds then.
pub record Response : Type 0 where
  pub qdcount : ℕ
  pub ancount : ℕ
  pub byte : ℕ → ℕ
  pub dn_expand : ℕ → Text → Option ℕ × Text

-- `GETSHORT`, without the move of the pointer.
unfoldable pub get_short : Response → ℕ → ℕ
get_short response pos = response.byte pos * 256 + response.byte (pos + 1)

-- `pos += len`, where `len` is -1 after a failure.
unfoldable pub move : ℕ → Option ℕ → ℕ
move pos (some len) = pos + len
move pos none = pos - 1

-- The loop over the questions: where it ends and what the buffer holds.
unfoldable pub skip_questions : Response → ℕ → ℕ → Text → ℕ × Text
skip_questions response zero pos name = (pos, name)
skip_questions response (suc qdcount) pos name =
    let (len, name_1) = response.dn_expand pos name in
    elim len [
      | none ↦ (pos, name_1)
      | some n ↦ skip_questions response qdcount (pos + n + 4) name_1
    ]

-- `pref_name`, `pref_port` and `pref_prio`
pub record Preferred : Type 0 where
  pub name : Text
  pub port : ℕ
  pub prio : ℕ

-- What an answer makes of the record preferred so far.
unfoldable pub prefer : Preferred → ℕ → ℕ → Text → Preferred
prefer best pref port name =
    if ltb pref best.prio then record { name = name; port = port; prio = pref } else best

-- The loop over the answers.
unfoldable pub read_answers : Response → ℕ → ℕ → Text → Preferred → Preferred
unfolding prefer get_short move
read_answers response zero pos name best = best
read_answers response (suc ancount) pos name best =
    let (owner, name_1) = response.dn_expand pos name in
    elim owner [
      | none ↦ best
      | some len ↦
          let start = pos + len + 10 in
          let pref = get_short response start in
          let port = get_short response (start + 4) in
          let (target, name_2) = response.dn_expand (start + 6) name_1 in
          read_answers response ancount (move (start + 6) target) name_2
            (prefer best pref port name_2)
    ]

-- `pref_name` and `pref_port` if there is such a name, for `out_server` and `out_port`.
unfoldable pub chosen : Preferred → Option (Text × ℕ)
chosen best = elim best.name [ [] ↦ none | _ ↦ some (best.name, best.port) ]

-- `_lm_resolver_parse_srv_response`, with what the buffer for names holds at first: `none` for
-- `FALSE`.
unfoldable pub parse_srv_response : Response → Text → Option (Text × ℕ)
unfolding chosen skip_questions read_answers
parse_srv_response response buffer =
    let (pos, name) = skip_questions response response.qdcount 12 buffer in
    chosen (
      read_answers response response.ancount pos name (record { name = []; port = 0; prio = 9999 }))
