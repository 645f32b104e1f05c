-- ===== src/Tests/Resolvers.antt =====
-- Tests of the model of loudmouth/lm-resolver.c and of the two resolvers.
use loudmouth.Base.{ℕ, ◌≡◌, refl, true, List, [], ◌∷◌, some, none, codes, get_or}
use loudmouth.Resolver.{
  Addrinfo, inet, other, Resolver, ResolverType, Response, Result, parse_srv_response, get_short,
}
use loudmouth.Resolver.Blocking as B
use loudmouth.Resolver.Asyncns as A
use loudmouth.Resolver.Srv.{
  SrvRecord, lowest, server_of, question, no_question, answer, no_answer, parse_srv_response-lowest,
}

abbrev results : List Addrinfo
results =
    record { ai_family = other; ai_addr = 0 ∷ [] }
    ∷ record { ai_family = inet; ai_addr = 1 ∷ [] }
    ∷ record { ai_family = inet; ai_addr = 2 ∷ [] }
    ∷ []

abbrev found : Resolver
found = record {
  type = ResolverType.host;
  host = some (codes "h");
  port = 0;
  domain = none;
  service = none;
  protocol = none;
  result = Result.ok;
  results = results;
  current_result = results;
}

-- A question, and two answers of priorities 20 and 10 for the ports 5222 and 5223. Every name has two
-- bytes.
abbrev bytes : List ℕ
bytes =
    0 ∷ 0 ∷ 0 ∷ 0 ∷ 0 ∷ 0 ∷ 0 ∷ 0 ∷ 0 ∷ 0 ∷ 0 ∷ 0 ∷ 0 ∷ 0 ∷ 0 ∷ 0 ∷ 0 ∷ 0 ∷ 0 ∷ 0 ∷ 0 ∷ 0 ∷ 0 ∷ 0
    ∷ 0 ∷ 0 ∷ 0 ∷ 0 ∷ 0 ∷ 0 ∷ 0 ∷ 20 ∷ 0 ∷ 0 ∷ 20 ∷ 102 ∷ 0 ∷ 0 ∷ 0 ∷ 0 ∷ 0 ∷ 0 ∷ 0 ∷ 0 ∷ 0 ∷ 0 ∷ 0
    ∷ 0 ∷ 0 ∷ 0 ∷ 0 ∷ 10 ∷ 0 ∷ 0 ∷ 20 ∷ 103 ∷ []

abbrev response : Response
response = record {
  qdcount = 1;
  ancount = 2;
  byte = λ i. get_or bytes i 0;
  dn_expand = λ pos buf. (some 2, codes "h");
}

abbrev srv_records : List SrvRecord
srv_records =
    record { priority = 20; port = 5222; target = codes "h" }
    ∷ record { priority = 10; port = 5223; target = codes "h" }
    ∷ []

second_server : server_of (lowest 9999 srv_records) ≡ some (codes "h", 5223)
second_server = refl

parse_srv_response-lowest_example :
    parse_srv_response response [] ≡ server_of (lowest 9999 srv_records)
unfolding get_short
parse_srv_response-lowest_example =
    parse_srv_response-lowest response srv_records 18 [] (question (λ buf. refl) no_question)
      (answer (λ buf. refl) refl refl (λ buf. refl)
        (answer (λ buf. refl) refl refl (λ buf. refl) no_answer))
      refl

-- A look-up that fails and leaves no address.
abbrev dns : B.Dns
dns = record { getaddrinfo = λ host. (true, []); res_query = λ srv. response; names = [] }

-- A resolver that waits for the answer to a query, for which none comes.
abbrev waiting : A.AsyncnsResolver
waiting = record {
  base = found;
  watch_resolv = some 7;
  resolv_query = some (A.res_query (some (codes "_xmpp-client._tcp.h")));
  asyncns_ctx = true;
  resolv_channel = true;
}
