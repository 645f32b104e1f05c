-- ===== src/Resolver/Blocking.antt =====
-- loudmouth/lm-blocking-resolver.c: a look-up that blocks, in an idle source of the main loop.
use loudmouth.Base.{
  ℕ, Bool, true, false, ◌&&◌, not, List, [], ◌∷◌, ◌++◌, Option, none, some, Text, is_null,
}
use loudmouth.Resolver.{
  ResolverType, Result, Addrinfo, Resolver, Callback, Response, set_result, parse_srv_response,
  create_srv_string,
}

-- What the calls of the C library give: `getaddrinfo` for a host, whether it fails and what the
-- variable for its answer then holds, and `res_query` for a service, what is in the buffer then and
-- in the buffer for names. The length that it returns only bounds `dn_expand`.
pub record Dns : Type 0 where
  pub getaddrinfo : Option Text → Bool × List Addrinfo
  pub res_query : Option Text → Response
  pub names : Text

-- `ans == NULL`
abbrev pub no_address : List Addrinfo → Bool
no_address [] = true
no_address (_ ∷ _) = false

-- A call of `_lm_resolver_set_result` under a condition.
unfoldable pub set_result_if : Bool → Resolver → Result → List Addrinfo → Resolver × List Callback
unfolding set_result
set_result_if true resolver result results =
    let (next, call) = set_result resolver result results in (next, call ∷ [])
set_result_if false resolver result results = (resolver, [])

-- `blocking_resolver_lookup_host` after `getaddrinfo`.
unfoldable pub host_answered : Resolver → Bool → List Addrinfo → Resolver × List Callback × Bool
unfolding set_result_if
host_answered resolver err ans =
    let (resolver_1, calls_1) = set_result_if err resolver Result.failed [] in
    let (resolver_2, calls_2) = set_result_if (no_address ans) resolver_1 Result.failed [] in
    let retval = not err && not (no_address ans) in
    let (resolver_3, calls_3) = set_result_if retval resolver_2 Result.ok ans in
    (resolver_3, calls_1 ++ (calls_2 ++ calls_3), retval)

module _ (dns : Dns) where
  -- `blocking_resolver_lookup_host`
  unfoldable pub lookup_host : Resolver → Resolver × List Callback × Bool
  unfolding host_answered
  lookup_host resolver =
      let (err, ans) = dns.getaddrinfo resolver.host in host_answered resolver err ans

  -- What the service resolves to goes into the properties `host` and `port`.
  abbrev set_found : Resolver → Option (Text × ℕ) → Resolver
  set_found resolver none = record resolver { host = none; port = 0 }
  set_found resolver (some (server, port)) = record resolver { host = some server; port = port }

  -- `blocking_resolver_lookup_service`
  unfoldable pub lookup_service : Resolver → Resolver × List Callback × Bool
  unfolding set_result parse_srv_response create_srv_string
  lookup_service resolver =
      let srv = create_srv_string resolver.domain resolver.service resolver.protocol in
      let result = parse_srv_response (dns.res_query srv) dns.names in
      let resolver_1 = set_found resolver result in
      let (resolver_2, call) = set_result resolver_1 Result.ok [] in
      (resolver_2, call ∷ [], not (is_null result))

-- A resolver with the idle source that it waits for, as `idle_source`.
pub record BlockingResolver : Type 0 where
  pub base : Resolver
  pub idle_source : Option ℕ

-- `blocking_resolver_idle_lookup`: it calls back, and its source is removed as it gives `FALSE`.
unfoldable pub idle_lookup : Dns → BlockingResolver → BlockingResolver × List Callback
unfolding lookup_host lookup_service
idle_lookup dns resolver =
    let found : Resolver × List Callback × Bool = elim resolver.base.type [
      | ResolverType.host ↦ lookup_host dns resolver.base
      | ResolverType.srv ↦ lookup_service dns resolver.base
    ] in
    let (base, calls, _) = found in (record { base = base; idle_source = none }, calls)

-- What a call does to the main loop.
pub data IdleEffect : Type 0 where
  adds_idle destroys : ℕ → IdleEffect

-- `blocking_resolver_lookup`, with the number of the new source.
unfoldable pub lookup : ℕ → BlockingResolver → BlockingResolver × List IdleEffect
lookup source resolver = (record resolver { idle_source = some source }, adds_idle source ∷ [])

-- `blocking_resolver_cancel`
unfoldable pub cancel : BlockingResolver → BlockingResolver × List IdleEffect
cancel resolver = elim resolver.idle_source [
  | none ↦ (resolver, [])
  | some source ↦ (record resolver { idle_source = none }, destroys source ∷ [])
]
