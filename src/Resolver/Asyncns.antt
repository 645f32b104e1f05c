-- ===== src/Resolver/Asyncns.antt =====
-- loudmouth/lm-asyncns-resolver.c: a look-up that libasyncns does in the background.
use loudmouth.Base.{
  ℕ, Bool, true, false, List, [], ◌∷◌, ◌++◌, Option, none, some, Text, leb, if◌then◌else◌,
}
use loudmouth.Resolver.{
  ResolverType, Result, Addrinfo, Resolver, Callback, Response, set_result, parse_srv_response,
  create_srv_string,
}

-- The function that is to be called when a query is done, which is the query's user data.
pub data Query : Type 0 where
  getaddrinfo : Option Text → Query
  res_query : Option Text → Query

-- `struct LmAsyncnsResolverPriv`, with the resolver it extends. `asyncns_ctx`, `resolv_channel`
-- and `watch_resolv` are set and reset together in all but the failure of `asyncns_new`, which
-- sets none.
pub record AsyncnsResolver : Type 0 where
  pub base : Resolver
  pub watch_resolv : Option ℕ
  pub resolv_query : Option Query
  pub asyncns_ctx : Bool
  pub resolv_channel : Bool

-- What libasyncns gives for a query that is done.
pub data Done : Type 0 where
  addrinfo_done : Bool → List Addrinfo → Done
  srv_done : ℕ → Response → Text → Done

pub data Effect : Type 0 where
  adds_watch destroys_watch : ℕ → Effect
  frees_channel frees_ctx : Effect
  cancels_query : Query → Effect
  calls_back : Callback → Effect

-- What `asyncns_resolver_cleanup` frees, of the channel, the watch and the context.
unfoldable pub freed : Bool → Option ℕ → Bool → List Effect
freed channel none ctx =
    (if channel then frees_channel ∷ [] else []) ++ (if ctx then frees_ctx ∷ [] else [])
freed channel (some source) ctx =
    (if channel then frees_channel ∷ [] else [])
    ++ destroys_watch source ∷ (if ctx then frees_ctx ∷ [] else [])

-- `asyncns_resolver_cleanup`
unfoldable pub cleanup : AsyncnsResolver → AsyncnsResolver × List Effect
unfolding freed
cleanup resolver = (
  record {
    base = resolver.base;
    watch_resolv = none;
    resolv_query = none;
    asyncns_ctx = false;
    resolv_channel = false;
  },
  freed resolver.resolv_channel resolver.watch_resolv resolver.asyncns_ctx,
)

-- `_lm_resolver_set_result` on the resolver that is extended.
unfoldable pub finish : AsyncnsResolver → Result → List Addrinfo → AsyncnsResolver × List Effect
unfolding set_result
finish resolver result results =
    let (base, call) = set_result resolver.base result results in
    (record resolver { base = base }, calls_back call ∷ [])

-- `asyncns_resolver_done`, with what `asyncns_getaddrinfo_done` gives.
unfoldable pub done : AsyncnsResolver → Bool → List Addrinfo → AsyncnsResolver × List Effect
unfolding finish cleanup
done resolver err ans =
    let waiting = record resolver { resolv_query = none } in
    let (called, calls) =
      if err then finish waiting Result.failed [] else finish waiting Result.ok ans in
    let (clean, effects) = cleanup called in (clean, calls ++ effects)

-- `asyncns_resolver_srv_done` after the answer has been parsed.
unfoldable pub service_parsed : AsyncnsResolver → Option (Text × ℕ) → AsyncnsResolver × List Effect
unfolding cleanup finish
service_parsed resolver none = cleanup resolver
service_parsed resolver (some (server, port)) =
    let base_1 = resolver.base in
    let found = record resolver { base = record base_1 { host = some server; port = port } } in
    let (clean, effects) = cleanup found in
    let (called, calls) = finish clean Result.ok [] in (called, effects ++ calls)

-- `asyncns_resolver_srv_done`, with the length of the answer and the answer that
-- `asyncns_res_done` gives, zero for none, and what is in the buffer for names.
unfoldable pub service_done : AsyncnsResolver → ℕ → Response → Text → AsyncnsResolver × List Effect
unfolding parse_srv_response service_parsed
service_done resolver srv_len srv_ans names =
    let waiting = record resolver { resolv_query = none } in
    service_parsed waiting (if leb srv_len 0 then none else parse_srv_response srv_ans names)

-- `asyncns_resolver_prep`: whether there is a context, given whether `asyncns_new` succeeds and
-- the number of the new watch.
unfoldable pub prep : AsyncnsResolver → Bool → ℕ → AsyncnsResolver × List Effect × Bool
prep resolver asyncns_new source =
    if resolver.asyncns_ctx
    then (resolver, [], true)
    else if asyncns_new
    then (
      record resolver { watch_resolv = some source; asyncns_ctx = true; resolv_channel = true },
      adds_watch source ∷ [],
      true,
    )
    else (resolver, [], false)

-- `asyncns_resolver_lookup`, with `asyncns_resolver_lookup_host` and
-- `asyncns_resolver_lookup_service`: where there is no context nothing is asked.
unfoldable pub query_for : Resolver → Query
unfolding create_srv_string
query_for base = elim base.type [
  | ResolverType.host ↦ getaddrinfo base.host
  | ResolverType.srv ↦ res_query (create_srv_string base.domain base.service base.protocol)
]

unfoldable pub lookup : AsyncnsResolver → Bool → ℕ → AsyncnsResolver × List Effect
unfolding prep query_for
lookup resolver asyncns_new source =
    let (ready, effects, success) = prep resolver asyncns_new source in
    if success
    then (record ready { resolv_query = some (query_for ready.base) }, effects)
    else (ready, effects)

-- `asyncns_resolver_io_cb`: nothing until the query is done, then the function for it.
unfoldable pub io_cb : AsyncnsResolver → Option Done → AsyncnsResolver × List Effect
unfolding done service_done
io_cb resolver none = (resolver, [])
io_cb resolver (some (addrinfo_done err ans)) = done resolver err ans
io_cb resolver (some (srv_done srv_len srv_ans names)) = service_done resolver srv_len srv_ans names

-- `asyncns_resolver_cancel`
unfoldable pub cancel : AsyncnsResolver → AsyncnsResolver × List Effect
unfolding finish
cancel resolver =
    let cancelled : List Effect = elim resolver.resolv_query [
      | none ↦ []
      | some query ↦ cancels_query query ∷ []
    ] in
    let idle = record resolver { resolv_query = none } in
    let (called, calls) = finish idle Result.cancelled [] in
    if resolver.asyncns_ctx then (called, cancelled ++ calls) else (resolver, [])
