-- ===== src/Resolver/Reports.antt =====
-- What a look-up reports: loudmouth/lm-blocking-resolver.c and loudmouth/lm-asyncns-resolver.c.
use mathlib.Core.List.{append-nil}
use loudmouth.Base.{
  ℕ, ◌≡◌, refl, sym, ap, ◌∙◌, Bool, true, false, List, [], ◌∷◌, ◌++◌, map, Option, none, some, Text,
  leb, if◌then◌else◌,
}
use loudmouth.Resolver.{
  Result, ok, failed, Addrinfo, Resolver, Callback, set_result, parse_srv_response,
}
use loudmouth.Resolver.Blocking as B
use loudmouth.Resolver.Asyncns as A

-- The results that the callbacks are given.
abbrev pub results_of : List Callback → List Result
results_of = map (λ (c : Callback). c.result)

-- What looking up a host reports, by whether `getaddrinfo` fails and whether it leaves any address.
abbrev pub host_report : Bool → Bool → List Result
host_report false false = ok ∷ []
host_report false true = failed ∷ []
host_report true false = failed ∷ []
host_report true true = failed ∷ failed ∷ []

host_answered-host_report :
    (resolver : Resolver) (err : Bool) (ans : List Addrinfo)
    → results_of (B.host_answered resolver err ans).1 ≡ host_report err (B.no_address ans)
unfolding B.host_answered B.set_result_if set_result
host_answered-host_report resolver true [] = refl
host_answered-host_report resolver true (_ ∷ _) = refl
host_answered-host_report resolver false [] = refl
host_answered-host_report resolver false (_ ∷ _) = refl

-- The blocking look-up of a host reports success once if there is an address, and failure
-- otherwise: twice if getaddrinfo fails and leaves no address.
pub lookup_host-host_report :
    (dns : B.Dns) (resolver : Resolver)
    → results_of (B.lookup_host dns resolver).1
      ≡ host_report
          (dns.getaddrinfo resolver.host).0
          (B.no_address (dns.getaddrinfo resolver.host).1)
unfolding B.lookup_host
lookup_host-host_report dns resolver =
    host_answered-host_report resolver (dns.getaddrinfo resolver.host).0
      (dns.getaddrinfo resolver.host).1

-- The callbacks among what is done.
abbrev pub calls_of : List A.Effect → List Result
calls_of [] = []
calls_of (A.calls_back c ∷ es) = c.result ∷ calls_of es
calls_of (_ ∷ es) = calls_of es

calls_of-freed :
    (channel : Bool) (watch : Option ℕ) (ctx : Bool) (es : List A.Effect)
    → calls_of (A.freed channel watch ctx ++ es) ≡ calls_of es
unfolding A.freed
calls_of-freed true none true es = refl
calls_of-freed true none false es = refl
calls_of-freed true (some source) true es = refl
calls_of-freed true (some source) false es = refl
calls_of-freed false none true es = refl
calls_of-freed false none false es = refl
calls_of-freed false (some source) true es = refl
calls_of-freed false (some source) false es = refl

freed_silent :
    (channel : Bool) (watch : Option ℕ) (ctx : Bool) → calls_of (A.freed channel watch ctx) ≡ []
freed_silent channel watch ctx =
    ap calls_of (sym (append-nil (A.freed channel watch ctx))) ∙ calls_of-freed channel watch ctx []

-- What a query that is done reports: nothing for a service that was not found.
abbrev pub service_report : Option (Text × ℕ) → List Result
service_report none = []
service_report (some _) = ok ∷ []

abbrev pub done_report : A.Done → List Result
done_report (A.addrinfo_done err ans) = if err then failed ∷ [] else ok ∷ []
done_report (A.srv_done srv_len srv_ans names) =
    service_report (if leb srv_len 0 then none else parse_srv_response srv_ans names)

-- A resolver with nothing left of a query.
abbrev pub IsIdle : A.AsyncnsResolver → Type 0
IsIdle resolver =
    (resolver.watch_resolv ≡ none)
    × (resolver.resolv_query ≡ none)
    × (resolver.asyncns_ctx ≡ false)
    × (resolver.resolv_channel ≡ false)

service_parsed-service_report :
    (resolver : A.AsyncnsResolver) (found : Option (Text × ℕ))
    → (calls_of (A.service_parsed resolver found).1 ≡ service_report found)
      × IsIdle (A.service_parsed resolver found).0
unfolding A.service_parsed A.cleanup A.finish set_result
service_parsed-service_report resolver none = (
  freed_silent resolver.resolv_channel resolver.watch_resolv resolver.asyncns_ctx,
  (refl, refl, refl, refl),
)
service_parsed-service_report resolver (some (server, port)) = (
  calls_of-freed resolver.resolv_channel resolver.watch_resolv resolver.asyncns_ctx _,
  (refl, refl, refl, refl),
)

-- A query that is done is reported once, unless it is for a service and no server is found: that is
-- not reported at all. Nothing is left of the query.
pub io_cb-done_report :
    (resolver : A.AsyncnsResolver) (d : A.Done)
    → (calls_of (A.io_cb resolver (some d)).1 ≡ done_report d)
      × IsIdle (A.io_cb resolver (some d)).0
unfolding A.io_cb A.done A.service_done A.cleanup A.finish set_result
io_cb-done_report resolver (A.addrinfo_done true ans) = (
  ap (λ rs. failed ∷ rs)
      (freed_silent resolver.resolv_channel resolver.watch_resolv resolver.asyncns_ctx),
  (refl, refl, refl, refl),
)
io_cb-done_report resolver (A.addrinfo_done false ans) = (
  ap (λ rs. ok ∷ rs)
      (freed_silent resolver.resolv_channel resolver.watch_resolv resolver.asyncns_ctx),
  (refl, refl, refl, refl),
)
io_cb-done_report resolver (A.srv_done srv_len srv_ans names) =
    let waiting = record resolver { resolv_query = none } in
    service_parsed-service_report waiting
      (if leb srv_len 0 then none else parse_srv_response srv_ans names)
