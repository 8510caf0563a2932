-- ===== src/Resolver.antt =====
-- internal/resolver: the resolver (resolver.go) and its counters (stats.go). The pool of upstream
-- servers is an interface: its state, whether it lists a server, and its exchange of a query.
pub mod Stats
pub mod Answers
pub mod Upstreams
use dns_over_minecraft.Prelude.{
  ℕ, zero, suc, ◌+◌, Bool, true, false, not, List, [], ◌∷◌, if◌then◌else◌, length, Option, none,
  some, ◌&&◌, ◌==◌,
}
use dns_over_minecraft.Dns.{Question, Rr, Msg, DnsLibrary}
use dns_over_minecraft.Codec.Opt.{strip_unasked, build_error_response, format_error, server_failure}
use dns_over_minecraft.Cache.{Cache}
use dns_over_minecraft.Cache.Optional.{Clock, cached, store}
use dns_over_minecraft.Records.{Store, lookup}
use dns_over_minecraft.Resolver.Stats.{
  ResolverStats, record_total, record_cache_hit, record_cache_miss, record_domain,
}

-- A pool: `lists` is `len(pool.List()) != 0`, and an exchange changes the state of the pool.
pub record Pool (P : Type 0) : Type 0 where
  pub lists : P → Bool
  pub exchange : P → Msg → P × Option Msg

pub record Resolver (P : Type 0) : Type 0 where
  pub cache_store : Option Cache
  pub record_store : Option Store
  pub upstream_pool : Option P
  pub stats : ResolverStats

unfoldable pub new_resolver : {P : Type 0} → Option Cache → Option Store → Option P → Resolver P
new_resolver cache_store record_store upstream_pool = record {
  cache_store = cache_store;
  record_store = record_store;
  upstream_pool = upstream_pool;
  stats = record {
    total = 0;
    cache_hits = 0;
    cache_misses = 0;
    domains_all = [];
    domains_window = [];
  };
}

-- The query for the upstream servers: it has an OPT record, and no DO bit is asked for.
unfoldable pub upstream_query : DnsLibrary → Msg → Msg
upstream_query dns query = elim (dns.is_edns0 query) [
  | none ↦ dns.set_edns0 query 4096 false
  | some opt ↦ if dns.do_bit opt then dns.set_edns0 query (dns.udp_size opt) false else query
]

-- The query of the second exchange.
unfoldable pub retry_query : DnsLibrary → Msg → Msg
retry_query dns query = dns.set_edns0 query 65535 false

-- The exchange, and once more with the largest buffer if the answer is truncated.
unfoldable pub exchange_retry : {P : Type 0} → DnsLibrary → Pool P → P → Msg → P × Option Msg
unfolding retry_query
exchange_retry dns pool p query =
    let (p', answer) = pool.exchange p query in
    elim answer [
      | none ↦ (p', none)
      | some m ↦ if m.truncated then pool.exchange p' (retry_query dns query) else (p', some m)
    ]

unfoldable pub lookup_records : DnsLibrary → Option Store → Question → Option (List Rr)
unfolding lookup
lookup_records dns none question = none
lookup_records dns (some st) question = lookup dns st question

-- The answer of the record store.
unfoldable pub own_answer : DnsLibrary → Msg → List Rr → Msg
own_answer dns query rrs =
    let reply = dns.set_reply dns.new_msg query in
    record reply {
      authoritative = true;
      recursion_available = true;
      answer = if length rrs == 0 then reply.answer else rrs;
    }

-- With a pool that lists a server: the exchange, and what comes of its result.
unfoldable pub resolve_upstream :
    {P : Type 0} → DnsLibrary → Pool P → Resolver P → P → Clock → Question → Msg → Resolver P × Msg
unfolding exchange_retry strip_unasked store build_error_response
resolve_upstream dns pool r p clock question query =
    let (p', answer) = exchange_retry dns pool p (upstream_query dns query) in
    elim answer [
      | none ↦ (
        record r { upstream_pool = some p' },
        build_error_response dns (some query) server_failure,
      )
      | some response ↦
          let m = strip_unasked (dns.is_edns0 query) response in
          (
            record r {
              upstream_pool = some p';
              cache_store =
                  if m.truncated
                  then r.cache_store
                  else store dns r.cache_store clock.written clock.evicted question m;
            },
            m,
          )
    ]

unfoldable pub resolve_pool :
    {P : Type 0}
    → DnsLibrary
    → Pool P
    → Resolver P
    → Option P
    → Clock
    → Question
    → Msg
    → Resolver P × Msg
unfolding resolve_upstream build_error_response
resolve_pool dns pool r none clock question query =
    (r, build_error_response dns (some query) server_failure)
resolve_pool dns pool r (some p) clock question query =
    if pool.lists p
    then resolve_upstream dns pool r p clock question query
    else (r, build_error_response dns (some query) server_failure)

-- Behind the cache: the record store, and then the pool.
unfoldable pub resolve_missed :
    {P : Type 0} → DnsLibrary → Pool P → Resolver P → Clock → Question → Msg → Resolver P × Msg
unfolding lookup_records own_answer resolve_pool store
resolve_missed dns pool r clock question query = elim (lookup_records dns r.record_store question) [
  | some rrs ↦
      let m = own_answer dns query rrs in
      (record r { cache_store = store dns r.cache_store clock.written clock.evicted question m }, m)
  | none ↦ resolve_pool dns pool r r.upstream_pool clock question query
]

-- Resolve, for the questions of the query; its error is always nil.
unfoldable pub resolve_questions :
    {P : Type 0} → DnsLibrary → Pool P → Resolver P → Clock → Msg → List Question → Resolver P × Msg
unfolding cached resolve_missed build_error_response record_total record_cache_hit record_cache_miss
    record_domain
resolve_questions dns pool r clock query [] = (
  record r { stats = record_cache_miss (record_total r.stats) },
  build_error_response dns (some query) format_error,
)
resolve_questions dns pool r clock query (question ∷ more) =
    let stats' = record_domain (record_total r.stats) question.name in
    let (cache, answer) = cached dns r.cache_store clock.read question in
    elim answer [
      | some m ↦ (
        record r { cache_store = cache; stats = record_cache_hit stats' },
        record m { id = query.id; question = query.question },
      )
      | none ↦
          resolve_missed dns pool
            (record r { cache_store = cache; stats = record_cache_miss stats' }) clock question
            query
    ]

unfoldable pub resolve :
    {P : Type 0} → DnsLibrary → Pool P → Resolver P → Clock → Msg → Resolver P × Msg
unfolding resolve_questions
resolve dns pool r clock query = resolve_questions dns pool r clock query query.question
