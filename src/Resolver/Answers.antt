-- ===== src/Resolver/Answers.antt =====
-- internal/resolver/resolver.go: the counters after any query, what is asked of the upstream
-- servers, and which answers the record store gives.
use dns_over_minecraft.Prelude.{
  ℕ, ◌+◌, ◌++◌, ◌==◌, if◌then◌else◌, ap, ◌∙◌, ◌^◌, ◌≤◌, ◌<◌, ◌≡◌, refl, sym, subst, arith, Bool,
  false, List, [], ◌∷◌, Option, none, some, Option-cases, Bool-cases, inl, inr,
}
use dns_over_minecraft.Dns.{Question, Rr, Msg, DnsLibrary}
use mathlib.Core.List.{append-nil, Memᴰ}
use mathlib.Core.List.Memᴰ
use dns_over_minecraft.Codec.Opt.{type_opt}
use dns_over_minecraft.Cache.Optional.{Clock, cached}
use dns_over_minecraft.Resolver.Stats.{
  ResolverStats, IsCounted, tracked_domains, record_total, record_cache_hit, record_cache_miss,
  record_domain,
}
use dns_over_minecraft.Resolver.{
  Pool, Resolver, resolve, resolve_questions, resolve_missed, resolve_pool, resolve_upstream,
  upstream_query, lookup_records, exchange_retry, retry_query,
}

resolve_upstream-stats :
    {P : Type 0} (dns : DnsLibrary) (pool : Pool P) (r : Resolver P) (p : P) (clock : Clock)
    (question : Question) (query : Msg)
    → (resolve_upstream dns pool r p clock question query).0.stats ≡ r.stats
unfolding resolve_upstream
resolve_upstream-stats dns pool r p clock question query =
    elim (Option-cases (exchange_retry dns pool p (upstream_query dns query)).1) [
      | inl e ↦ rw (e, resolve_upstream) refl
      | inr (m, e) ↦ rw (e, resolve_upstream) refl
    ]

resolve_pool-stats :
    {P : Type 0} (dns : DnsLibrary) (pool : Pool P) (r : Resolver P) (o : Option P) (clock : Clock)
    (question : Question) (query : Msg)
    → (resolve_pool dns pool r o clock question query).0.stats ≡ r.stats
unfolding resolve_pool
resolve_pool-stats dns pool r none clock question query = refl
resolve_pool-stats dns pool r (some p) clock question query = elim (Bool-cases (pool.lists p)) [
  | inl e ↦ rw (e, resolve_pool) (resolve_upstream-stats dns pool r p clock question query)
  | inr e ↦ rw (e, resolve_pool) refl
]

resolve_missed-stats :
    {P : Type 0} (dns : DnsLibrary) (pool : Pool P) (r : Resolver P) (clock : Clock)
    (question : Question) (query : Msg)
    → (resolve_missed dns pool r clock question query).0.stats ≡ r.stats
unfolding resolve_missed
resolve_missed-stats dns pool r clock question query =
    elim (Option-cases (lookup_records dns r.record_store question)) [
      | inl e ↦
          rw (e, resolve_missed)
            (resolve_pool-stats dns pool r r.upstream_pool clock question query)
      | inr (rrs, e) ↦ rw (e, resolve_missed) refl
    ]

IsCounted-hit :
    (s : ResolverStats) (name : List ℕ)
    → IsCounted s
    → IsCounted (record_cache_hit (record_domain (record_total s) name))
unfolding record_cache_hit record_domain record_total
IsCounted-hit s name v = record {
  balanced = omega (arith, v.balanced);
  tracked = tracked_domains (record_total s) name;
}

IsCounted-miss :
    (s : ResolverStats) (name : List ℕ)
    → IsCounted s
    → IsCounted (record_cache_miss (record_domain (record_total s) name))
unfolding record_cache_miss record_domain record_total
IsCounted-miss s name v = record {
  balanced = omega (arith, v.balanced);
  tracked = tracked_domains (record_total s) name;
}

resolve_questions-IsCounted :
    {P : Type 0} (dns : DnsLibrary) (pool : Pool P) (r : Resolver P) (clock : Clock) (query : Msg)
    (questions : List Question)
    → IsCounted r.stats
    → IsCounted (resolve_questions dns pool r clock query questions).0.stats
unfolding resolve_questions
resolve_questions-IsCounted dns pool r clock query [] v =
    unfold record_cache_miss in
    unfold record_total in (record { balanced = omega (arith, v.balanced); tracked = v.tracked })
resolve_questions-IsCounted {P = P} dns pool r clock query (question ∷ more) v =
    let name = question.name in
    let missed : Resolver P = record r {
      cache_store = (cached dns r.cache_store clock.read question).0;
      stats = record_cache_miss (record_domain (record_total r.stats) name);
    } in
    elim (Option-cases (cached dns r.cache_store clock.read question).1) [
      | inr (m, e) ↦ rw (e, resolve_questions) (IsCounted-hit r.stats name v)
      | inl e ↦
          rw (e, resolve_questions)
            (subst IsCounted (sym (resolve_missed-stats dns pool missed clock question query))
              (IsCounted-miss r.stats name v))
    ]

-- If the counters are balanced before, Resolve counts the query as a hit or as a miss of the cache
-- on each of its paths, so hits and misses still make the total, and the map of all domains stays
-- within its bound.
pub resolve-IsCounted :
    {P : Type 0} (dns : DnsLibrary) (pool : Pool P) (r : Resolver P) (clock : Clock) (query : Msg)
    → IsCounted r.stats
    → IsCounted (resolve dns pool r clock query).0.stats
unfolding resolve
resolve-IsCounted dns pool r clock query v =
    resolve_questions-IsCounted dns pool r clock query query.question v

-- How many OPT records there are.
abbrev pub opt_count : List Rr → ℕ
opt_count [] = 0
opt_count (rr ∷ rrs) = (if rr.rrtype == type_opt then 1 else 0) + opt_count rrs

opt_count-append : (xs ys : List Rr) → opt_count (xs ++ ys) ≡ opt_count xs + opt_count ys
opt_count-append [] ys = omega arith
opt_count-append (x ∷ xs) ys = omega (arith, opt_count-append xs ys)

-- What the DNS library documents: SetEdns0 appends an OPT record with the size and the DO bit to the
-- additional records, IsEdns0 returns an OPT record of the message if there is one, and a size has 16
-- bits.
pub record IsEdns (dns : DnsLibrary) : Type 0 where
  pub size_bounds : (o : Rr) → dns.udp_size o < 2 ^ 16
  pub appends :
      (m : Msg) (size : ℕ) (b : Bool)
      → size < 2 ^ 16
      → (opt : Rr) × (dns.set_edns0 m size b ≡ record m { extra = m.extra ++ (opt ∷ []) })
        × (opt.rrtype ≡ type_opt)
        × (dns.udp_size opt ≡ size)
        × (dns.do_bit opt ≡ b)
  pub finds : (m : Msg) (o : Rr) → dns.is_edns0 m ≡ some o → Memᴰ o m.extra × (o.rrtype ≡ type_opt)

opt_count-member : (o : Rr) (rrs : List Rr) → Memᴰ o rrs → o.rrtype ≡ type_opt → 0 < opt_count rrs
opt_count-member o [] t h = elim t [ ]
opt_count-member o (x ∷ rrs) (Memᴰ.head e) h =
    let same : x.rrtype ≡ type_opt = ap (λ (r : Rr). r.rrtype) (sym e) ∙ h in ground arith
opt_count-member o (x ∷ rrs) (Memᴰ.tail t) h = ground (arith, opt_count-member o rrs t h)

-- The query for the upstream servers is that of the client with some additional records behind its
-- own, which all stay.
abbrev pub Extends : DnsLibrary → Msg → Msg → List Rr → Type 0
Extends dns query sent added =
    (sent ≡ record query { extra = query.extra ++ added })
    × ((opt : Rr) × Memᴰ opt (query.extra ++ added)
        × (dns.do_bit opt ≡ false)
        × (dns.udp_size opt
            ≡ (elim (dns.is_edns0 query) [ none ↦ 4096 | some o ↦ dns.udp_size o ])))
    × ((elim (dns.is_edns0 query) [ none ↦ 1 | some o ↦ if dns.do_bit o then 2 else 1 ])
        ≤ opt_count (query.extra ++ added))

upstream_query-Extends :
    (dns : DnsLibrary) (query : Msg)
    → IsEdns dns
    → (added : List Rr) × Extends dns query (upstream_query dns query) added
unfolding upstream_query
upstream_query-Extends dns query v = elim (Option-cases (dns.is_edns0 query)) [
  | inl e ↦
      let (opt, sent, typed, size, bit) = v.appends query 4096 false (omega arith) in
      let counted = opt_count-append query.extra (opt ∷ []) in
      (
        opt ∷ [],
        (
          rw (e, upstream_query) sent,
          (opt, Memᴰ.append_right query.extra (Memᴰ.head refl), bit, rw e size),
          rw e (ground (arith, counted)),
        ),
      )
  | inr (o, e) ↦
      let (listed, typed') = v.finds query o e in
      let there = opt_count-member o query.extra listed typed' in
      elim (Bool-cases (dns.do_bit o)) [
        | inl f ↦
            let (opt, sent, typed, size, bit) =
              v.appends query (dns.udp_size o) false (v.size_bounds o) in
            let counted = opt_count-append query.extra (opt ∷ []) in
            (
              opt ∷ [],
              (
                rw (e, upstream_query, f) sent,
                (opt, Memᴰ.append_right query.extra (Memᴰ.head refl), bit, rw e size),
                rw (e, f) (ground (arith, counted)),
              ),
            )
        | inr f ↦
            let counted = opt_count-append query.extra [] in
            (
              [],
              (
                rw (e, upstream_query, f)
                    (sym (ap (λ l. record query { extra = l }) (append-nil query.extra))),
                (o, Memᴰ.append_left [] listed, f, rw e refl),
                rw (e, f) (omega (arith, counted, there)),
              ),
            )
      ]
]

one_left :
    (dns : DnsLibrary) (query : Msg) (n : ℕ)
    → (elim (dns.is_edns0 query) [ none ↦ 1 | some o ↦ if dns.do_bit o then 2 else 1 ]) ≤ n
    → 1 ≤ n
one_left dns query n h = ground (arith, h)

-- With SetEdns0, IsEdns0 and UDPSize as the DNS library documents them, the query for the upstream
-- servers is that of the client, with nothing changed but records behind its additional records. It
-- holds an OPT record without the DO bit, whose size is the one that the client advertised, or 4096 if
-- it advertised none; if the client's OPT record has the DO bit, that record stays, and there are two
-- at least. The query of the retry after a truncated answer has two at least always.
pub upstream_query_opts :
    (dns : DnsLibrary) (query : Msg)
    → IsEdns dns
    → (added : List Rr) × Extends dns query (upstream_query dns query) added
      × (2 ≤ opt_count (retry_query dns (upstream_query dns query)).extra)
unfolding retry_query
upstream_query_opts dns query v =
    let (added, extended) = upstream_query-Extends dns query v in
    let (same, kept, counted) = extended in
    let sent = upstream_query dns query in
    let (opt', retried, typed, _, _) = v.appends sent 65535 false (omega arith) in
    let counted' = opt_count-append sent.extra (opt' ∷ []) in
    let extra : sent.extra ≡ query.extra ++ added = ap (λ (m : Msg). m.extra) same in
    let enough : 1 ≤ opt_count sent.extra =
      subst (λ l. 1 ≤ opt_count l) (sym extra) (one_left dns query _ counted) in
    (
      added,
      extended,
      subst (λ (m : Msg). 2 ≤ opt_count m.extra) (sym retried)
          (ground (arith, counted', enough, typed)),
    )
