-- ===== src/Resolver/Upstreams.antt =====
-- internal/resolver over internal/upstream: the pool of upstream.go as the pool of the resolver.
use dns_over_minecraft.Prelude.{
  ℕ, ◌+◌, ◌≡◌, refl, ap, sym, ◌∙◌, arith, true, false, not, List, [], ◌∷◌, ◌==◌, Option, none, some,
  length, Option-cases, Bool-cases, inl, inr,
}
use dns_over_minecraft.Dns.{Question, Msg, DnsLibrary}
use dns_over_minecraft.Codec.Opt.{strip_unasked, build_error_response, server_failure}
use dns_over_minecraft.Cache.Optional.{Clock, cached}
use dns_over_minecraft.Upstream.Pool.{Upstream, Float, Network, UpstreamPool, exchange}
use dns_over_minecraft.Upstream.Pool.Failover.{
  first_answer, to_option, message_of, exchange-first_answer,
}
use dns_over_minecraft.Resolver.{
  Pool, Resolver, resolve, resolve_questions, resolve_missed, resolve_pool, resolve_upstream,
  exchange_retry, upstream_query, lookup_records,
}
use mathlib.Core.Option

-- The pool with the number of its next attempt.
unfoldable pub upstream_pool : {F : Type 0} → Float F → Network → Pool (ℕ × UpstreamPool F)
unfolding exchange
upstream_pool float net = record {
  lists = λ s. not (length s.1.upstream_list == 0);
  exchange = λ s query.
      let (p, r) = exchange float net s.0 s.1 query in
      ((s.0 + length s.1.upstream_list, p), to_option r);
}

-- What the resolver answers, by the first answer of the upstream servers.
pub answer_of : DnsLibrary → Msg → Option Msg → Msg
answer_of dns query none = build_error_response dns (some query) server_failure
answer_of dns query (some m) = strip_unasked (dns.is_edns0 query) m

module _ {F : Type 0} (dns : DnsLibrary) (float : Float F) (net : Network)
    (running : (a : ℕ) → net.done a ≡ false) where
  exchange_retry_lem :
      (n : ℕ) (p : UpstreamPool F) (query : Msg)
      → ((m : Msg)
          → Option.map message_of (first_answer net query n p.upstream_list) ≡ some m
          → m.truncated ≡ false)
      → (exchange_retry dns (upstream_pool float net) (n, p) query).1
        ≡ Option.map message_of (first_answer net query n p.upstream_list)
  unfolding exchange_retry upstream_pool
  exchange_retry_lem n p query whole =
      let r = (exchange float net n p query).1 in
      let e : to_option r ≡ Option.map message_of (first_answer net query n p.upstream_list) =
        (exchange-first_answer float net n p query running).0 in
      rw (← e) (elim (Option-cases (to_option r)) [
        | inl f ↦ rw (f, exchange_retry, upstream_pool) refl
        | inr (m, f) ↦ rw (f, whole m (sym e ∙ f), exchange_retry, upstream_pool) refl
      ])

  -- The answer that the upstream servers hold for a query, in the order of the pool.
  abbrev pub upstream_answer : ℕ → UpstreamPool F → Msg → Option Msg
  upstream_answer n p query =
      Option.map message_of (first_answer net (upstream_query dns query) n p.upstream_list)

  -- It is not truncated, if there is one.
  abbrev pub IsWhole : Option Msg → Type 0
  IsWhole answer = (m : Msg) → answer ≡ some m → m.truncated ≡ false

  resolve_upstream_lem :
      (r : Resolver (ℕ × UpstreamPool F)) (n : ℕ) (p : UpstreamPool F) (clock : Clock)
      (question : Question) (query : Msg)
      → IsWhole (upstream_answer n p query)
      → (resolve_upstream dns (upstream_pool float net) r (n, p) clock question query).1
        ≡ answer_of dns query (upstream_answer n p query)
  unfolding resolve_upstream answer_of
  resolve_upstream_lem r n p clock question query whole =
      let e = exchange_retry_lem n p (upstream_query dns query) whole in
      rw (← e)
        (elim (Option-cases
          (exchange_retry dns (upstream_pool float net) (n, p) (upstream_query dns query)).1) [
            | inl f ↦ rw (f, resolve_upstream, answer_of) refl
            | inr (m, f) ↦ rw (f, resolve_upstream, answer_of) refl
          ])

  none_of_empty :
      (n : ℕ) (query : Msg) (us : List Upstream)
      → (length us == 0) ≡ true
      → first_answer net query n us ≡ none
  unfolding first_answer
  none_of_empty n query [] h = refl
  none_of_empty n query (u ∷ us) h = absurd (ground (arith, h))

  resolve_pool_lem :
      (r : Resolver (ℕ × UpstreamPool F)) (n : ℕ) (p : UpstreamPool F) (clock : Clock)
      (question : Question) (query : Msg)
      → IsWhole (upstream_answer n p query)
      → (resolve_pool dns (upstream_pool float net) r (some (n, p)) clock question query).1
        ≡ answer_of dns query (upstream_answer n p query)
  unfolding resolve_pool upstream_pool answer_of
  resolve_pool_lem r n p clock question query whole =
      elim (Bool-cases (length p.upstream_list == 0)) [
        | inl e ↦
            rw (e, resolve_pool, upstream_pool)
              (rw (none_of_empty n (upstream_query dns query) p.upstream_list e) refl)
        | inr e ↦
            rw (e, resolve_pool, upstream_pool)
              (resolve_upstream_lem r n p clock question query whole)
      ]

  resolve_missed_lem :
      (r : Resolver (ℕ × UpstreamPool F)) (n : ℕ) (p : UpstreamPool F) (clock : Clock)
      (question : Question) (query : Msg)
      → lookup_records dns r.record_store question ≡ none
      → r.upstream_pool ≡ some (n, p)
      → IsWhole (upstream_answer n p query)
      → (resolve_missed dns (upstream_pool float net) r clock question query).1
        ≡ answer_of dns query (upstream_answer n p query)
  unfolding resolve_missed
  resolve_missed_lem r n p clock question query unknown listed whole =
      rw (unknown, resolve_missed)
        (ap
            (λ (o : Option (ℕ × UpstreamPool F)).
              (resolve_pool dns (upstream_pool float net) r o clock question query).1)
            listed
          ∙ resolve_pool_lem r n p clock question query whole)

  resolve_questions_lem :
      (r : Resolver (ℕ × UpstreamPool F)) (n : ℕ) (p : UpstreamPool F) (clock : Clock) (query : Msg)
      (question : Question) (more : List Question)
      → (cached dns r.cache_store clock.read question).1 ≡ none
      → lookup_records dns r.record_store question ≡ none
      → r.upstream_pool ≡ some (n, p)
      → IsWhole (upstream_answer n p query)
      → (resolve_questions dns (upstream_pool float net) r clock query (question ∷ more)).1
        ≡ answer_of dns query (upstream_answer n p query)
  unfolding resolve_questions
  resolve_questions_lem r n p clock query question more missed unknown listed whole =
      rw (missed, resolve_questions)
        (resolve_missed_lem _ n p clock question query unknown listed whole)

  -- A query that is neither cached nor in the records is answered by the first of the upstream
  -- servers that answers it, in the order of the pool, without the OPT record if the query has
  -- none, and with a server failure if none answers: as long as the context is not done and that
  -- answer is not truncated.
  pub resolve-first_answer :
      (r : Resolver (ℕ × UpstreamPool F)) (n : ℕ) (p : UpstreamPool F) (clock : Clock) (query : Msg)
      (question : Question) (more : List Question)
      → query.question ≡ question ∷ more
      → (cached dns r.cache_store clock.read question).1 ≡ none
      → lookup_records dns r.record_store question ≡ none
      → r.upstream_pool ≡ some (n, p)
      → IsWhole (upstream_answer n p query)
      → (resolve dns (upstream_pool float net) r clock query).1
        ≡ answer_of dns query (upstream_answer n p query)
  unfolding resolve
  resolve-first_answer r n p clock query question more asked missed unknown listed whole =
      ap
        (λ (qs : List Question).
          (resolve_questions dns (upstream_pool float net) r clock query qs).1)
        asked
      ∙ resolve_questions_lem r n p clock query question more missed unknown listed whole
