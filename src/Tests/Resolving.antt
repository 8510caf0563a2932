-- ===== src/Tests/Resolving.antt =====
-- The theorems on internal/client, internal/records and internal/resolver at concrete inputs.
use dns_over_minecraft.Prelude.{
  ℕ, ◌+◌, ◌^◌, ◌%◌, ◌<◌, ◌≤◌, ◌≡◌, refl, subst, Option-cases, Bool-cases, inl, inr, arith, Bool,
  true, false, List, [], ◌∷◌, ◌++◌, Option, none, some, bytes_eq, if◌then◌else◌, ◌&&◌, ◌==◌,
}
use mathlib.Core.List.{Memᴰ}
use dns_over_minecraft.Text.{codes, has_prefix, to_lower}
use dns_over_minecraft.Dns.{Question, Rr, Msg, DnsLibrary}
use dns_over_minecraft.Codec.Opt.{strip_unasked, type_opt, build_error_response}
use dns_over_minecraft.Cache.Optional.{Clock}
use dns_over_minecraft.Client.{
  Client, Servers, try_servers, picked_by_others, pick_server, resolve_servers,
  resolve as client_resolve, server_at,
}
use dns_over_minecraft.Client.RoundRobin.{resolve_servers_reaches}
use dns_over_minecraft.Client.Vpn.{resolve_without_fallback}
use dns_over_minecraft.Records.{Wildcard, Record, Store, records_of, add_record, parse_values}
use dns_over_minecraft.Records.Owners.{records_of-add_record}
use dns_over_minecraft.Resolver.{Pool, Resolver, resolve, upstream_query, retry_query}
use dns_over_minecraft.Resolver.Stats.{IsCounted}
use dns_over_minecraft.Resolver.Answers.{
  resolve-IsCounted, IsEdns, Extends, opt_count, upstream_query_opts,
}
use dns_over_minecraft.Tests.{example_dns, question_a, query_a, answer_a, rr_a, opt_rr}

abbrev two_servers : Client
two_servers = record {
  cache_store = none;
  servers = codes "a" ∷ codes "b" ∷ [];
  suffix = [];
  allow_vpn_fallback = false;
  next_server = 5;
}

abbrev pub noon : Clock
noon = record { read = 1; written = 2; evicted = 3 }

-- Only the server b answers, and no other call takes a server.
abbrev pub only_b : Servers
only_b = record {
  query_func = λ a server suffix query. if bytes_eq server (codes "b") then some answer_a else none;
  other_picks = λ a. 0;
}

abbrev none_answers : Servers
none_answers = record { query_func = λ a server suffix query. none; other_picks = λ a. a }

resolve_servers_reaches_example :
    (a : ℕ) × (server : List ℕ) × (m : Msg) × (only_b.query_func a server [] query_a ≡ some m)
    × ((resolve_servers example_dns only_b two_servers noon question_a query_a).1
        ≡ record { message = strip_unasked (example_dns.is_edns0 query_a) m; failed = false })
unfolding server_at bytes_eq
resolve_servers_reaches_example =
    resolve_servers_reaches example_dns only_b (λ a. answer_a) 1 two_servers noon question_a query_a
      (λ a. refl) (omega arith) (λ a. refl)

-- Another call takes a server between the two attempts, so this one asks a twice, and never b.
abbrev crossed : Servers
crossed = record only_b { other_picks = λ a. a }

missed :
    (resolve_servers example_dns crossed
      (record two_servers { next_server = 4 })
      noon
      question_a
      query_a).1.failed
    ≡ true
unfolding resolve_servers try_servers picked_by_others pick_server server_at bytes_eq
    build_error_response
missed = refl

abbrev vpn_fails : List ℕ → Msg → Option Msg
vpn_fails servers query = none

resolve_without_fallback_example :
    client_resolve example_dns vpn_fails only_b (1 ∷ []) two_servers noon query_a
    ≡ client_resolve example_dns vpn_fails none_answers (1 ∷ []) two_servers noon query_a
resolve_without_fallback_example =
    resolve_without_fallback example_dns vpn_fails only_b none_answers 1 [] two_servers noon query_a
      refl

abbrev any_a : Wildcard
any_a = record { suffix = codes "test."; query_type = 1; resource_records = rr_a ∷ [] }

abbrev wild_records : Store
wild_records = record { exact = []; wildcards = any_a ∷ [] }

abbrev question_x : Question
question_x = record { name = codes "X.test"; qtype = 1; qclass = 1 }

abbrev renamed_a : Rr
renamed_a = record rr_a { name = codes "X.test." }

abbrev record_a : Record
record_a = record {
  name = codes "x.test";
  rtype = codes "A";
  ttl = 0;
  values = codes "8.8.4.4" ∷ [];
}

abbrev no_records : Store
no_records = record { exact = []; wildcards = [] }

abbrev parse_all : List ℕ → Option Rr
parse_all text = some rr_a

records_of-add_record_example :
    (records_of (codes "x.test.") 1 (add_record example_dns parse_all 1 record_a no_records).exact
      ≡ (if bytes_eq (example_dns.fqdn (to_lower (codes "x.test"))) (codes "x.test.") && 1 == 1
          then records_of (codes "x.test.") 1 []
            ++ parse_values parse_all
                (example_dns.fqdn (to_lower (codes "x.test")))
                300
                (codes "A")
                (codes "8.8.4.4" ∷ [])
          else records_of (codes "x.test.") 1 []))
    × ((add_record example_dns parse_all 1 record_a no_records).wildcards ≡ [])
unfolding has_prefix bytes_eq
records_of-add_record_example =
    records_of-add_record example_dns parse_all 1 record_a no_records (codes "x.test.") 1 refl

-- A pool of one server, whose state counts the exchanges.
abbrev pub counting_pool : Pool ℕ
counting_pool = record { lists = λ p. true; exchange = λ p query. (p + 1, some answer_a) }

abbrev pub fresh_resolver : Resolver ℕ
fresh_resolver = record {
  cache_store = none;
  record_store = some no_records;
  upstream_pool = some 0;
  stats = record {
    total = 0;
    cache_hits = 0;
    cache_misses = 0;
    domains_all = [];
    domains_window = [];
  };
}

resolve-IsCounted_example :
    IsCounted (resolve example_dns counting_pool fresh_resolver noon query_a).0.stats
resolve-IsCounted_example =
    resolve-IsCounted example_dns counting_pool fresh_resolver noon query_a
      (record { balanced = refl; tracked = omega arith })

-- The last OPT record of some.
last_opt : List Rr → Option Rr
last_opt [] = none
last_opt (rr ∷ rrs) = elim (last_opt rrs) [
  | some o ↦ some o
  | none ↦ if rr.rrtype == type_opt then some rr else none
]

-- The class of an OPT record is its size, and its TTL has the DO bit.
abbrev edns_dns : DnsLibrary
edns_dns = record example_dns {
  is_edns0 = λ m. last_opt m.extra;
  udp_size = λ rr. rr.class % 2 ^ 16;
  do_bit = λ rr. rr.ttl == 32768;
  set_edns0 = λ m size b. record m {
    extra = m.extra ++ (record (opt_rr size) { ttl = if b then 32768 else 0 } ∷ []);
  };
}

last_opt_lem : (rrs : List Rr) (o : Rr) → last_opt rrs ≡ some o → Memᴰ o rrs × (o.rrtype ≡ type_opt)
unfolding last_opt
last_opt_lem [] o h = cc
last_opt_lem (rr ∷ rrs) o h = elim (Option-cases (last_opt rrs)) [
  | inr (x, e) ↦
      let same : x ≡ o = cc (rw (e, last_opt) at h) in
      let (listed, typed) = last_opt_lem rrs x e in
      subst (λ (r : Rr). Memᴰ r (rr ∷ rrs) × (r.rrtype ≡ type_opt)) same (Memᴰ.tail listed, typed)
  | inl e ↦ elim (Bool-cases (rr.rrtype == type_opt)) [
    | inl f ↦
        let same : rr ≡ o = cc (rw (e, f, last_opt) at h) in
        subst (λ (r : Rr). Memᴰ r (rr ∷ rrs) × (r.rrtype ≡ type_opt)) same
          (Memᴰ.head refl, ground arith)
    | inr f ↦ cc (rw (e, f, last_opt) at h)
  ]
]

edns_dns_appends :
    (m : Msg) (size : ℕ) (b : Bool)
    → size < 2 ^ 16
    → (opt : Rr) × (edns_dns.set_edns0 m size b ≡ record m { extra = m.extra ++ (opt ∷ []) })
      × (opt.rrtype ≡ type_opt)
      × (edns_dns.udp_size opt ≡ size)
      × (edns_dns.do_bit opt ≡ b)
edns_dns_appends m size true h =
    (record (opt_rr size) { ttl = 32768 }, refl, refl, omega arith, refl)
edns_dns_appends m size false h = (record (opt_rr size) { ttl = 0 }, refl, refl, omega arith, refl)

edns_dns-IsEdns : IsEdns edns_dns
edns_dns-IsEdns = record {
  size_bounds = λ o. omega arith;
  appends = edns_dns_appends;
  finds = λ m o h. last_opt_lem m.extra o h;
}

-- A query whose OPT record has the DO bit.
abbrev query_do : Msg
query_do = record query_a { extra = record (opt_rr 1232) { ttl = 32768 } ∷ [] }

upstream_query_opts_example :
    (added : List Rr) × Extends edns_dns query_do (upstream_query edns_dns query_do) added
    × (2 ≤ opt_count (retry_query edns_dns (upstream_query edns_dns query_do)).extra)
upstream_query_opts_example = upstream_query_opts edns_dns query_do edns_dns-IsEdns
