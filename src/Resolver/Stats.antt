-- ===== src/Resolver/Stats.antt =====
-- internal/resolver/stats.go: the counters of the resolver. A map from names to counts is the list
-- of its entries. The names are ordered by their bytes, as Go's `<` on strings.
use dns_over_minecraft.Prelude.{
  ℕ, suc, ◌+◌, ◌≤◌, ◌≡◌, refl, arith, Bool, List, [], ◌∷◌, ltb, ◌==◌, if◌then◌else◌, length, take,
  bytes_eq, Bool-cases, inl, inr, length-take_le,
}
use dns_over_minecraft.Text.{bytes_lt}

abbrev pub DomainCount : Type 0
DomainCount = List ℕ × ℕ

pub record ResolverStats : Type 0 where
  pub total : ℕ
  pub cache_hits : ℕ
  pub cache_misses : ℕ
  pub domains_all : List DomainCount
  pub domains_window : List DomainCount

abbrev pub max_tracked_domains : ℕ
max_tracked_domains = 1000

abbrev pub keep_top_domains : ℕ
keep_top_domains = 100

unfoldable pub record_total : ResolverStats → ResolverStats
record_total s = record s { total = s.total + 1 }

unfoldable pub record_cache_hit : ResolverStats → ResolverStats
record_cache_hit s = record s { cache_hits = s.cache_hits + 1 }

unfoldable pub record_cache_miss : ResolverStats → ResolverStats
record_cache_miss s = record s { cache_misses = s.cache_misses + 1 }

-- `counts[name]++`
unfoldable pub count_domain : List ℕ → List DomainCount → List DomainCount
unfolding bytes_eq
count_domain name [] = (name, 1) ∷ []
count_domain name ((n, count) ∷ counts) =
    if bytes_eq n name then (n, count + 1) ∷ counts else (n, count) ∷ count_domain name counts

-- The order of topDomains: the larger count, then the smaller name.
unfoldable pub ranks_before : DomainCount → DomainCount → Bool
unfolding bytes_lt
ranks_before (name, count) (other, other_count) =
    if count == other_count then bytes_lt name other else ltb other_count count

-- sort.Slice by that order, which is total on entries of different names.
unfoldable pub insert_ranked : DomainCount → List DomainCount → List DomainCount
unfolding ranks_before
insert_ranked e [] = e ∷ []
insert_ranked e (x ∷ entries) =
    if ranks_before e x then e ∷ x ∷ entries else x ∷ insert_ranked e entries

unfoldable pub sort_ranked : List DomainCount → List DomainCount
unfolding insert_ranked
sort_ranked [] = []
sort_ranked (e ∷ entries) = insert_ranked e (sort_ranked entries)

unfoldable pub top_domains : List DomainCount → ℕ → List DomainCount
unfolding sort_ranked
top_domains counts limit =
    let entries = sort_ranked counts in
    if ltb limit (length entries) then take limit entries else entries

unfoldable pub record_domain : ResolverStats → List ℕ → ResolverStats
unfolding count_domain top_domains
record_domain s name =
    let all = count_domain name s.domains_all in
    record s {
      domains_all =
          if ltb max_tracked_domains (length all) then top_domains all keep_top_domains else all;
      domains_window = count_domain name s.domains_window;
    }

-- TakeWindow: the snapshot is the counters before the call.
unfoldable pub take_window : ResolverStats → ResolverStats × (ℕ × ℕ × ℕ)
take_window s = (
  record s { total = 0; cache_hits = 0; cache_misses = 0 },
  (s.total, s.cache_hits, s.cache_misses),
)

unfoldable pub domain_stats :
    ResolverStats → ℕ → ResolverStats × (List DomainCount × List DomainCount)
unfolding top_domains
domain_stats s limit = (
  record s { domains_window = [] },
  (top_domains s.domains_all limit, top_domains s.domains_window limit),
)

-- The counters of a resolver between two calls: each query was a hit or a miss, and the map of all
-- domains is bounded.
pub record IsCounted (s : ResolverStats) : Type 0 where
  pub balanced : s.cache_hits + s.cache_misses ≡ s.total
  pub tracked : length s.domains_all ≤ max_tracked_domains

length-insert_ranked :
    (e : DomainCount) (entries : List DomainCount)
    → length (insert_ranked e entries) ≡ suc (length entries)
unfolding insert_ranked
length-insert_ranked e [] = refl
length-insert_ranked e (x ∷ entries) = ground (arith, length-insert_ranked e entries)

length-top_domains :
    (counts : List DomainCount) (limit : ℕ) → length (top_domains counts limit) ≤ limit
unfolding top_domains
length-top_domains counts limit = ground (arith, length-take_le limit (sort_ranked counts))

pub tracked_domains :
    (s : ResolverStats) (name : List ℕ)
    → length (record_domain s name).domains_all ≤ max_tracked_domains
unfolding record_domain
tracked_domains s name =
    elim (Bool-cases (ltb max_tracked_domains (length (count_domain name s.domains_all)))) [
      | inl e ↦
          rw e
            (omega (arith, length-top_domains (count_domain name s.domains_all) keep_top_domains))
      | inr e ↦ rw e (ground (arith, e))
    ]
