-- ===== src/Commands/Startup.antt =====
-- cmd/dnsmc/main.go: the server that runServer starts from a loaded configuration.
use dns_over_minecraft.Prelude.{
  ℕ, zero, suc, ℤ, pos, negsuc, positive_part, IsNegative, ◌⊎◌, ◌<◌, ◌≤◌, ◌≡◌, ◌≢◌, ap, refl, subst,
  arith, Bool, true, List, [], ◌∷◌, Option, none, some, length, Bool-cases, inl, inr,
}
use dns_over_minecraft.Text.{NoDot}
use dns_over_minecraft.Dns.{Rr, DnsLibrary}
use dns_over_minecraft.Cache.{Cache, new}
use dns_over_minecraft.Cache.Invariant.{IsValid, new-IsValid}
use dns_over_minecraft.Upstream.Pool.{Float, UpstreamPool, new_pool}
use dns_over_minecraft.Upstream.Pool.Order.{IsRanked, IsComparable, new_pool-IsRanked}
use dns_over_minecraft.Resolver.{new_resolver}
use dns_over_minecraft.Resolver.Stats.{IsCounted}
use dns_over_minecraft.Mc.RateLimit.{IpRateLimiter, new_ip_rate_limiter}
use dns_over_minecraft.Mc.Server.{Server, State, effective_max_frame_size}
use dns_over_minecraft.Config.{Config, CacheConfig, FileResult, load}
use dns_over_minecraft.Config.Complete.{IsComplete, load-IsComplete}
use dns_over_minecraft.Commands.{
  is_passphrase_char, all_passphrase_chars, validate_passphrase, configured_cache,
  configured_limiter, limiter_of, configured_server, configured_resolver, upstream_list, run_server,
}

all_passphrase_chars-NoDot :
    (passphrase : List ℕ) → all_passphrase_chars passphrase ≡ true → NoDot passphrase
unfolding all_passphrase_chars is_passphrase_char
all_passphrase_chars-NoDot [] h = tt
all_passphrase_chars-NoDot (c ∷ passphrase) h =
    (ground arith, all_passphrase_chars-NoDot passphrase (ground arith))

validate_passphrase-NoDot :
    (passphrase : List ℕ)
    → validate_passphrase passphrase ≡ true
    → NoDot passphrase × (length passphrase ≤ 64)
unfolding validate_passphrase
validate_passphrase-NoDot [] h = (tt, omega arith)
validate_passphrase-NoDot (c ∷ passphrase) h =
    (all_passphrase_chars-NoDot (c ∷ passphrase) (ground arith), ground arith)

-- What the theorems on the parts ask of a state: frames have a limit, the rate limiter has the
-- configured budget, and is there unless that is negative, the cache is valid and keeps messages for
-- some time, the counters are balanced, and the pool is in its order.
pub record IsReady {F : Type 0} (float : Float F) (c : Config) (server : Server)
    (st : State (UpstreamPool F)) : Type 0 where
  pub plain_passphrase : NoDot server.passphrase
  pub short_passphrase : length server.passphrase ≤ 64
  pub limits_frames : 0 < effective_max_frame_size server
  pub limits_rate :
      ((limiter : IpRateLimiter) × (st.rate_limiter ≡ some limiter)
        × (c.security.rate_limit ≡ pos limiter.rate)
        × (0 < limiter.rate))
      ⊎ (IsNegative c.security.rate_limit × (st.rate_limiter ≡ none))
  pub counted : IsCounted st.resolver.stats
  pub cached : (s : Cache) → st.resolver.cache_store ≡ some s → IsValid s × (0 < s.ttl)
  pub pool : UpstreamPool F
  pub listed : st.resolver.upstream_pool ≡ some pool
  pub ordered : IsRanked float pool.ewma pool.upstream_list

new_ttl : (size ttl negative_ttl : ℕ) → 0 < (new size ttl negative_ttl).ttl
unfolding new
new_ttl size ttl negative_ttl = ground arith

configured_cache-IsValid :
    (config : CacheConfig) (c : Cache) → configured_cache config ≡ some c → IsValid c × (0 < c.ttl)
unfolding configured_cache
configured_cache-IsValid config c h = elim (Bool-cases config.disabled) [
  | inl off ↦ absurd (cc (rw off at h))
  | inr on ↦
      let size = positive_part config.size in
      let ttl = positive_part config.ttl in
      let negative_ttl = positive_part config.negative_ttl in
      let made : some (new size ttl negative_ttl) ≡ some c = rw on at h in
      let same : new size ttl negative_ttl ≡ c = cc made in
      subst (λ (c : Cache). IsValid c × (0 < c.ttl)) same
        (new-IsValid size ttl negative_ttl, new_ttl size ttl negative_ttl)
]

limiter_of_lem :
    (n : ℤ)
    → n ≢ pos 0
    → ((limiter : IpRateLimiter) × (limiter_of n ≡ some limiter)
        × (n ≡ pos limiter.rate)
        × (0 < limiter.rate))
      ⊎ (IsNegative n × (limiter_of n ≡ none))
unfolding limiter_of new_ip_rate_limiter
limiter_of_lem (pos zero) h = absurd (h refl)
limiter_of_lem (pos (suc n)) h =
    let same : suc n ≡ (new_ip_rate_limiter (suc n)).rate = ground arith in
    inl (new_ip_rate_limiter (suc n), refl, ap pos same, ground arith)
limiter_of_lem (negsuc n) h = inr ((n, refl), refl)

effective_max_frame_size_positive : (server : Server) → 0 < effective_max_frame_size server
unfolding effective_max_frame_size
effective_max_frame_size_positive server = ground arith

module _ {F : Type 0} (dns : DnsLibrary) (string_to_type : List ℕ → Option ℕ)
    (new_rr : List ℕ → Option Rr) (float : Float F) (comparable : IsComparable float) where
  configured-IsReady :
      (c : Config) (suffix_override : List ℕ)
      → IsComplete c
      → validate_passphrase c.security.passphrase ≡ true
      → IsReady float c (configured_server c suffix_override) (record {
        rate_limiter = configured_limiter c;
        fragments = [];
        resolver = configured_resolver dns string_to_type new_rr float c;
      })
  unfolding configured_server configured_resolver new_resolver configured_limiter
  configured-IsReady c suffix_override complete valid =
      let (plain, short) = validate_passphrase-NoDot c.security.passphrase valid in
      record {
        plain_passphrase = plain;
        short_passphrase = short;
        limits_frames = effective_max_frame_size_positive (configured_server c suffix_override);
        limits_rate = limiter_of_lem c.security.rate_limit complete.sets_rate;
        counted = record { balanced = omega arith; tracked = omega arith };
        cached = λ s h. configured_cache-IsValid c.cache s h;
        pool = new_pool float (upstream_list c.upstreams);
        listed = refl;
        ordered = new_pool-IsRanked float (upstream_list c.upstreams) comparable;
      }

  -- A server that runServer starts from a configuration that Load returns with no error is ready:
  -- its passphrase has no dot and at most 64 bytes, its frames are limited, the rate of each client
  -- is limited to the configured number unless that is negative, in which case there is no limiter,
  -- its cache, if it has one, is valid and keeps messages for some time, its counters are balanced,
  -- and its upstream servers are in the order of their priority, their response time and their name.
  pub run_server-IsReady :
      (read_file : List ℕ → FileResult) (unmarshal : List ℕ → Config → Config × Bool)
      (config_path suffix_override : List ℕ) (c : Config) (server : Server)
      (st : State (UpstreamPool F))
      → load read_file unmarshal config_path ≡ (c, true)
      → run_server dns string_to_type new_rr float c suffix_override ≡ some (server, st)
      → IsReady float c server st
  unfolding run_server
  run_server-IsReady read_file unmarshal config_path suffix_override c server st loaded started =
      elim (Bool-cases (validate_passphrase c.security.passphrase)) [
        | inr refused ↦ absurd (cc (rw (refused, run_server) at started))
        | inl valid ↦
            let same = rw (valid, run_server) at started in
            subst (λ (o : Option (Server × State (UpstreamPool F))). ReadyIf o) same
              (configured-IsReady c suffix_override
                (load-IsComplete read_file unmarshal config_path c loaded) valid)
      ]
    where
      ReadyIf : Option (Server × State (UpstreamPool F)) → Type 0
      ReadyIf none = Unit
      ReadyIf (some (server, st)) = IsReady float c server st
