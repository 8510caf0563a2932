-- ===== src/Mc/RateLimit.antt =====
-- internal/mc/ratelimit.go: the token bucket for each client address. Times are nanoseconds, and
-- tokens are counted in units of 1e-9 token, in which a bucket gains `rate` units a nanosecond: the
-- float64 arithmetic of the source without its rounding.
pub mod Budget
use dns_over_minecraft.Prelude.{
  ℕ, suc, ◌+◌, ◌-◌, ◌*◌, ◌^◌, Bool, true, false, List, [], ◌∷◌, ltb, if◌then◌else◌, Option, none,
  some, bytes_eq,
}

abbrev pub token : ℕ
token = 10 ^ 9

pub record TokenBucket : Type 0 where
  pub address : List ℕ
  pub tokens : ℕ
  pub last_time : ℕ

pub record IpRateLimiter : Type 0 where
  pub rate : ℕ
  pub burst : ℕ
  pub buckets : List TokenBucket

unfoldable pub new_ip_rate_limiter : ℕ → IpRateLimiter
new_ip_rate_limiter queries_per_second =
    let rate' = if ltb queries_per_second 1 then 1 else queries_per_second in
    record { rate = rate'; burst = rate' * token; buckets = [] }

unfoldable pub find_bucket : List ℕ → List TokenBucket → Option TokenBucket
unfolding bytes_eq
find_bucket ip [] = none
find_bucket ip (b ∷ buckets) = if bytes_eq b.address ip then some b else find_bucket ip buckets

unfoldable pub put_bucket : TokenBucket → List TokenBucket → List TokenBucket
unfolding bytes_eq
put_bucket b [] = b ∷ []
put_bucket b (x ∷ buckets) =
    if bytes_eq x.address b.address then b ∷ buckets else x ∷ put_bucket b buckets

-- The bucket that Allow takes a token from: a new one is full, an old one is refilled.
unfoldable pub refill : IpRateLimiter → ℕ → List ℕ → Option TokenBucket → TokenBucket
refill l now ip none = record { address = ip; tokens = l.burst; last_time = now }
refill l now ip (some b) =
    let tokens' = b.tokens + (now - b.last_time) * l.rate in
    record b { tokens = if ltb l.burst tokens' then l.burst else tokens'; last_time = now }

unfoldable pub allow : IpRateLimiter → ℕ → List ℕ → IpRateLimiter × Bool
unfolding refill
allow l now ip =
    let b = refill l now ip (find_bucket ip l.buckets) in
    if ltb b.tokens token then (record l { buckets = put_bucket b l.buckets }, false) else (
      record l { buckets = put_bucket (record b { tokens = b.tokens - token }) l.buckets },
      true,
    )

-- The buckets that `cleanup` keeps: those with `last_time` not before `now - idle_timeout`.
unfoldable pub keep_recent : ℕ → ℕ → List TokenBucket → List TokenBucket
keep_recent now idle_timeout [] = []
keep_recent now idle_timeout (b ∷ buckets) =
    let rest = keep_recent now idle_timeout buckets in
    if ltb (b.last_time + idle_timeout) now then rest else b ∷ rest

unfoldable pub cleanup : IpRateLimiter → ℕ → ℕ → IpRateLimiter
unfolding keep_recent
cleanup l now idle_timeout = record l { buckets = keep_recent now idle_timeout l.buckets }
