-- ===== src/Mc/RateLimit/Budget.antt =====
-- internal/mc/ratelimit.go: a client gets no more than the burst and what the rate adds since.
use dns_over_minecraft.Prelude.{
  ℕ, ◌+◌, ◌-◌, ◌*◌, ◌≤◌, ◌<◌, ◌≡◌, refl, ap, sym, ◌∙◌, arith, false, List, [], ◌∷◌, ltb,
  if◌then◌else◌, Option, none, some, bytes_eq, bytes_eq_iff, bytes_eq_refl, Bool-cases,
  Option-cases, inl, inr,
}
use dns_over_minecraft.Mc.RateLimit.{
  token, TokenBucket, IpRateLimiter, new_ip_rate_limiter, find_bucket, put_bucket, refill, allow,
}

find_bucket-put_self :
    (b : TokenBucket) (buckets : List TokenBucket)
    → find_bucket b.address (put_bucket b buckets) ≡ some b
unfolding find_bucket put_bucket
find_bucket-put_self b [] = ground (arith, bytes_eq_refl b.address)
find_bucket-put_self b (x ∷ buckets) =
    ground (arith, bytes_eq_refl b.address, find_bucket-put_self b buckets)

find_bucket-put_ne :
    (b : TokenBucket) (ip : List ℕ) (buckets : List TokenBucket)
    → bytes_eq b.address ip ≡ false
    → find_bucket ip (put_bucket b buckets) ≡ find_bucket ip buckets
unfolding find_bucket put_bucket
find_bucket-put_ne b ip [] h = ground arith
find_bucket-put_ne b ip (x ∷ buckets) h = ground (
  arith,
  bytes_eq_iff x.address b.address,
  bytes_eq_iff x.address ip,
  bytes_eq_iff b.address ip,
  find_bucket-put_ne b ip buckets,
)

find_bucket-address :
    (ip : List ℕ) (buckets : List TokenBucket) (b : TokenBucket)
    → find_bucket ip buckets ≡ some b
    → b.address ≡ ip
unfolding find_bucket
find_bucket-address ip [] b e = cc
find_bucket-address ip (x ∷ buckets) b e =
    ground (arith, bytes_eq_iff x.address ip, find_bucket-address ip buckets b)

refill-address :
    (l : IpRateLimiter) (now : ℕ) (ip : List ℕ)
    → (refill l now ip (find_bucket ip l.buckets)).address ≡ ip
unfolding refill
refill-address l now ip = elim (Option-cases (find_bucket ip l.buckets)) [
  | inl e ↦ rw e
  | inr (b, e) ↦ rw e (find_bucket-address ip l.buckets b e)
]

-- A request: its time, and the address of the client.
abbrev pub Request : Type 0
Request = ℕ × List ℕ

-- How many requests of a client Allow lets pass, of a sequence of requests of many clients.
unfoldable pub passed : List ℕ → IpRateLimiter → List Request → ℕ
passed ip l [] = 0
passed ip l ((now, from) ∷ requests) =
    let (l', ok') = allow l now from in
    passed ip l' requests + (if ok' then (if bytes_eq from ip then 1 else 0) else 0)

-- Times in order, from `start` to `end`.
abbrev pub InOrder : ℕ → ℕ → List Request → Type 0
InOrder start end [] = start ≤ end
InOrder start end ((now, from) ∷ requests) = (start ≤ now) × InOrder now end requests

InOrder-le : (start end : ℕ) (requests : List Request) → InOrder start end requests → start ≤ end
InOrder-le start end [] h = h
InOrder-le start end ((now, from) ∷ requests) (h, hs) =
    omega (arith, InOrder-le now end requests hs)

refill-last_time :
    (l : IpRateLimiter) (now : ℕ) (ip : List ℕ) (o : Option TokenBucket)
    → (refill l now ip o).last_time ≡ now
unfolding refill
refill-last_time l now ip none = refl
refill-last_time l now ip (some b) = refl

-- What Allow does to the bucket of its client.
record Allowed (l : IpRateLimiter) (now : ℕ) (ip : List ℕ) : Type 0 where
  bucket : TokenBucket
  held : find_bucket ip (allow l now ip).0.buckets ≡ some bucket
  at : bucket.last_time ≡ now
  paid :
      bucket.tokens + (if (allow l now ip).1 then token else 0)
      ≡ (refill l now ip (find_bucket ip l.buckets)).tokens

allow_self : (l : IpRateLimiter) (now : ℕ) (ip : List ℕ) → Allowed l now ip
unfolding allow
allow_self l now ip =
    let o = find_bucket ip l.buckets in
    let b = refill l now ip o in
    let here = refill-address l now ip in
    elim (Bool-cases (ltb b.tokens token)) [
      | inl poor ↦ record {
        bucket = b;
        held =
            rw (poor, allow)
              (ap (λ a. find_bucket a (put_bucket b l.buckets)) (sym here)
                ∙ find_bucket-put_self b l.buckets);
        at = refill-last_time l now ip o;
        paid = rw (poor, allow) (omega arith);
      }
      | inr rich ↦
          let b' : TokenBucket = record b { tokens = b.tokens - token } in
          record {
            bucket = b';
            held =
                rw (rich, allow)
                  (ap (λ a. find_bucket a (put_bucket b' l.buckets)) (sym here)
                    ∙ find_bucket-put_self b' l.buckets);
            at = refill-last_time l now ip o;
            paid = rw (rich, allow) (ground arith);
          }
    ]

allow_rate :
    (l : IpRateLimiter) (now : ℕ) (ip : List ℕ)
    → ((allow l now ip).0.rate ≡ l.rate) × ((allow l now ip).0.burst ≡ l.burst)
unfolding allow
allow_rate l now ip = ground arith

-- Allow leaves the buckets of other clients alone.
allow_other :
    (l : IpRateLimiter) (now : ℕ) (from ip : List ℕ)
    → bytes_eq from ip ≡ false
    → find_bucket ip (allow l now from).0.buckets ≡ find_bucket ip l.buckets
unfolding allow
allow_other l now from ip h =
    let b = refill l now from (find_bucket from l.buckets) in
    let b' : TokenBucket = record b { tokens = b.tokens - token } in
    let other : bytes_eq b.address ip ≡ false =
      ap (λ a. bytes_eq a ip) (refill-address l now from) ∙ h in
    elim (Bool-cases (ltb b.tokens token)) [
      | inl poor ↦ rw (poor, allow) (find_bucket-put_ne b ip l.buckets other)
      | inr rich ↦ rw (rich, allow) (find_bucket-put_ne b' ip l.buckets other)
    ]

refill_le :
    (l : IpRateLimiter) (now : ℕ) (ip : List ℕ) (b : TokenBucket)
    → b.last_time ≤ now
    → (refill l now ip (some b)).tokens + l.rate * b.last_time ≤ b.tokens + l.rate * now
unfolding refill
refill_le l now ip b h =
    let d = now - b.last_time in
    let e : now ≡ b.last_time + d = omega arith in
    let scaled : l.rate * now ≡ l.rate * (b.last_time + d) = ap (λ (t : ℕ). l.rate * t) e in
    ground (arith, scaled)

-- The requests that pass cost no more than the tokens held and those that the rate adds.
budget_from :
    (ip : List ℕ) (requests : List Request) (l : IpRateLimiter) (start end : ℕ) (b : TokenBucket)
    → find_bucket ip l.buckets ≡ some b
    → b.last_time ≤ start
    → InOrder start end requests
    → passed ip l requests * token + l.rate * b.last_time ≤ b.tokens + l.rate * end
unfolding passed
budget_from ip [] l start end b held past order =
    let d = end - b.last_time in
    let e : end ≡ b.last_time + d = omega arith in omega (arith, ap (λ (t : ℕ). l.rate * t) e)
budget_from ip ((now, from) ∷ requests) l start end b held past (h, order) =
    let l' = (allow l now from).0 in
    let (same_rate, _) = allow_rate l now from in
    elim (Bool-cases (bytes_eq from ip)) [
      | inr other ↦
          let rest =
            budget_from ip requests l' now end b (allow_other l now from ip other ∙ held)
              (omega arith) order in
          rw other (
            ground (
              arith,
              rest,
              ap (λ (t : ℕ). t * b.last_time) same_rate,
              ap (λ (t : ℕ). t * end) same_rate,
            ))
      | inl mine ↦
          let from_ip = (bytes_eq_iff from ip).0 mine in
          let a = allow_self l now from in
          let held' : find_bucket ip l'.buckets ≡ some a.bucket =
            ap (λ t. find_bucket t l'.buckets) (sym from_ip) ∙ a.held in
          let rest =
            budget_from ip requests l' now end a.bucket held' (omega (arith, a.at)) order in
          let filled = refill_le l now from b (omega arith) in
          let old : find_bucket from l.buckets ≡ some b =
            ap (λ t. find_bucket t l.buckets) from_ip ∙ held in
          let paid' = a.paid ∙ ap (λ o. (refill l now from o).tokens) old in
          rw mine (
            ground (
              arith,
              rest,
              filled,
              paid',
              ap (λ (t : ℕ). t * a.bucket.last_time) same_rate,
              ap (λ (t : ℕ). t * end) same_rate,
              ap (λ (t : ℕ). l.rate * t) a.at,
            ))
    ]

budget_new :
    (ip : List ℕ) (requests : List Request) (l : IpRateLimiter) (start end : ℕ)
    → find_bucket ip l.buckets ≡ none
    → InOrder start end requests
    → passed ip l requests * token + l.rate * start ≤ l.burst + l.rate * end
unfolding passed
budget_new ip [] l start end none_held order =
    let d = end - start in
    let e : end ≡ start + d = omega arith in omega (arith, ap (λ (t : ℕ). l.rate * t) e)
budget_new ip ((now, from) ∷ requests) l start end none_held (h, order) =
    let l' = (allow l now from).0 in
    let (same_rate, same_burst) = allow_rate l now from in
    let d = now - start in
    let e : now ≡ start + d = omega arith in
    let later = ap (λ (t : ℕ). l.rate * t) e in
    elim (Bool-cases (bytes_eq from ip)) [
      | inr other ↦
          let rest =
            budget_new ip requests l' now end (allow_other l now from ip other ∙ none_held) order in
          rw other (
            ground (
              arith,
              rest,
              same_burst,
              later,
              ap (λ (t : ℕ). t * now) same_rate,
              ap (λ (t : ℕ). t * end) same_rate,
            ))
      | inl mine ↦
          let from_ip = (bytes_eq_iff from ip).0 mine in
          let a = allow_self l now from in
          let held' : find_bucket ip l'.buckets ≡ some a.bucket =
            ap (λ t. find_bucket t l'.buckets) (sym from_ip) ∙ a.held in
          let rest =
            budget_from ip requests l' now end a.bucket held' (omega (arith, a.at)) order in
          let absent : find_bucket from l.buckets ≡ none =
            ap (λ t. find_bucket t l.buckets) from_ip ∙ none_held in
          let full : (refill l now from none).tokens ≡ l.burst = unfold refill in refl in
          let paid' = a.paid ∙ ap (λ o. (refill l now from o).tokens) absent ∙ full in
          rw mine (
            ground (
              arith,
              rest,
              paid',
              later,
              ap (λ (t : ℕ). t * a.bucket.last_time) same_rate,
              ap (λ (t : ℕ). t * end) same_rate,
              ap (λ (t : ℕ). l.rate * t) a.at,
            ))
    ]

-- Of any requests in order of time, of any clients, Allow of a new limiter with a positive number
-- lets pass no more of one client than that number, and that number again for each second that
-- they span.
pub passed_budget :
    (queries_per_second : ℕ) (ip : List ℕ) (requests : List Request) (start end : ℕ)
    → 0 < queries_per_second
    → InOrder start end requests
    → passed ip (new_ip_rate_limiter queries_per_second) requests * token
      ≤ queries_per_second * token + queries_per_second * (end - start)
unfolding new_ip_rate_limiter find_bucket
passed_budget q ip requests start end pos order =
    let l = new_ip_rate_limiter q in
    let d = end - start in
    let e : end ≡ start + d = omega (arith, InOrder-le start end requests order) in
    let one : ltb q 1 ≡ false = ground arith in
    let rate_lem : l.rate ≡ q = rw one in
    let burst_lem : l.burst ≡ q * token = rw one in
    omega (
      arith,
      budget_new ip requests l start end refl order,
      burst_lem,
      ap (λ (t : ℕ). t * start) rate_lem,
      ap (λ (t : ℕ). t * end) rate_lem,
      ap (λ (t : ℕ). q * t) e,
    )
