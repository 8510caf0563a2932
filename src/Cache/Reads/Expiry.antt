-- ===== src/Cache/Reads/Expiry.antt =====
-- internal/cache/cache.go: for how long Set keeps a message.
use dns_over_minecraft.Prelude.{
  ℕ, ◌*◌, ◌/◌, ◌%◌, ◌^◌, ◌≤◌, ◌<◌, ◌≡◌, ap, sym, subst, arith, List, [], ◌∷◌, ltb, if◌then◌else◌,
  All,
}
use dns_over_minecraft.Dns.{Rr, Msg}
use dns_over_minecraft.Cache.{Cache, minimum_ttl, answer_ttl, computed_ttl, second}

abbrev AtMost : ℕ → Rr → Type 0
AtMost bound rr = bound ≤ rr.ttl

minimum_ttl-le :
    (start : ℕ) (rrs : List Rr)
    → (minimum_ttl start rrs ≤ start) × All (AtMost (minimum_ttl start rrs)) rrs
unfolding minimum_ttl
minimum_ttl-le start [] = (omega arith, tt)
minimum_ttl-le start (rr ∷ rrs) =
    let (le, all) = minimum_ttl-le (if ltb rr.ttl start then rr.ttl else start) rrs in
    (ground arith, (ground arith, all))

minimum_ttl-pos :
    (start : ℕ) (rrs : List Rr) → 0 < start → All (AtMost 1) rrs → 0 < minimum_ttl start rrs
unfolding minimum_ttl
minimum_ttl-pos start [] h k = h
minimum_ttl-pos start (rr ∷ rrs) h (k, ks) =
    minimum_ttl-pos (if ltb rr.ttl start then rr.ttl else start) rrs (ground arith) ks

All-scale :
    (t k n : ℕ) (rrs : List Rr) → t ≤ k * n → All (AtMost k) rrs → All (λ r. t ≤ r.ttl * n) rrs
All-scale t k n [] h a = tt
All-scale t k n (rr ∷ rrs) h (a, as') = (grind arith, All-scale t k n rrs h as')

answer_ttl_bounds :
    (c : Cache) (rr : Rr) (rrs : List Rr)
    → All (AtMost 1) (rr ∷ rrs)
    → second ≤ c.ttl
    → c.ttl < 2 ^ 32 * second
    → (0 < answer_ttl c (rr ∷ rrs))
      × (answer_ttl c (rr ∷ rrs) ≤ c.ttl)
      × All (λ r. answer_ttl c (rr ∷ rrs) ≤ r.ttl * second) (rr ∷ rrs)
unfolding answer_ttl
answer_ttl_bounds c rr rrs pos lo hi =
    let start = c.ttl / second % 2 ^ 32 in
    let low = minimum_ttl start (rr ∷ rrs) in
    let (below, least) = minimum_ttl-le start (rr ∷ rrs) in
    let some_time : 0 < low = minimum_ttl-pos start (rr ∷ rrs) (omega arith) pos in
    let within : answer_ttl c (rr ∷ rrs) ≤ low * second = unfold answer_ttl in ground arith in
    (
      ground arith,
      ground arith,
      All-scale (answer_ttl c (rr ∷ rrs)) low second (rr ∷ rrs) within least,
    )

-- If the TTL of the cache is from a second to less than 2 ^ 32 seconds, a message with answers,
-- none of TTL 0, is kept for more than no time, and no longer than the TTL of any of its answers
-- and than the TTL of the cache.
pub computed_ttl_bounds :
    (c : Cache) (m : Msg) (rr : Rr) (rrs : List Rr)
    → m.answer ≡ rr ∷ rrs
    → All (AtMost 1) m.answer
    → second ≤ c.ttl
    → c.ttl < 2 ^ 32 * second
    → (0 < computed_ttl c m)
      × (computed_ttl c m ≤ c.ttl)
      × All (λ r. computed_ttl c m ≤ r.ttl * second) m.answer
unfolding computed_ttl
computed_ttl_bounds c m rr rrs e pos lo hi =
    let (some_time, short, each) =
      answer_ttl_bounds c rr rrs (subst (All (AtMost 1)) e pos) lo hi in
    let same : computed_ttl c m ≡ answer_ttl c (rr ∷ rrs) = ground (arith, ap (answer_ttl c) e) in
    subst (λ t. (0 < t) × (t ≤ c.ttl) × All (λ r. t ≤ r.ttl * second) m.answer) (sym same)
      (some_time, short, subst (All (λ r. answer_ttl c (rr ∷ rrs) ≤ r.ttl * second)) (sym e) each)
