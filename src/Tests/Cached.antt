-- ===== src/Tests/Cached.antt =====
-- The theorems on internal/cache at concrete inputs.
use dns_over_minecraft.Prelude.{
  ◌+◌, ◌-◌, ◌*◌, ◌/◌, ◌%◌, ◌^◌, ◌<◌, ◌≤◌, ◌≡◌, refl, arith, [], ◌∷◌, some, All, bytes_eq, ◌==◌,
  if◌then◌else◌,
}
use dns_over_minecraft.Text.{codes}
use dns_over_minecraft.Dns.{Rr}
use dns_over_minecraft.Cache.{
  Entry, Cache, second, new, get, set, get_key, find, rcode_name_error, age_message, computed_ttl,
}
use dns_over_minecraft.Cache.Invariant.{IsValid, new-IsValid, get-IsValid, set-IsValid}
use dns_over_minecraft.Cache.Reads.{elapsed, get-set, get_key_twice}
use dns_over_minecraft.Cache.Reads.Expiry.{computed_ttl_bounds}
use dns_over_minecraft.Tests.{example_dns, question_a, answer_a, rr_a}

abbrev small_cache : Cache
small_cache = new 2 0 0

set-IsValid_example : IsValid (set example_dns small_cache 5 6 question_a (some answer_a))
set-IsValid_example =
    set-IsValid example_dns small_cache 5 6 question_a (some answer_a) (new-IsValid 2 0 0)

get-IsValid_example : IsValid (get example_dns small_cache 5 question_a).0
get-IsValid_example = get-IsValid example_dns small_cache 5 question_a (new-IsValid 2 0 0)

fresh_until_6 : 6 ≤ 5 + computed_ttl small_cache answer_a
unfolding new
fresh_until_6 = omega (
  arith,
  computed_ttl_bounds small_cache answer_a rr_a [] refl (omega arith, tt) (omega arith)
      (omega arith),
)

get-set_example :
    (get example_dns (set example_dns small_cache 5 5 question_a (some answer_a)) 6 question_a).1
    ≡ (if answer_a.rcode == rcode_name_error
        then (get example_dns small_cache 6 question_a).1
        else some (record (age_message ((6 - 5) / second % 2 ^ 32) answer_a) { id = 0 }))
get-set_example =
    get-set example_dns small_cache 5 5 6 question_a answer_a (new-IsValid 2 0 0) (omega arith)
      fresh_until_6

abbrev held : Entry
held = record { key = codes "a"; message = answer_a; stored_at = 0; expires_at = 300 * second }

abbrev one_entry : Cache
one_entry = record {
  items = held ∷ [];
  lru = codes "a" ∷ [];
  ttl = 300 * second;
  negative_ttl = 30 * second;
  max_size = 2;
}

get_key_twice_example :
    (get_key (get_key one_entry (2 * second) (codes "a")).0 (3 * second) (codes "a")).1
    ≡ some (record (age_message (elapsed (2 * second) held + elapsed (3 * second) held) answer_a) {
      id = 0;
    })
unfolding find bytes_eq
get_key_twice_example =
    get_key_twice one_entry (2 * second) (3 * second) (codes "a") held refl (omega arith)
      (omega arith)

computed_ttl_bounds_example :
    (0 < computed_ttl one_entry answer_a)
    × (computed_ttl one_entry answer_a ≤ 300 * second)
    × All (λ (r : Rr). computed_ttl one_entry answer_a ≤ r.ttl * second) (rr_a ∷ [])
computed_ttl_bounds_example =
    computed_ttl_bounds one_entry answer_a rr_a [] refl (omega arith, tt) (omega arith)
      (omega arith)
