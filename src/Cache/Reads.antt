-- ===== src/Cache/Reads.antt =====
-- internal/cache/cache.go: what Get returns after Set, and after another Get.
pub mod Expiry
use dns_over_minecraft.Prelude.{
  ℕ, zero, suc, ◌+◌, ◌-◌, ◌*◌, ◌/◌, ◌%◌, ◌^◌, ◌≤◌, ◌<◌, ◌≡◌, ◌≢◌, refl, ap, sym, subst, ◌∙◌, arith,
  Bool, true, false, List, [], ◌∷◌, map, ltb, if◌then◌else◌, Option, none, some, length, bytes_eq,
  ◌==◌, bytes_eq_iff, bytes_eq_refl, Bool-cases, Option-cases, inl, inr, ◌⊎◌,
}
use dns_over_minecraft.Dns.{Rr, Msg, Question, DnsLibrary}
use dns_over_minecraft.Cache.{
  Entry, Cache, find, delete, hit, get_key, victim, last_expired, is_expired, decremented_ttl,
  age_rr, age_message, remove_element_locked, evict_loop, evict_locked, set_key, computed_ttl,
  second, rcode_name_error, get, set,
}
use dns_over_minecraft.Cache.Keys.{member, remove, get_last?, Distinct, get_last?-member}
use dns_over_minecraft.Cache.Invariant.{
  IsConsistent, IsValid, insert, find-member, insert-IsConsistent, remove_element-IsConsistent,
  length-delete, victim-member, without_element_lem,
}

find-delete_ne :
    (k j : List ℕ) (items : List Entry)
    → bytes_eq k j ≡ false
    → find j (delete k items) ≡ find j items
unfolding find delete
find-delete_ne k j [] h = refl
find-delete_ne k j (e ∷ items) h =
    ground (
      arith,
      bytes_eq_iff e.key k,
      bytes_eq_iff e.key j,
      bytes_eq_iff k j,
      find-delete_ne k j items,
    )

last_expired-is_expired :
    (now : ℕ) (items : List Entry) (lru : List (List ℕ)) (k : List ℕ)
    → last_expired now items lru ≡ some k
    → is_expired now items k ≡ true
unfolding last_expired
last_expired-is_expired now items [] k e = cc
last_expired-is_expired now items (x ∷ lru) k e =
    ground (arith, last_expired-is_expired now items lru k)

last_ne_front :
    (key : List ℕ) (rest : List (List ℕ)) (k : List ℕ)
    → Distinct (key ∷ rest)
    → 1 < length (key ∷ rest)
    → get_last? (key ∷ rest) ≡ some k
    → bytes_eq k key ≡ false
unfolding get_last?
last_ne_front key [] k d h e = absurd (omega arith)
last_ne_front key (y ∷ ys) k d h e = ground (arith, get_last?-member (y ∷ ys) k, bytes_eq_iff k key)

-- The most recent entry, unless it has expired, is not the one that is evicted.
victim-ne_front :
    (now : ℕ) (c : Cache) (key : List ℕ) (rest : List (List ℕ)) (e : Entry) (k : List ℕ)
    → IsConsistent c
    → c.lru ≡ key ∷ rest
    → find key c.items ≡ some e
    → ltb e.expires_at now ≡ false
    → 1 < length c.items
    → victim now c ≡ some k
    → bytes_eq k key ≡ false
unfolding victim is_expired
victim-ne_front now c key rest e k v front found fresh two chosen =
    elim (Option-cases (last_expired now c.items c.lru)) [
      | inr (x, old) ↦
          ground (arith, last_expired-is_expired now c.items c.lru x, bytes_eq_iff k key)
      | inl none_old ↦
          let last : get_last? (key ∷ rest) ≡ some k = ap get_last? (sym front) ∙ ground arith in
          let distinct : Distinct (key ∷ rest) = subst Distinct front v.distinct_lru in
          let long : 1 < length (key ∷ rest) = omega (arith, v.as_long, ap length front) in
          last_ne_front key rest k distinct long last
    ]

front_kept :
    (c : Cache) (k key : List ℕ) (rest : List (List ℕ))
    → c.lru ≡ key ∷ rest
    → bytes_eq k key ≡ false
    → (remove_element_locked c k).lru ≡ key ∷ remove k rest
unfolding remove_element_locked
front_kept c k key rest front other = ap (remove k) front ∙ step
  where
    step : remove k (key ∷ rest) ≡ key ∷ remove k rest
    step = unfold remove in ground (arith, bytes_eq_iff key k, bytes_eq_iff k key)

-- The loop of evictLocked keeps the most recent entry, unless it has expired.
evict_loop-find :
    (fuel now : ℕ) (c : Cache) (key : List ℕ) (rest : List (List ℕ)) (e : Entry)
    → IsConsistent c
    → c.lru ≡ key ∷ rest
    → find key c.items ≡ some e
    → ltb e.expires_at now ≡ false
    → 0 < c.max_size
    → find key (evict_loop fuel now c).items ≡ some e
unfolding evict_loop
evict_loop-find zero now c key rest e v front found fresh pos = found
evict_loop-find (suc fuel) now c key rest e v front found fresh pos =
    elim (Bool-cases (ltb c.max_size (length c.items))) [
      | inr small ↦ rw (small, evict_loop) found
      | inl large ↦ elim (Option-cases (victim now c)) [
        | inl no_victim ↦ rw (large, no_victim, evict_loop) found
        | inr (k, chosen) ↦
            let other =
              victim-ne_front now c key rest e k v front found fresh (ground arith) chosen in
            rw (large, chosen, evict_loop)
              (evict_loop-find fuel now (remove_element_locked c k) key (remove k rest) e
                (remove_element-IsConsistent c k v) (front_kept c k key rest front other)
                (unfold remove_element_locked in find-delete_ne k key c.items other ∙ found) fresh
                (unfold remove_element_locked in pos))
      ]
    ]

stored : Cache → ℕ → List ℕ → Msg → Entry
stored c now key m = record {
  key = key;
  message = m;
  stored_at = now;
  expires_at = now + computed_ttl c m;
}

set_key-find :
    (c : Cache) (now evict_now : ℕ) (key : List ℕ) (m : Msg)
    → IsValid c
    → evict_now ≤ now + computed_ttl c m
    → find key (set_key c now evict_now key m).items ≡ some (stored c now key m)
unfolding set_key evict_locked stored
set_key-find c now evict_now key m v h =
    let e = stored c now key m in
    let c' = insert c e in
    subst (λ l. find key (evict_locked evict_now (record c' { lru = key ∷ l })).items ≡ some e)
      (sym (without_element_lem c key v.consistent))
      (evict_loop-find (length c'.items) evict_now c' key (remove key c.lru) e
        (insert-IsConsistent c e v.consistent) refl (unfold find in rw (bytes_eq_refl key))
        (ground arith) v.positive)

age_zero : (rrs : List Rr) → map (age_rr 0) rrs ≡ rrs
unfolding age_rr
age_zero [] = refl
age_zero (rr ∷ rrs) =
    let same : decremented_ttl rr.ttl 0 ≡ rr.ttl = unfold decremented_ttl in ground arith in
    λ i. record rr { ttl = same i } ∷ age_zero rrs i

age_message_zero : (m : Msg) → age_message 0 m ≡ m
unfolding age_message
age_message_zero m =
    λ i. record m { answer = age_zero m.answer i; ns = age_zero m.ns i; extra = age_zero m.extra i }

age_add : (a b : ℕ) (rrs : List Rr) → map (age_rr b) (map (age_rr a) rrs) ≡ map (age_rr (a + b)) rrs
unfolding age_rr
age_add a b [] = refl
age_add a b (rr ∷ rrs) =
    let same : decremented_ttl (decremented_ttl rr.ttl a) b ≡ decremented_ttl rr.ttl (a + b) =
      unfold decremented_ttl in ground arith in
    λ i. record rr { ttl = same i } ∷ age_add a b rrs i

age_message_add : (a b : ℕ) (m : Msg) → age_message b (age_message a m) ≡ age_message (a + b) m
unfolding age_message
age_message_add a b m = λ i. record m {
  answer = age_add a b m.answer i;
  ns = age_add a b m.ns i;
  extra = age_add a b m.extra i;
}

-- The whole seconds for which an entry has been stored.
abbrev pub elapsed : ℕ → Entry → ℕ
elapsed now e = (now - e.stored_at) / second % 2 ^ 32

-- The entry after a hit: its message aged, its times as they were.
abbrev aged_entry : ℕ → Entry → Entry
aged_entry now e = record e { message = age_message (elapsed now e) e.message }

abbrev hit_entry : ℕ → Entry → Msg
hit_entry now e = if ltb 0 (elapsed now e) then age_message (elapsed now e) e.message else e.message

hit_entry_lem : (now : ℕ) (e : Entry) → hit_entry now e ≡ age_message (elapsed now e) e.message
hit_entry_lem now e = elim (Bool-cases (ltb 0 (elapsed now e))) [
  | inl some_time ↦ rw some_time
  | inr none_yet ↦
      let zero_time : elapsed now e ≡ 0 = ground arith in
      rw none_yet
        (sym (age_message_zero e.message) ∙ ap (λ t. age_message t e.message) (sym zero_time))
]

get_key_hit :
    (c : Cache) (now : ℕ) (key : List ℕ) (e : Entry)
    → find key c.items ≡ some e
    → now ≤ e.expires_at
    → get_key c now key
      ≡ (insert c (aged_entry now e), some (record (aged_entry now e).message { id = 0 }))
unfolding get_key hit
get_key_hit c now key e found fresh =
    let not_old : ltb e.expires_at now ≡ false = ground arith in
    rw (found, not_old, get_key)
      (λ i. (
        insert c (record e { message = hit_entry_lem now e i }),
        some (record (hit_entry_lem now e i) { id = 0 }),
      ))

get_key-set_key :
    (c : Cache) (now evict_now later : ℕ) (key : List ℕ) (m : Msg)
    → IsValid c
    → evict_now ≤ now + computed_ttl c m
    → later ≤ now + computed_ttl c m
    → (get_key (set_key c now evict_now key m) later key).1
      ≡ some (record (age_message ((later - now) / second % 2 ^ 32) m) { id = 0 })
unfolding stored
get_key-set_key c now evict_now later key m v h k =
    ap (λ r. r.1)
      (get_key_hit (set_key c now evict_now key m) later key (stored c now key m)
        (set_key-find c now evict_now key m v h) k)

-- After a Set of a question on a valid cache, which evicts no later than the new entry would expire,
-- a Get of that question, no later than that either: if the response code of the message is NXDOMAIN,
-- the Get returns what it would have returned without the Set; otherwise it hits and returns the
-- message with identifier 0, each TTL lowered by the whole seconds since the Set, modulo 2 ^ 32.
pub get-set :
    (dns : DnsLibrary) (c : Cache) (now evict_now later : ℕ) (question : Question) (m : Msg)
    → IsValid c
    → evict_now ≤ now + computed_ttl c m
    → later ≤ now + computed_ttl c m
    → (get dns (set dns c now evict_now question (some m)) later question).1 ≡ (
        if m.rcode == rcode_name_error
        then (get dns c later question).1
        else some (record (age_message ((later - now) / second % 2 ^ 32) m) { id = 0 }))
unfolding get set
get-set dns c now evict_now later question m v h k =
    elim (Bool-cases (m.rcode == rcode_name_error)) [
      | inl e ↦ rw (e, set) refl
      | inr e ↦ rw (e, set) (get_key-set_key c now evict_now later _ m v h k)
    ]

-- Of an entry that has not expired at either time, the second of two hits returns the message with
-- its TTLs lowered by the sum of both times since it was stored, in seconds: the second Get ages
-- again what the first has aged already.
pub get_key_twice :
    (c : Cache) (now later : ℕ) (key : List ℕ) (e : Entry)
    → find key c.items ≡ some e
    → now ≤ e.expires_at
    → later ≤ e.expires_at
    → (get_key (get_key c now key).0 later key).1
      ≡ some (record (age_message (elapsed now e + elapsed later e) e.message) { id = 0 })
get_key_twice c now later key e found fresh fresh' =
    let first = ap (λ r. (get_key r.0 later key).1) (get_key_hit c now key e found fresh) in
    let again =
      get_key_hit (insert c (aged_entry now e)) later key (aged_entry now e)
        (unfold find in ground (arith, bytes_eq_iff e.key key, find-member key c.items e found))
        fresh' in
    first
    ∙ ap (λ r. r.1) again
    ∙ ap (λ (m : Msg). some (record m { id = 0 }))
        (age_message_add (elapsed now e) (elapsed later e) e.message)
