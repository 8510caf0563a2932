-- ===== src/Cache/Invariant.antt =====
-- internal/cache/cache.go: the map and the LRU list stay consistent, and the cache stays bounded.
use dns_over_minecraft.Prelude.{
  ℕ, zero, suc, ◌+◌, ◌-◌, ◌/◌, ◌%◌, ◌^◌, ◌≤◌, ◌<◌, ◌≡◌, refl, ap, sym, subst, ◌∙◌, arith, true,
  false, ◌||◌, List, [], ◌∷◌, map, ltb, ◌==◌, if◌then◌else◌, Option, none, some, length, bytes_eq,
  bytes_eq_iff, bytes_eq_refl, Bool-cases, Option-cases, inl, inr,
}
use dns_over_minecraft.Dns.{Question, Msg, DnsLibrary}
use dns_over_minecraft.Cache.{
  Entry, Cache, new, find, delete, remove_locked, hit, get_key, get, victim, last_expired,
  remove_element_locked, evict_loop, evict_locked, without_element, set_key, set, computed_ttl,
  second, age_message, cache_key,
}
use dns_over_minecraft.Cache.Keys.{
  member, remove, get_last?, Distinct, member-remove, remove-Distinct, remove_absent, length-remove,
  get_last?-member,
}

abbrev pub keys : List Entry → List (List ℕ)
keys = map (λ e. e.key)

-- The map and the LRU list hold the same keys, each once.
pub record IsConsistent (c : Cache) : Type 0 where
  pub distinct_items : Distinct (keys c.items)
  pub distinct_lru : Distinct c.lru
  pub same : (k : List ℕ) → member k (keys c.items) ≡ member k c.lru
  pub as_long : length c.items ≡ length c.lru

-- And there are at most `max_size` entries.
pub record IsValid (c : Cache) : Type 0 where
  pub consistent : IsConsistent c
  pub bounded : length c.items ≤ c.max_size
  pub positive : 0 < c.max_size

pub keys-delete : (k : List ℕ) (items : List Entry) → keys (delete k items) ≡ remove k (keys items)
unfolding delete remove
keys-delete k [] = refl
keys-delete k (e ∷ items) = ground (arith, keys-delete k items)

length-keys : (items : List Entry) → length (keys items) ≡ length items
length-keys [] = refl
length-keys (e ∷ items) = ap suc (length-keys items)

pub find-member :
    (k : List ℕ) (items : List Entry) (e : Entry)
    → find k items ≡ some e
    → (e.key ≡ k) × (member k (keys items) ≡ true)
unfolding find member
find-member k [] e h = cc
find-member k (x ∷ items) e h = ground (arith, bytes_eq_iff x.key k, find-member k items e)

pub find-none-member :
    (k : List ℕ) (items : List Entry) → find k items ≡ none → member k (keys items) ≡ false
unfolding find member
find-none-member k [] h = refl
find-none-member k (x ∷ items) h = ground (arith, find-none-member k items)

same-remove :
    (c : Cache) (k : List ℕ)
    → IsConsistent c
    → (j : List ℕ) → member j (keys (delete k c.items)) ≡ member j (remove k c.lru)
same-remove c k v j =
    ap (member j) (keys-delete k c.items)
    ∙ member-remove j k (keys c.items)
    ∙ ap (λ t. if bytes_eq k j then false else t) (v.same j)
    ∙ sym (member-remove j k c.lru)

pub length-delete :
    (c : Cache) (k : List ℕ)
    → IsConsistent c
    → member k c.lru ≡ true
    → length (delete k c.items) + 1 ≡ length c.items
length-delete c k v h = omega (
  arith,
  length-keys (delete k c.items),
  length-keys c.items,
  ap length (keys-delete k c.items),
  length-remove k (keys c.items) v.distinct_items (v.same k ∙ h),
)

length-delete-remove :
    (c : Cache) (k : List ℕ) → IsConsistent c → length (delete k c.items) ≡ length (remove k c.lru)
length-delete-remove c k v = elim (Bool-cases (member k c.lru)) [
  | inl h ↦ omega (arith, v.as_long, length-delete c k v h, length-remove k c.lru v.distinct_lru h)
  | inr h ↦ omega (
    arith,
    v.as_long,
    length-keys (delete k c.items),
    length-keys c.items,
    ap length (keys-delete k c.items),
    ap length (remove_absent k (keys c.items) (v.same k ∙ h)),
    ap length (remove_absent k c.lru h),
  )
]

-- The lists without one key, and with it in front.
pub remove_element-IsConsistent :
    (c : Cache) (k : List ℕ) → IsConsistent c → IsConsistent (remove_element_locked c k)
unfolding remove_element_locked
remove_element-IsConsistent c k v = record {
  distinct_items = rw (keys-delete k c.items) (remove-Distinct k (keys c.items) v.distinct_items);
  distinct_lru = remove-Distinct k c.lru v.distinct_lru;
  same = same-remove c k v;
  as_long = length-delete-remove c k v;
}

removed_absent : (k : List ℕ) (ks : List (List ℕ)) → member k (remove k ks) ≡ false
removed_absent k ks = ground (arith, member-remove k k ks, bytes_eq_refl k)

abbrev pub insert : Cache → Entry → Cache
insert c e = record c { items = e ∷ delete e.key c.items; lru = e.key ∷ remove e.key c.lru }

pub insert-IsConsistent : (c : Cache) (e : Entry) → IsConsistent c → IsConsistent (insert c e)
unfolding member
insert-IsConsistent c e v = record {
  distinct_items = (
    ap (member e.key) (keys-delete e.key c.items) ∙ removed_absent e.key (keys c.items),
    rw (keys-delete e.key c.items) (remove-Distinct e.key (keys c.items) v.distinct_items),
  );
  distinct_lru = (removed_absent e.key c.lru, remove-Distinct e.key c.lru v.distinct_lru);
  same = λ j. ap (λ t. bytes_eq e.key j || t) (same-remove c e.key v j);
  as_long = ap suc (length-delete-remove c e.key v);
}

remove_locked-IsConsistent :
    (c : Cache) (k : List ℕ)
    → IsConsistent c
    → IsConsistent (remove_locked c k)
      × (length (remove_locked c k).items ≤ length c.items)
      × ((remove_locked c k).max_size ≡ c.max_size)
unfolding remove_locked remove_element_locked
remove_locked-IsConsistent c k v = elim (Option-cases (find k c.items)) [
  | inl e ↦ rw (e, remove_locked) (v, omega arith, refl)
  | inr (x, e) ↦
      let there : member k c.lru ≡ true = sym (v.same k) ∙ (find-member k c.items x e).1 in
      rw (e, remove_locked)
        (remove_element-IsConsistent c k v, omega (arith, length-delete c k v there), refl)
]

last_expired-member :
    (now : ℕ) (items : List Entry) (lru : List (List ℕ)) (k : List ℕ)
    → last_expired now items lru ≡ some k
    → member k lru ≡ true
unfolding last_expired member
last_expired-member now items [] k e = cc
last_expired-member now items (x ∷ lru) k e =
    ground (arith, bytes_eq_iff x k, last_expired-member now items lru k)

pub victim-member :
    (now : ℕ) (c : Cache) (k : List ℕ) → victim now c ≡ some k → member k c.lru ≡ true
unfolding victim
victim-member now c k e =
    ground (arith, last_expired-member now c.items c.lru k, get_last?-member c.lru k)

get_last?-none : (ks : List (List ℕ)) → get_last? ks ≡ none → length ks ≡ 0
unfolding get_last?
get_last?-none [] e = refl
get_last?-none (x ∷ []) e = cc
get_last?-none (x ∷ y ∷ ks) e = absurd (ground (arith, get_last?-none (y ∷ ks)))

pub victim-none : (now : ℕ) (c : Cache) → victim now c ≡ none → length c.lru ≡ 0
unfolding victim
victim-none now c e = ground (arith, get_last?-none c.lru)

-- The loop of evictLocked ends with a cache that is consistent and within its size.
evict_loop-IsConsistent :
    (fuel now : ℕ) (c : Cache)
    → IsConsistent c
    → length c.items ≤ fuel
    → IsConsistent (evict_loop fuel now c)
      × (length (evict_loop fuel now c).items ≤ c.max_size)
      × ((evict_loop fuel now c).max_size ≡ c.max_size)
unfolding evict_loop remove_element_locked
evict_loop-IsConsistent zero now c v h = (v, omega arith, refl)
evict_loop-IsConsistent (suc fuel) now c v h = elim (Bool-cases (ltb c.max_size (length c.items))) [
  | inr small ↦ rw (small, evict_loop) (v, ground arith, refl)
  | inl large ↦ elim (Option-cases (victim now c)) [
    | inl e ↦ absurd (ground (arith, victim-none now c e, v.as_long))
    | inr (k, e) ↦
        let shorter = length-delete c k v (victim-member now c k e) in
        rw (large, e, evict_loop)
          (evict_loop-IsConsistent fuel now (remove_element_locked c k)
            (remove_element-IsConsistent c k v)
            (unfold remove_element_locked in omega (arith, shorter)))
  ]
]

hit-IsValid :
    (c : Cache) (now : ℕ) (x : Entry)
    → IsValid c
    → member x.key c.lru ≡ true
    → IsValid (hit c now x).0
unfolding hit
hit-IsValid c now x v there =
    let elapsed = (now - x.stored_at) / second % 2 ^ 32 in
    let aged : Entry = record x {
      message = if ltb 0 elapsed then age_message elapsed x.message else x.message;
    } in
    record {
      consistent = insert-IsConsistent c aged v.consistent;
      bounded = omega (arith, v.bounded, length-delete c x.key v.consistent there);
      positive = v.positive;
    }

-- A new cache is valid, whatever its configured size and durations.
pub new-IsValid : (size ttl negative : ℕ) → IsValid (new size ttl negative)
unfolding new member
new-IsValid size ttl negative = record {
  consistent = record { distinct_items = tt; distinct_lru = tt; same = λ k. refl; as_long = refl };
  bounded = omega arith;
  positive = ground arith;
}

-- Get keeps the cache valid, whether it misses, drops an expired entry or hits.
pub get_key-IsValid :
    (c : Cache) (now : ℕ) (key : List ℕ) → IsValid c → IsValid (get_key c now key).0
unfolding get_key
get_key-IsValid c now key v = elim (Option-cases (find key c.items)) [
  | inl e ↦ rw (e, get_key) v
  | inr (x, e) ↦
      let (same_key, there) = find-member key c.items x e in
      elim (Bool-cases (ltb x.expires_at now)) [
        | inl old ↦
            let (w, shorter, kept) = remove_locked-IsConsistent c key v.consistent in
            rw (e, get_key)
              (rw old (record {
                consistent = w;
                bounded = omega (arith, v.bounded);
                positive = omega (arith, v.positive);
              }))
        | inr fresh ↦
            rw (e, get_key)
              (rw fresh (hit-IsValid c now x v (rw same_key (sym (v.consistent.same key) ∙ there))))
      ]
]

evict_locked-IsConsistent :
    (now : ℕ) (c : Cache)
    → IsConsistent c
    → IsConsistent (evict_locked now c)
      × (length (evict_locked now c).items ≤ c.max_size)
      × ((evict_locked now c).max_size ≡ c.max_size)
unfolding evict_locked
evict_locked-IsConsistent now c v = evict_loop-IsConsistent (length c.items) now c v (omega arith)

pub without_element_lem :
    (c : Cache) (key : List ℕ) → IsConsistent c → without_element c key ≡ remove key c.lru
unfolding without_element
without_element_lem c key v = elim (Option-cases (find key c.items)) [
  | inr (x, found) ↦ rw (found, without_element)
  | inl missing ↦
      rw (missing, without_element)
        (sym (remove_absent key c.lru (sym (v.same key) ∙ find-none-member key c.items missing)))
]

-- Set keeps the cache valid: it evicts until the new entry fits.
pub set_key-IsValid :
    (c : Cache) (now evict_now : ℕ) (key : List ℕ) (m : Msg)
    → IsValid c
    → IsValid (set_key c now evict_now key m)
unfolding set_key
set_key-IsValid c now evict_now key m v =
    let e : Entry = record {
      key = key;
      message = m;
      stored_at = now;
      expires_at = now + computed_ttl c m;
    } in
    let c' = insert c e in
    let (w, fits, kept) =
      evict_locked-IsConsistent evict_now c' (insert-IsConsistent c e v.consistent) in
    let result : IsValid (evict_locked evict_now c') = record {
      consistent = w;
      bounded = omega arith;
      positive = omega (arith, v.positive);
    } in
    let untouched = without_element_lem c key v.consistent in
    subst (λ l. IsValid (evict_locked evict_now (record c' { lru = key ∷ l }))) (sym untouched)
      result

module _ (dns : DnsLibrary) where
  -- Get keeps a valid cache valid: its map and its LRU list hold the same keys, each once, and no
  -- more entries than the configured size, after a miss, an expired entry or a hit.
  pub get-IsValid :
      (c : Cache) (now : ℕ) (question : Question) → IsValid c → IsValid (get dns c now question).0
  unfolding get
  get-IsValid c now question v = get_key-IsValid c now (cache_key dns question) v

  -- Set keeps a valid cache valid: its map and its LRU list hold the same keys, each once, and no
  -- more entries than the configured size, whether the message is stored or refused.
  pub set-IsValid :
      (c : Cache) (now evict_now : ℕ) (question : Question) (m : Option Msg)
      → IsValid c
      → IsValid (set dns c now evict_now question m)
  unfolding set
  set-IsValid c now evict_now question none v = v
  set-IsValid c now evict_now question (some m) v = elim (Bool-cases (m.rcode == 3)) [
    | inl refused ↦ rw (refused, set) v
    | inr other ↦ rw (other, set) (set_key-IsValid c now evict_now (cache_key dns question) m v)
  ]
