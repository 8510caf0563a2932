-- ===== src/Cache.antt =====
-- internal/cache/cache.go: the answer cache. Times and durations are nanoseconds. An entry is named
-- by its key: the map `items` is the list of its entries, and the list `lru` is that of their keys,
-- most recently used first. Calls are taken one after the other, as the mutex orders them.
pub mod Keys
pub mod Invariant
pub mod Reads
pub mod Optional
use dns_over_minecraft.Prelude.{
  ℕ, zero, suc, ◌+◌, ◌-◌, ◌*◌, ◌/◌, ◌%◌, ◌^◌, Bool, true, false, ◌||◌, List, [], ◌∷◌, ◌++◌, map,
  leb, ltb, ◌==◌, if◌then◌else◌, Option, none, some, length, bytes_eq,
}
use dns_over_minecraft.Text.{to_lower}
use dns_over_minecraft.Dns.{Question, Rr, Msg, DnsLibrary}
use dns_over_minecraft.Cache.Keys.{member, remove, get_last?}

pub record Entry : Type 0 where
  pub key : List ℕ
  pub message : Msg
  pub stored_at : ℕ
  pub expires_at : ℕ

pub record Cache : Type 0 where
  pub items : List Entry
  pub lru : List (List ℕ)
  pub ttl : ℕ
  pub negative_ttl : ℕ
  pub max_size : ℕ

abbrev pub second : ℕ
second = 10 ^ 9

-- A size or duration of 0 stands for any that is not positive.
unfoldable pub new : ℕ → ℕ → ℕ → Cache
new cache_size cache_ttl negative_cache_ttl = record {
  items = [];
  lru = [];
  ttl = if cache_ttl == 0 then 300 * second else cache_ttl;
  negative_ttl = if negative_cache_ttl == 0 then 30 * second else negative_cache_ttl;
  max_size = if cache_size == 0 then 2048 else cache_size;
}

unfoldable pub find : List ℕ → List Entry → Option Entry
unfolding bytes_eq
find key [] = none
find key (e ∷ items) = if bytes_eq e.key key then some e else find key items

unfoldable pub delete : List ℕ → List Entry → List Entry
unfolding bytes_eq
delete key [] = []
delete key (e ∷ items) = if bytes_eq e.key key then delete key items else e ∷ delete key items

unfoldable pub decremented_ttl : ℕ → ℕ → ℕ
decremented_ttl current_ttl elapsed_seconds =
    if leb current_ttl elapsed_seconds then 0 else current_ttl - elapsed_seconds

unfoldable pub age_rr : ℕ → Rr → Rr
unfolding decremented_ttl
age_rr elapsed rr = record rr { ttl = decremented_ttl rr.ttl elapsed }

-- The three loops of Get over the records of the stored message.
unfoldable pub age_message : ℕ → Msg → Msg
unfolding age_rr
age_message elapsed m = record m {
  answer = map (age_rr elapsed) m.answer;
  ns = map (age_rr elapsed) m.ns;
  extra = map (age_rr elapsed) m.extra;
}

unfoldable pub remove_locked : Cache → List ℕ → Cache
unfolding delete
remove_locked c key = elim (find key c.items) [
  | none ↦ c
  | some _ ↦ record c { items = delete key c.items; lru = remove key c.lru }
]

-- A hit: the stored message is aged in place and the entry moves to the front.
unfoldable pub hit : Cache → ℕ → Entry → Cache × Option Msg
unfolding age_message
hit c now e =
    let elapsed = (now - e.stored_at) / second % 2 ^ 32 in
    let message = if ltb 0 elapsed then age_message elapsed e.message else e.message in
    let aged = record e { message = message } in
    (
      record c { items = aged ∷ delete e.key c.items; lru = e.key ∷ remove e.key c.lru },
      some (record message { id = 0 }),
    )

unfoldable pub get_key : Cache → ℕ → List ℕ → Cache × Option Msg
unfolding find hit remove_locked
get_key c now key = elim (find key c.items) [
  | none ↦ (c, none)
  | some e ↦ if ltb e.expires_at now then (remove_locked c key, none) else hit c now e
]

-- The smallest TTL of the answer records, from `minimum` on.
unfoldable pub minimum_ttl : ℕ → List Rr → ℕ
minimum_ttl minimum [] = minimum
minimum_ttl minimum (rr ∷ rrs) = minimum_ttl (if ltb rr.ttl minimum then rr.ttl else minimum) rrs

-- The TTL for a message with these answer records, in nanoseconds.
unfoldable pub answer_ttl : Cache → List Rr → ℕ
unfolding minimum_ttl
answer_ttl c [] = c.negative_ttl
answer_ttl c (rr ∷ rrs) =
    let minimum = minimum_ttl (c.ttl / second % 2 ^ 32) (rr ∷ rrs) in
    if ltb (minimum * second) c.ttl then minimum * second else c.ttl

unfoldable pub computed_ttl : Cache → Msg → ℕ
unfolding answer_ttl
computed_ttl c m = let ttl = answer_ttl c m.answer in if ttl == 0 then c.negative_ttl else ttl

-- The entry that evictLocked drops: the first expired one from the back, or the last.
unfoldable pub is_expired : ℕ → List Entry → List ℕ → Bool
unfolding find
is_expired now items key = elim (find key items) [ none ↦ false | some e ↦ ltb e.expires_at now ]

unfoldable pub last_expired : ℕ → List Entry → List (List ℕ) → Option (List ℕ)
unfolding is_expired
last_expired now items [] = none
last_expired now items (key ∷ lru) = elim (last_expired now items lru) [
  | some k ↦ some k
  | none ↦ if is_expired now items key then some key else none
]

unfoldable pub victim : ℕ → Cache → Option (List ℕ)
unfolding last_expired
victim now c = elim (last_expired now c.items c.lru) [ some k ↦ some k | none ↦ get_last? c.lru ]

-- removeElementLocked
unfoldable pub remove_element_locked : Cache → List ℕ → Cache
unfolding delete
remove_element_locked c key = record c { items = delete key c.items; lru = remove key c.lru }

-- The loop of evictLocked. A round drops an entry, so as many rounds as entries are enough.
unfoldable pub evict_loop : ℕ → ℕ → Cache → Cache
evict_loop zero now c = c
evict_loop (suc fuel) now c =
    let next : Cache = elim (victim now c) [
      | none ↦ c
      | some key ↦ evict_loop fuel now (remove_element_locked c key)
    ] in
    if ltb c.max_size (length c.items) then next else c

unfoldable pub evict_locked : ℕ → Cache → Cache
evict_locked now c = evict_loop (length c.items) now c

-- The LRU list of Set without the element of an entry that is replaced.
unfoldable pub without_element : Cache → List ℕ → List (List ℕ)
unfolding find
without_element c key = elim (find key c.items) [ none ↦ c.lru | some _ ↦ remove key c.lru ]

-- `now` is the time of the new entry, and `evict_now` that of evictLocked.
unfoldable pub set_key : Cache → ℕ → ℕ → List ℕ → Msg → Cache
set_key c now evict_now key m =
    let entry : Entry = record {
      key = key;
      message = m;
      stored_at = now;
      expires_at = now + computed_ttl c m;
    } in
    evict_locked evict_now
      (record c { items = entry ∷ delete key c.items; lru = key ∷ without_element c key })

abbrev pub rcode_name_error : ℕ
rcode_name_error = 3

module _ (dns : DnsLibrary) where
  unfoldable pub cache_key : Question → List ℕ
  cache_key question =
      to_lower (dns.fqdn question.name)
      ++ (b'/'
          ∷ (dns.class_to_string question.qclass ++ (b'/' ∷ dns.type_to_string question.qtype)))

  unfoldable pub get : Cache → ℕ → Question → Cache × Option Msg
  unfolding get_key cache_key
  get c now question = get_key c now (cache_key question)

  unfoldable pub set : Cache → ℕ → ℕ → Question → Option Msg → Cache
  unfolding set_key cache_key
  set c now evict_now question none = c
  set c now evict_now question (some m) =
      if m.rcode == rcode_name_error then c else set_key c now evict_now (cache_key question) m
