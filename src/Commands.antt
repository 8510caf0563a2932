-- ===== src/Commands.antt =====
-- cmd/dnsmc/main.go: what runServer and runClientService build of a loaded configuration, and the
-- texts of the commands encode and decode. An exit with an error is none. Flags, printing and signals
-- are left out.
pub mod Startup
use dns_over_minecraft.Prelude.{
  ℕ, zero, suc, ℤ, pos, negsuc, positive_part, ◌*◌, ◌^◌, Bool, true, false, ◌&&◌, ◌||◌, not, List,
  [], ◌∷◌, ◌++◌, map, leb, ltb, ◌==◌, if◌then◌else◌, Option, none, some, length, take, drop,
  bytes_eq,
}
use dns_over_minecraft.Text.{codes, to_lower, trim_space, trim_suffix, remove_dots, join}
use dns_over_minecraft.Dns.{Rr, DnsLibrary}
use dns_over_minecraft.Cache.{Cache, new}
use dns_over_minecraft.Records.{Record, Store, new_store}
use dns_over_minecraft.Client.{Client, new_client}
use dns_over_minecraft.Codec.Status.{SampleMap}
use dns_over_minecraft.Upstream.Pool.{Upstream, Float, UpstreamPool, new_pool}
use dns_over_minecraft.Upstream.Exchange.{Endpoint, or_two_seconds}
use dns_over_minecraft.Resolver.{Resolver, new_resolver}
use dns_over_minecraft.Mc.RateLimit.{IpRateLimiter, new_ip_rate_limiter}
use dns_over_minecraft.Mc.Server.{Server, State}
use dns_over_minecraft.Config.{
  Config, CacheConfig, UpstreamConfig, CustomRecord, SamplePlayer, or_list,
}

-- validatePassphrase, which lets the program go on.
unfoldable pub is_passphrase_char : ℕ → Bool
is_passphrase_char c = (leb b'a' c && leb c b'z') || (leb b'0' c && leb c b'9')

unfoldable pub all_passphrase_chars : List ℕ → Bool
unfolding is_passphrase_char
all_passphrase_chars [] = true
all_passphrase_chars (c ∷ passphrase) = is_passphrase_char c && all_passphrase_chars passphrase

unfoldable pub validate_passphrase : List ℕ → Bool
unfolding all_passphrase_chars
validate_passphrase passphrase =
    length passphrase == 0 || (leb (length passphrase) 64 && all_passphrase_chars passphrase)

-- effectiveSuffix, with the result of Load and whether it has no error.
unfoldable pub effective_suffix : List ℕ → Config × Bool → List ℕ
effective_suffix (b ∷ suffix_override) loaded = b ∷ suffix_override
effective_suffix [] (loaded_config, true) = or_list loaded_config.suffix (codes ".mc")
effective_suffix [] (loaded_config, false) = codes ".mc"

-- The loop of chunkBase32; its fuel is more than the length of the text.
unfoldable pub chunk_loop : ℕ → List ℕ → List (List ℕ)
chunk_loop zero text = text ∷ []
chunk_loop (suc fuel) text =
    let more = take 63 text ∷ chunk_loop fuel (drop 63 text) in
    if ltb 63 (length text) then more else text ∷ []

unfoldable pub chunk_base32 : List ℕ → List ℕ
unfolding chunk_loop
chunk_base32 encoded_query =
    if leb (length encoded_query) 63
    then encoded_query
    else join (b'.' ∷ []) (chunk_loop (length encoded_query) encoded_query)

unfoldable pub all_base32 : List ℕ → Bool
all_base32 [] = true
all_base32 (c ∷ text) =
    ((leb b'a' c && leb c b'z') || (leb b'2' c && leb c b'7')) && all_base32 text

unfoldable pub is_base32_like : List ℕ → Bool
unfolding all_base32
is_base32_like input =
    let normalized_input = remove_dots (trim_suffix (to_lower (trim_space input)) (codes ".mc")) in
    not (length normalized_input == 0) && all_base32 normalized_input

-- New of the cache takes a number that is not positive as 0.
unfoldable pub configured_cache : CacheConfig → Option Cache
unfolding new
configured_cache c =
    let size = positive_part c.size in
    if c.disabled
    then none
    else some (new size (positive_part c.ttl) (positive_part c.negative_ttl))

-- buildClient with attachVPN, if the system bus is there; otherwise nothing reads the last argument.
unfoldable pub build_client : Config → List (List ℕ) → List ℕ → Client
unfolding configured_cache new_client
build_client loaded_config servers suffix =
    new_client servers suffix (configured_cache loaded_config.client.cache)
      loaded_config.client.vpn_dns.allow_fallback_to_tunnel

-- The client of runClientService, with the overrides of its flags.
unfoldable pub run_client_service : Config → List ℕ → List ℕ → Option Client
unfolding validate_passphrase build_client
run_client_service loaded_config suffix_override server_override =
    if validate_passphrase loaded_config.client.passphrase
    then some (
        build_client loaded_config
          (elim server_override [ [] ↦ loaded_config.client.servers | b ∷ bs ↦ (b ∷ bs) ∷ [] ])
          (or_list suffix_override loaded_config.suffix))
    else none

pub data Transport : Type 0 where
  tcp dot doh : Transport

unfoldable pub endpoint_at : UpstreamConfig → List ℕ → Endpoint
unfolding or_two_seconds
endpoint_at u address = record {
  name = u.name;
  address = address;
  priority = u.priority;
  timeout = or_two_seconds u.timeout;
}

-- The switch over the type of an upstream: its transport and its endpoint, none if it is skipped.
unfoldable pub configured_upstream : UpstreamConfig → Option (Transport × Endpoint)
unfolding bytes_eq to_lower endpoint_at
configured_upstream u =
    let upstream_type = to_lower u.upstream_type in
    if bytes_eq upstream_type (codes "tcp")
    then some (tcp, endpoint_at u (or_list u.addr (codes "8.8.8.8:53")))
    else if bytes_eq upstream_type (codes "dot")
    then some (dot, endpoint_at u (or_list u.addr (codes "1.1.1.1:853")))
    else if bytes_eq upstream_type (codes "doh")
    then some (doh, endpoint_at u (or_list u.url (codes "https://cloudflare-dns.com/dns-query")))
    else none

-- The loop over the upstreams; the pool knows an upstream by its name and its priority.
unfoldable pub upstream_list : List UpstreamConfig → List Upstream
unfolding configured_upstream
upstream_list [] = []
upstream_list (u ∷ us) =
    let rest = upstream_list us in
    elim (configured_upstream u) [
      | none ↦ rest
      | some (transport, e) ↦ record { name = e.name; priority = e.priority } ∷ rest
    ]

unfoldable pub record_of : CustomRecord → Record
record_of r = record { name = r.name; rtype = r.rtype; ttl = r.ttl; values = r.values }

unfoldable pub sample_map : SamplePlayer → SampleMap
sample_map p = (codes "name", p.name) ∷ (codes "id", p.id) ∷ []

unfoldable pub sample_entries : Option (List SamplePlayer) → List SampleMap
unfolding sample_map
sample_entries none = []
sample_entries (some players) = map sample_map players

-- The server that runServer makes, without what it logs. It reads a frame limit that is negative as
-- it reads 0.
unfoldable pub configured_server : Config → List ℕ → Server
unfolding sample_entries
configured_server c suffix_override = record {
  suffix = or_list suffix_override c.suffix;
  motd = c.server.motd;
  version_name = c.server.version_name;
  version_protocol = c.server.version_protocol;
  max_players = c.server.max_players;
  online_players = c.server.online_players;
  sample = sample_entries c.server.sample;
  favicon = c.server.favicon;
  passphrase = c.security.passphrase;
  max_frame_size = positive_part c.security.max_frame_size;
}

-- ListenAndServe makes a rate limiter if the limit is above 0.
unfoldable pub limiter_of : ℤ → Option IpRateLimiter
unfolding new_ip_rate_limiter
limiter_of (pos zero) = none
limiter_of (pos (suc n)) = some (new_ip_rate_limiter (suc n))
limiter_of (negsuc n) = none

unfoldable pub configured_limiter : Config → Option IpRateLimiter
unfolding limiter_of
configured_limiter c = limiter_of c.security.rate_limit

module _ {F : Type 0} (dns : DnsLibrary) (string_to_type : List ℕ → Option ℕ)
    (new_rr : List ℕ → Option Rr) (float : Float F) where
  unfoldable pub configured_resolver : Config → Resolver (UpstreamPool F)
  unfolding configured_cache new_store record_of new_pool upstream_list new_resolver
  configured_resolver c =
      new_resolver (configured_cache c.cache)
        (some (
          new_store dns string_to_type new_rr (map record_of c.custom_records)
            (record { exact = []; wildcards = [] })))
        (some (new_pool float (upstream_list c.upstreams)))

  -- runServer up to the accept loop.
  unfoldable pub run_server : Config → List ℕ → Option (Server × State (UpstreamPool F))
  unfolding validate_passphrase configured_server configured_limiter configured_resolver
  run_server loaded_config suffix_override =
      if validate_passphrase loaded_config.security.passphrase
      then some (
        configured_server loaded_config suffix_override,
        record {
          rate_limiter = configured_limiter loaded_config;
          fragments = [];
          resolver = configured_resolver loaded_config;
        },
      )
      else none
