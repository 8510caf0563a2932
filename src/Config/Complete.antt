-- ===== src/Config/Complete.antt =====
-- internal/config/config.go: what a loaded configuration is sure to have.
use dns_over_minecraft.Prelude.{
  ℕ, zero, suc, ℤ, pos, negsuc, positive_part, ◌<◌, ◌≡◌, ◌≢◌, ap, subst, arith, Bool, true, false,
  List, [], ◌∷◌, length,
}
use dns_over_minecraft.Config.{
  CacheConfig, Config, FileResult, not_exist, read_failed, content, default_config, complete_server,
  complete_cache, complete_client, complete_security, complete, finished, load_content, load,
  or_list, or_int, standard_cache,
}

-- A cache whose size and times are not 0, which stands for their defaults.
pub record IsSetCache (c : CacheConfig) : Type 0 where
  pub has_size : c.size ≢ pos 0
  pub has_ttl : c.ttl ≢ pos 0
  pub has_negative_ttl : c.negative_ttl ≢ pos 0

-- A configuration in which no limit or time is 0, and no address or server is missing.
pub record IsComplete (c : Config) : Type 0 where
  pub listens : 0 < length c.listen
  pub described : 0 < length c.server.motd
  pub server_cache : IsSetCache c.cache
  pub client_listens : 0 < length c.client.listen
  pub client_cache : IsSetCache c.client.cache
  pub has_servers : 0 < length c.client.servers
  pub refreshes : c.client.vpn_dns.refresh_interval ≢ pos 0
  pub sets_rate : c.security.rate_limit ≢ pos 0
  pub sets_connections : c.security.max_connections ≢ pos 0
  pub sets_frames : c.security.max_frame_size ≢ pos 0

positive_set : (n : ℕ) → pos (suc n) ≢ pos 0
positive_set n e = let same : suc n ≡ 0 = ap positive_part e in absurd (omega arith)

or_int_set : (n fallback : ℤ) → fallback ≢ pos 0 → or_int n fallback ≢ pos 0
unfolding or_int
or_int_set (pos zero) fallback h = h
or_int_set (pos (suc n)) fallback h = positive_set n
or_int_set (negsuc n) fallback h = λ e. cc e

or_list_filled :
    {A : Type 0} (xs fallback : List A) → 0 < length fallback → 0 < length (or_list xs fallback)
or_list_filled [] fallback h = h
or_list_filled (x ∷ xs) fallback h = omega arith

complete_cache-IsSetCache : (c : CacheConfig) → IsSetCache (complete_cache c)
unfolding complete_cache
complete_cache-IsSetCache c = record {
  has_size = or_int_set c.size _ (positive_set _);
  has_ttl = or_int_set c.ttl _ (positive_set _);
  has_negative_ttl = or_int_set c.negative_ttl _ (positive_set _);
}

complete-IsComplete : (c : Config) → IsComplete (complete c)
unfolding complete complete_server complete_client complete_security
complete-IsComplete c = record {
  listens = or_list_filled c.listen _ (omega arith);
  described = or_list_filled c.server.motd _ (omega arith);
  server_cache = complete_cache-IsSetCache c.cache;
  client_listens = or_list_filled c.client.listen _ (omega arith);
  client_cache = complete_cache-IsSetCache c.client.cache;
  has_servers = or_list_filled c.client.servers _ (omega arith);
  refreshes = or_int_set c.client.vpn_dns.refresh_interval _ (positive_set _);
  sets_rate = or_int_set c.security.rate_limit _ (positive_set _);
  sets_connections = or_int_set c.security.max_connections _ (positive_set _);
  sets_frames = or_int_set c.security.max_frame_size _ (positive_set _);
}

standard_cache-IsSetCache : IsSetCache standard_cache
standard_cache-IsSetCache = record {
  has_size = positive_set _;
  has_ttl = positive_set _;
  has_negative_ttl = positive_set _;
}

default_config-IsComplete : IsComplete default_config
unfolding default_config
default_config-IsComplete = record {
  listens = omega arith;
  described = omega arith;
  server_cache = standard_cache-IsSetCache;
  client_listens = omega arith;
  client_cache = standard_cache-IsSetCache;
  has_servers = omega arith;
  refreshes = positive_set _;
  sets_rate = positive_set _;
  sets_connections = positive_set _;
  sets_frames = positive_set _;
}

finished-IsComplete : (r : Config × Bool) (c : Config) → finished r ≡ (c, true) → IsComplete c
unfolding finished
finished-IsComplete (configuration, true) c h =
    subst IsComplete (ap (λ (r : Config × Bool). r.0) h) (complete-IsComplete configuration)
finished-IsComplete (configuration, false) c h = absurd (cc (ap (λ (r : Config × Bool). r.1) h))

load_content-IsComplete :
    (unmarshal : List ℕ → Config → Config × Bool) (r : FileResult) (c : Config)
    → load_content unmarshal r ≡ (c, true)
    → IsComplete c
unfolding load_content
load_content-IsComplete unmarshal not_exist c h =
    subst IsComplete (ap (λ (r : Config × Bool). r.0) h) default_config-IsComplete
load_content-IsComplete unmarshal read_failed c h = absurd (cc (ap (λ (r : Config × Bool). r.1) h))
load_content-IsComplete unmarshal (content file_bytes) c h =
    finished-IsComplete (unmarshal file_bytes default_config) c h

-- Whatever the file holds, and whether or not it is there, a configuration that Load returns with no
-- error is complete: it has addresses to listen on and servers to ask, and no limit or time of it is
-- 0, though it may be negative.
pub load-IsComplete :
    (read_file : List ℕ → FileResult) (unmarshal : List ℕ → Config → Config × Bool)
    (config_path : List ℕ) (c : Config)
    → load read_file unmarshal config_path ≡ (c, true)
    → IsComplete c
unfolding load
load-IsComplete read_file unmarshal config_path c h = load_content-IsComplete unmarshal _ c h
