-- ===== src/Config.antt =====
-- internal/config/config.go: the configuration, its defaults and Load. os.ReadFile and yaml.Unmarshal
-- are parameters. Durations are nanoseconds, strings their UTF-8 bytes, and a nil slice is none where
-- the source asks for nil. The limits, the sizes and times of a cache and the interval of the VPN are
-- integers, as Load tells 0 from a negative number; the other numbers are natural.
pub mod Complete
use dns_over_minecraft.Prelude.{
  ℕ, zero, suc, ℤ, pos, negsuc, ◌*◌, ◌^◌, Bool, true, false, List, [], ◌∷◌, ◌++◌, ◌==◌,
  if◌then◌else◌, Option, none, some, length,
}
use dns_over_minecraft.Text.{codes}

pub record SecurityConfig : Type 0 where
  pub passphrase : List ℕ
  pub rate_limit : ℤ
  pub max_connections : ℤ
  pub max_frame_size : ℤ

pub record SamplePlayer : Type 0 where
  pub name : List ℕ
  pub id : List ℕ

pub record ServerConfig : Type 0 where
  pub motd : List ℕ
  pub version_name : List ℕ
  pub version_protocol : ℕ
  pub max_players : ℕ
  pub online_players : ℕ
  pub sample : Option (List SamplePlayer)
  pub favicon : List ℕ

pub record CacheConfig : Type 0 where
  pub disabled : Bool
  pub size : ℤ
  pub ttl : ℤ
  pub negative_ttl : ℤ

pub record VpnDnsConfig : Type 0 where
  pub allow_fallback_to_tunnel : Bool
  pub refresh_interval : ℤ

pub record ClientConfig : Type 0 where
  pub listen : List ℕ
  pub suffix : List ℕ
  pub servers : List (List ℕ)
  pub cache : CacheConfig
  pub passphrase : List ℕ
  pub vpn_dns : VpnDnsConfig

pub record LoggingConfig : Type 0 where
  pub queries : Bool
  pub performance : Bool
  pub analytics : Bool
  pub interval : ℕ

pub record UpstreamConfig : Type 0 where
  pub name : List ℕ
  pub upstream_type : List ℕ
  pub addr : List ℕ
  pub url : List ℕ
  pub sni : List ℕ
  pub priority : ℕ
  pub timeout : ℕ

pub record CustomRecord : Type 0 where
  pub name : List ℕ
  pub rtype : List ℕ
  pub ttl : ℕ
  pub values : List (List ℕ)

pub record Config : Type 0 where
  pub listen : List ℕ
  pub suffix : List ℕ
  pub server : ServerConfig
  pub client : ClientConfig
  pub cache : CacheConfig
  pub security : SecurityConfig
  pub logging : LoggingConfig
  pub upstreams : List UpstreamConfig
  pub custom_records : List CustomRecord

abbrev pub seconds : ℕ → ℕ
seconds n = n * 10 ^ 9

-- A text with the section sign, two bytes in UTF-8, in front.
abbrev pub formatted : List ℕ → List ℕ
formatted text = 194 ∷ 167 ∷ text

abbrev pub ready_player : SamplePlayer
ready_player = record {
  name = formatted (codes "eDNS ") ++ (formatted (codes "7is ") ++ formatted (codes "aready"));
  id = codes "00000000-0000-0000-0000-000000000001";
}

abbrev pub query_player : SamplePlayer
query_player = record {
  name =
      formatted (codes "7Query via ")
      ++ (formatted (codes "fbase32+") ++ formatted (codes "7.suffix "))
      ++ formatted (codes "7in Server Address");
  id = codes "00000000-0000-0000-0000-000000000002";
}

-- The description that Load sets, and that of Default, which goes on behind it.
abbrev pub loaded_motd : List ℕ
loaded_motd =
    formatted (codes "aDNS over Minecraft ")
    ++ (formatted (codes "7| ") ++ formatted (codes "fRecursive resolver"))

abbrev pub standard_motd : List ℕ
standard_motd =
    loaded_motd
    ++ (codes " " ++ (formatted (codes "7| ") ++ formatted (codes "eAdd server with suffix .mc")))

abbrev pub standard_cache : CacheConfig
standard_cache = record {
  disabled = false;
  size = pos 2048;
  ttl = pos (seconds 300);
  negative_ttl = pos (seconds 30);
}

abbrev pub upstream_default : List ℕ → List ℕ → List ℕ → List ℕ → ℕ → UpstreamConfig
upstream_default name upstream_type addr url priority = record {
  name = name;
  upstream_type = upstream_type;
  addr = addr;
  url = url;
  sni = [];
  priority = priority;
  timeout = seconds 2;
}

abbrev pub default_upstreams : List UpstreamConfig
default_upstreams =
    upstream_default (codes "1.1.1.1-tcp") (codes "tcp") (codes "1.1.1.1:53") [] 5
    ∷ upstream_default (codes "cloudflare-doh") (codes "doh") []
        (codes "https://cloudflare-dns.com/dns-query") 10
    ∷ upstream_default (codes "google-doh") (codes "doh") [] (codes "https://dns.google/dns-query")
        15
    ∷ []

-- Default
unfoldable pub default_config : Config
default_config = record {
  listen = codes ":25565";
  suffix = codes ".mc";
  server = record {
    motd = standard_motd;
    version_name = codes "1.21.4";
    version_protocol = 769;
    max_players = 20;
    online_players = 1;
    sample = some (ready_player ∷ query_player ∷ []);
    favicon = [];
  };
  client = record {
    listen = codes "127.0.0.1:53";
    suffix = [];
    servers = codes "127.0.0.1:25565" ∷ [];
    cache = standard_cache;
    passphrase = [];
    vpn_dns = record { allow_fallback_to_tunnel = true; refresh_interval = pos 5 };
  };
  cache = standard_cache;
  security = record {
    passphrase = [];
    rate_limit = pos 100;
    max_connections = pos 1024;
    max_frame_size = pos 4096;
  };
  logging = record {
    queries = false;
    performance = false;
    analytics = false;
    interval = seconds 30;
  };
  upstreams = default_upstreams;
  custom_records = [];
}

-- A number, an integer, a text and a list, or their default where they are 0 or empty.
abbrev pub or_number : ℕ → ℕ → ℕ
or_number n fallback = if n == 0 then fallback else n

unfoldable pub or_int : ℤ → ℤ → ℤ
or_int (pos zero) fallback = fallback
or_int (pos (suc n)) fallback = pos (suc n)
or_int (negsuc n) fallback = negsuc n

abbrev pub or_list : {A : Type 0} → List A → List A → List A
or_list [] fallback = fallback
or_list (x ∷ xs) fallback = x ∷ xs

unfoldable pub complete_server : ServerConfig → ServerConfig
complete_server s = record s {
  motd = or_list s.motd loaded_motd;
  version_name = or_list s.version_name (codes "1.21.4");
  version_protocol = or_number s.version_protocol 769;
  max_players = or_number s.max_players 20;
  sample = elim s.sample [ none ↦ some (ready_player ∷ []) | some players ↦ some players ];
}

unfoldable pub complete_cache : CacheConfig → CacheConfig
unfolding or_int
complete_cache c = record c {
  ttl = or_int c.ttl (pos (seconds 300));
  negative_ttl = or_int c.negative_ttl (pos (seconds 30));
  size = or_int c.size (pos 2048);
}

unfoldable pub complete_client : ClientConfig → ClientConfig
unfolding complete_cache or_int
complete_client c = record c {
  listen = or_list c.listen (codes "127.0.0.1:53");
  servers = or_list c.servers (codes "127.0.0.1:25565" ∷ []);
  cache = complete_cache c.cache;
  vpn_dns = record c.vpn_dns { refresh_interval = or_int c.vpn_dns.refresh_interval (pos 5) };
}

unfoldable pub complete_security : SecurityConfig → SecurityConfig
unfolding or_int
complete_security s = record s {
  rate_limit = or_int s.rate_limit (pos 100);
  max_connections = or_int s.max_connections (pos 1024);
  max_frame_size = or_int s.max_frame_size (pos 4096);
}

-- What Load does behind Unmarshal.
unfoldable pub complete : Config → Config
unfolding complete_server complete_cache complete_client complete_security
complete c = record c {
  listen = or_list c.listen (codes ":25565");
  server = complete_server c.server;
  cache = complete_cache c.cache;
  client = complete_client c.client;
  logging = record c.logging { interval = or_number c.logging.interval (seconds 30) };
  security = complete_security c.security;
}

pub data FileResult : Type 0 where
  not_exist read_failed : FileResult
  content : List ℕ → FileResult

-- Behind Unmarshal, which returns the configuration that it has changed, and whether it has no
-- error.
unfoldable pub finished : Config × Bool → Config × Bool
unfolding complete
finished (configuration, true) = (complete configuration, true)
finished (configuration, false) = (configuration, false)

unfoldable pub load_content : (List ℕ → Config → Config × Bool) → FileResult → Config × Bool
unfolding default_config finished
load_content unmarshal not_exist = (default_config, true)
load_content unmarshal read_failed = (default_config, false)
load_content unmarshal (content file_bytes) = finished (unmarshal file_bytes default_config)

-- Load: the configuration, and whether there is no error.
unfoldable pub load :
    (List ℕ → FileResult) → (List ℕ → Config → Config × Bool) → List ℕ → Config × Bool
unfolding load_content
load read_file unmarshal config_path =
    load_content unmarshal (read_file (or_list config_path (codes "config.yaml")))
