-- ===== src/Cache/Optional.antt =====
-- The calls of the cache in internal/resolver and internal/client, which may have none.
use dns_over_minecraft.Prelude.{ℕ, Option, none, some}
use dns_over_minecraft.Dns.{Question, Msg, DnsLibrary}
use dns_over_minecraft.Cache.{Cache, get, set}

-- The times of a call: of Get, of Set and of its evictions.
pub record Clock : Type 0 where
  pub read : ℕ
  pub written : ℕ
  pub evicted : ℕ

unfoldable pub cached : DnsLibrary → Option Cache → ℕ → Question → Option Cache × Option Msg
unfolding get
cached dns none now question = (none, none)
cached dns (some s) now question = let (s', answer) = get dns s now question in (some s', answer)

unfoldable pub store : DnsLibrary → Option Cache → ℕ → ℕ → Question → Msg → Option Cache
unfolding set
store dns none now evict_now question m = none
store dns (some s) now evict_now question m = some (set dns s now evict_now question (some m))
