-- ===== src/Client.antt =====
-- internal/client/client.go: the client that resolves through its cache, the DNS servers of a VPN
-- and the Minecraft servers in turn. The query functions are its fields of function type: that of the
-- Minecraft servers takes the number of the attempt as well, so an answer may change from call to
-- call, and other calls of Resolve may take servers between two attempts. The counter `nextServer`
-- is taken without the bound of int.
pub mod RoundRobin
pub mod Vpn
pub mod Listener
use dns_over_minecraft.Prelude.{
  ℕ, zero, suc, ◌+◌, ◌%◌, Bool, true, false, List, [], ◌∷◌, ltb, ◌==◌, if◌then◌else◌, Option, none,
  some, length,
}
use dns_over_minecraft.Text.{codes}
use dns_over_minecraft.Dns.{Question, Msg, DnsLibrary}
use dns_over_minecraft.Codec.Opt.{strip_unasked, build_error_response, format_error, server_failure}
use dns_over_minecraft.Cache.{Cache}
use dns_over_minecraft.Cache.Optional.{Clock, cached, store}

-- What the loop of Resolve over the servers meets, by the number of the attempt: what the query
-- function returns, none if it has an error, and how many servers the calls of Resolve that run at the
-- same time have taken since the attempt before, as the mutex is held for one pickServer only.
pub record Servers : Type 0 where
  pub query_func : ℕ → List ℕ → List ℕ → Msg → Option Msg
  pub other_picks : ℕ → ℕ

-- What Resolve returns: the message, and whether its error is not nil.
pub record Reply : Type 0 where
  pub message : Msg
  pub failed : Bool

pub record Client : Type 0 where
  pub cache_store : Option Cache
  pub servers : List (List ℕ)
  pub suffix : List ℕ
  pub allow_vpn_fallback : Bool
  pub next_server : ℕ

-- The servers of a client that is given none.
abbrev pub default_servers : List (List ℕ)
default_servers = codes "127.0.0.1:25565" ∷ []

-- New and SetVPN.
unfoldable pub new_client : List (List ℕ) → List ℕ → Option Cache → Bool → Client
new_client servers suffix cache_store allow_fallback = record {
  cache_store = cache_store;
  servers = if length servers == 0 then default_servers else servers;
  suffix = suffix;
  allow_vpn_fallback = allow_fallback;
  next_server = 0;
}

-- `servers[i]`, which the source reads in range only.
unfoldable pub server_at : List (List ℕ) → ℕ → List ℕ
server_at [] i = []
server_at (s ∷ servers) zero = s
server_at (s ∷ servers) (suc i) = server_at servers i

unfoldable pub pick_server : Client → Client × List ℕ
pick_server c = if length c.servers == 1 then (c, server_at c.servers 0) else (
  record c { next_server = c.next_server + 1 },
  server_at c.servers (c.next_server % length c.servers),
)

-- Other calls of Resolve have taken some servers: with one server none of them counts.
unfoldable pub picked_by_others : Client → ℕ → Client
picked_by_others c picks =
    if length c.servers == 1 then c else record c { next_server = c.next_server + picks }

-- The rounds of the loop over the servers that are left, from an attempt on.
unfoldable pub try_servers : Servers → ℕ → ℕ → Client → Msg → Client × Option Msg
try_servers net zero attempt c query = (c, none)
try_servers net (suc rounds) attempt c query =
    let (c', server_address) = pick_server (picked_by_others c (net.other_picks attempt)) in
    let rest = try_servers net rounds (attempt + 1) c' query in
    elim (net.query_func attempt server_address c.suffix query) [
      | some m ↦ (c', some m)
      | none ↦ rest
    ]

-- An answer, of a VPN server or of a Minecraft server: it is stripped, cached and returned.
unfoldable pub accept : DnsLibrary → Client → Clock → Question → Msg → Msg → Client × Reply
unfolding strip_unasked store
accept dns c clock question query answer =
    let m = strip_unasked (dns.is_edns0 query) answer in
    (
      record c { cache_store = store dns c.cache_store clock.written clock.evicted question m },
      record { message = m; failed = false },
    )

-- The loop over the servers and the failure behind it.
unfoldable pub resolve_servers :
    DnsLibrary → Servers → Client → Clock → Question → Msg → Client × Reply
unfolding accept build_error_response
resolve_servers dns net c clock question query =
    let (c', answer) = try_servers net (length c.servers) 0 c query in
    elim answer [
      | some m ↦ accept dns c' clock question query m
      | none ↦ (
        c',
        record {
          message = build_error_response dns (some query) server_failure;
          failed = ltb 0 (length c.servers);
        },
      )
    ]

-- With the servers of the VPN, empty if there is no provider.
unfoldable pub resolve_vpn :
    {S : Type 0}
    → DnsLibrary
    → (List S → Msg → Option Msg)
    → Servers
    → List S
    → Client
    → Clock
    → Question
    → Msg
    → Client × Reply
unfolding accept build_error_response
resolve_vpn dns vpn_query net [] c clock question query =
    resolve_servers dns net c clock question query
resolve_vpn dns vpn_query net (s ∷ vpn_servers) c clock question query =
    elim (vpn_query (s ∷ vpn_servers) query) [
      | some m ↦ accept dns c clock question query m
      | none ↦ if c.allow_vpn_fallback then resolve_servers dns net c clock question query else (
        c,
        record { message = build_error_response dns (some query) server_failure; failed = false },
      )
    ]

unfoldable pub resolve_question :
    {S : Type 0}
    → DnsLibrary
    → (List S → Msg → Option Msg)
    → Servers
    → List S
    → Client
    → Clock
    → Msg
    → List Question
    → Client × Reply
unfolding cached build_error_response
resolve_question dns vpn_query net vpn_servers c clock query [] =
    (c, record { message = build_error_response dns (some query) format_error; failed = false })
resolve_question dns vpn_query net vpn_servers c clock query (question ∷ more) =
    let (cache, answer) = cached dns c.cache_store clock.read question in
    let c' : Client = record c { cache_store = cache } in
    elim answer [
      | some m ↦ (
        c',
        record { message = record m { id = query.id; question = query.question }; failed = false },
      )
      | none ↦ resolve_vpn dns vpn_query net vpn_servers c' clock question query
    ]

unfoldable pub resolve :
    {S : Type 0}
    → DnsLibrary
    → (List S → Msg → Option Msg)
    → Servers
    → List S
    → Client
    → Clock
    → Msg
    → Client × Reply
unfolding resolve_question
resolve dns vpn_query net vpn_servers c clock query =
    resolve_question dns vpn_query net vpn_servers c clock query query.question
