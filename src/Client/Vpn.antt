-- ===== src/Client/Vpn.antt =====
-- internal/client/client.go: what a client that must not fall back asks of the Minecraft servers.
use dns_over_minecraft.Prelude.{◌≡◌, refl, false, List, [], ◌∷◌, Option, Option-cases, inl, inr}
use dns_over_minecraft.Dns.{Question, Msg, DnsLibrary}
use dns_over_minecraft.Cache.Optional.{Clock, cached}
use dns_over_minecraft.Client.{Client, Servers, resolve, resolve_question, resolve_vpn}

resolve_question_without_fallback :
    {S : Type 0} (dns : DnsLibrary) (vpn_query : List S → Msg → Option Msg) (net other : Servers)
    (s : S) (vpn_servers : List S) (c : Client) (clock : Clock) (query : Msg)
    (questions : List Question)
    → c.allow_vpn_fallback ≡ false
    → resolve_question dns vpn_query net (s ∷ vpn_servers) c clock query questions
      ≡ resolve_question dns vpn_query other (s ∷ vpn_servers) c clock query questions
unfolding resolve_question resolve_vpn
resolve_question_without_fallback dns vpn_query net other s vpn_servers c clock query [] closed =
    refl
resolve_question_without_fallback dns vpn_query net other s vpn_servers c clock query
      (question ∷ more) closed =
    elim (Option-cases (cached dns c.cache_store clock.read question).1) [
      | inr (m, e) ↦ rw (e, resolve_question) refl
      | inl e ↦
          rw (e, resolve_question)
            (elim (Option-cases (vpn_query (s ∷ vpn_servers) query)) [
              | inr (m, f) ↦ rw (f, resolve_vpn) refl
              | inl f ↦ rw (f, resolve_vpn, closed) refl
            ])
    ]

-- While a VPN advertises servers and the client may not fall back, nothing of what Resolve returns
-- or keeps depends on the Minecraft servers.
pub resolve_without_fallback :
    {S : Type 0} (dns : DnsLibrary) (vpn_query : List S → Msg → Option Msg) (net other : Servers)
    (s : S) (vpn_servers : List S) (c : Client) (clock : Clock) (query : Msg)
    → c.allow_vpn_fallback ≡ false
    → resolve dns vpn_query net (s ∷ vpn_servers) c clock query
      ≡ resolve dns vpn_query other (s ∷ vpn_servers) c clock query
unfolding resolve
resolve_without_fallback dns vpn_query net other s vpn_servers c clock query closed =
    resolve_question_without_fallback dns vpn_query net other s vpn_servers c clock query
      query.question closed
