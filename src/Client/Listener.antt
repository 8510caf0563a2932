-- ===== src/Client/Listener.antt =====
-- internal/client: handleDNS of server.go and queryVpn of vpn.go.
use dns_over_minecraft.Prelude.{
  ℕ, Bool, true, false, List, [], ◌∷◌, if◌then◌else◌, Option, none, some,
}
use dns_over_minecraft.Dns.{Msg, DnsLibrary}
use dns_over_minecraft.Cache.Optional.{Clock}
use dns_over_minecraft.VpnDns.{VpnServer}
use dns_over_minecraft.Client.{Client, Servers, resolve}

-- Exchange of dns.Client is a parameter, with whether it goes over TCP: a message, or none if it has
-- an error.
abbrev pub PlainExchange : Type 0
PlainExchange = Bool → List ℕ → Msg → Option Msg

-- A truncated answer is asked for again over TCP.
unfoldable pub whole_answer : PlainExchange → List ℕ → Msg → Msg → Msg
whole_answer exchange addr query_message response_message =
    if response_message.truncated
    then elim (exchange true addr query_message) [
      | none ↦ response_message
      | some tcp_response ↦ tcp_response
    ]
    else response_message

-- The servers in their order; Resolve has one at least.
unfoldable pub query_vpn : PlainExchange → List VpnServer → Msg → Option Msg
unfolding whole_answer
query_vpn exchange [] query_message = none
query_vpn exchange (server ∷ servers) query_message =
    elim (exchange false server.addr query_message) [
      | none ↦ query_vpn exchange servers query_message
      | some response_message ↦
          some (whole_answer exchange server.addr query_message response_message)
    ]

-- handleDNS: the client after it, and the message that it writes; Resolve returns
-- a message always.
unfoldable pub handle_dns :
    DnsLibrary → PlainExchange → Servers → List VpnServer → Client → Clock → Msg → Client × Msg
unfolding query_vpn resolve
handle_dns dns exchange net servers c clock query_message =
    let asked = record query_message { recursion_desired = true } in
    let (c', reply) = resolve dns (query_vpn exchange) net servers c clock asked in
    (c', record reply.message { id = query_message.id; question = query_message.question })
