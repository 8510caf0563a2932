-- ===== src/Tests/Starting.antt =====
-- The theorems on the configuration, the VPN servers and the start of the server at concrete inputs.
use dns_over_minecraft.Prelude.{ℕ, ◌≡◌, refl, Bool, true, List, [], ◌∷◌, ◌++◌, Option, none}
use dns_over_minecraft.Text.{codes}
use dns_over_minecraft.Dns.{Rr}
use dns_over_minecraft.Upstream.Pool.{UpstreamPool}
use dns_over_minecraft.Mc.Server.{Server, State}
use dns_over_minecraft.Mc.Server.Slots.{
  accepts, starts, steps, listening, accept_connection, IsWithinSlots, Reachable-IsWithinSlots,
}
use dns_over_minecraft.VpnDns.{ServerSource, servers_of, build_servers}
use dns_over_minecraft.VpnDns.Order.{IsAscending, of_priority, build_servers-IsAscending}
use dns_over_minecraft.Config.{Config, FileResult, not_exist, default_config, load, load_content}
use dns_over_minecraft.Commands.{
  validate_passphrase, configured_server, configured_limiter, configured_resolver, run_server,
}
use dns_over_minecraft.Commands.Startup.{IsReady, run_server-IsReady}
use dns_over_minecraft.Tests.{example_dns}
use dns_over_minecraft.Tests.Upstreams.{millis, millis-IsComparable}

abbrev with_port : List ℕ → ℕ → List ℕ
with_port addr port = addr ++ (b':' ∷ port ∷ [])

abbrev late_source : ServerSource
late_source = record { addr = codes "10.0.0.2"; port = 0; priority = 9 }

abbrev early_source : ServerSource
early_source = record { addr = codes "10.0.0.1"; port = 53; priority = 4 }

build_servers-IsAscending_example :
    IsAscending (build_servers with_port (late_source ∷ early_source ∷ []))
    × ((p : ℕ)
        → of_priority p (build_servers with_port (late_source ∷ early_source ∷ []))
          ≡ of_priority p (servers_of with_port (late_source ∷ early_source ∷ [])))
build_servers-IsAscending_example =
    build_servers-IsAscending with_port (late_source ∷ early_source ∷ [])

abbrev no_file : List ℕ → FileResult
no_file path = not_exist

abbrev unchanged : List ℕ → Config → Config × Bool
unchanged bytes c = (c, true)

abbrev no_type : List ℕ → Option ℕ
no_type text = none

abbrev no_record : List ℕ → Option Rr
no_record text = none

abbrev started_server : Server
started_server = configured_server default_config []

abbrev started_state : State (UpstreamPool ℕ)
started_state = record {
  rate_limiter = configured_limiter default_config;
  fragments = [];
  resolver = configured_resolver example_dns no_type no_record millis default_config;
}

run_server-IsReady_example : IsReady millis default_config started_server started_state
unfolding load load_content run_server validate_passphrase default_config
run_server-IsReady_example =
    run_server-IsReady example_dns no_type no_record millis millis-IsComparable no_file unchanged []
      [] default_config started_server started_state refl refl

Reachable-IsWithinSlots_example :
    IsWithinSlots 1 (accept_connection (accept_connection (listening 1)))
Reachable-IsWithinSlots_example =
    Reachable-IsWithinSlots 1 (accept_connection (accept_connection (listening 1)))
      (steps (steps starts (accepts (listening 1))) (accepts (accept_connection (listening 1))))
