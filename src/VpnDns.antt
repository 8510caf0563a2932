-- ===== src/VpnDns.antt =====
-- internal/vpndns: the DNS servers of active VPN connections. NetworkManager on the D-Bus is a
-- parameter: what GetProperty and Store give, none if either has an error. A priority, an int32 that
-- may be negative, is counted from the least one.
pub mod Order
use dns_over_minecraft.Prelude.{
  ℕ, suc, ◌+◌, ◌^◌, Bool, true, false, not, List, [], ◌∷◌, ◌++◌, leb, ◌==◌, if◌then◌else◌, Option,
  none, some, bytes_eq,
}
use dns_over_minecraft.Text.{codes}

pub record VpnServer : Type 0 where
  pub addr : List ℕ
  pub priority : ℕ

-- A port of 0 is none.
pub record ServerSource : Type 0 where
  pub addr : List ℕ
  pub port : ℕ
  pub priority : ℕ

-- A nameserver: its address and its port, as far as they are there and have the right type.
pub record NameserverEntry : Type 0 where
  pub address : Option (List ℕ)
  pub port : Option ℕ

-- The properties of the object at a path, by their names.
pub record Bus : Type 0 where
  pub paths_property : List ℕ → List ℕ → Option (List (List ℕ))
  pub text_property : List ℕ → List ℕ → Option (List ℕ)
  pub number_property : List ℕ → List ℕ → Option ℕ
  pub entries_property : List ℕ → List ℕ → Option (List NameserverEntry)

abbrev pub nm_path : List ℕ
nm_path = codes "/org/freedesktop/NetworkManager"

abbrev pub nm_iface : List ℕ
nm_iface = codes "org.freedesktop.NetworkManager"

abbrev pub active_iface : List ℕ
active_iface = codes "org.freedesktop.NetworkManager.Connection.Active"

abbrev pub ip4_iface : List ℕ
ip4_iface = codes "org.freedesktop.NetworkManager.IP4Config"

abbrev pub ip6_iface : List ℕ
ip6_iface = codes "org.freedesktop.NetworkManager.IP6Config"

abbrev pub nm_state_activated : ℕ
nm_state_activated = 2

-- The priority 0.
abbrev pub no_priority : ℕ
no_priority = 2 ^ 31

-- `net.JoinHostPort` with the port in decimal is a parameter.
unfoldable pub server_of : (List ℕ → ℕ → List ℕ) → ServerSource → VpnServer
server_of join_host_port source = record {
  addr = join_host_port source.addr (if source.port == 0 then 53 else source.port);
  priority = source.priority;
}

-- The loop of buildServers.
unfoldable pub servers_of : (List ℕ → ℕ → List ℕ) → List ServerSource → List VpnServer
unfolding server_of
servers_of join_host_port [] = []
servers_of join_host_port (source ∷ sources) =
    server_of join_host_port source ∷ servers_of join_host_port sources

-- sort.SliceStable by priority.
unfoldable pub insert_stable : VpnServer → List VpnServer → List VpnServer
insert_stable s [] = s ∷ []
insert_stable s (t ∷ servers) =
    let rest = insert_stable s servers in
    if leb s.priority t.priority then s ∷ t ∷ servers else t ∷ rest

unfoldable pub sort_stable : List VpnServer → List VpnServer
unfolding insert_stable
sort_stable [] = []
sort_stable (s ∷ servers) = insert_stable s (sort_stable servers)

unfoldable pub build_servers : (List ℕ → ℕ → List ℕ) → List ServerSource → List VpnServer
unfolding servers_of sort_stable
build_servers join_host_port sources = sort_stable (servers_of join_host_port sources)

-- The loop over the nameservers of an IP configuration; an entry without an address is skipped.
unfoldable pub nameserver_sources : ℕ → List NameserverEntry → List ServerSource
nameserver_sources priority [] = []
nameserver_sources priority (entry ∷ entries) =
    let rest = nameserver_sources priority entries in
    elim entry.address [
      | none ↦ rest
      | some address ↦
          record {
            addr = address;
            port = elim entry.port [ none ↦ 0 | some port ↦ port ];
            priority = priority;
          }
          ∷ rest
    ]

module _ (bus : Bus) where
  unfoldable pub config_nameservers : List ℕ → List ℕ → List ServerSource
  unfolding nameserver_sources
  config_nameservers config_path iface =
      let priority : ℕ = elim (bus.number_property config_path (iface ++ codes ".DnsPriority")) [
        | none ↦ no_priority
        | some p ↦ p
      ] in
      elim (bus.entries_property config_path (iface ++ codes ".NameserverData")) [
        | none ↦ []
        | some entries ↦ nameserver_sources priority entries
      ]

  -- A round of the loop over the two IP configurations.
  unfoldable pub ip_sources : List ℕ → List ℕ → List ℕ → List ServerSource
  unfolding config_nameservers bytes_eq
  ip_sources active_path property iface =
      elim (bus.text_property active_path (active_iface ++ property)) [
        | none ↦ []
        | some config_path ↦
            if bytes_eq config_path (codes "/") then [] else config_nameservers config_path iface
      ]

  unfoldable pub is_wireguard : List ℕ → Bool
  unfolding bytes_eq
  is_wireguard active_path = elim (bus.text_property active_path (active_iface ++ codes ".Type")) [
    | none ↦ false
    | some connection_type ↦ bytes_eq connection_type (codes "wireguard")
  ]

  unfoldable pub is_activated : List ℕ → Bool
  is_activated active_path =
      elim (bus.number_property active_path (active_iface ++ codes ".State")) [
        | none ↦ false
        | some state ↦ state == nm_state_activated
      ]

  unfoldable pub active_vpn_servers : List ℕ → Option (List ServerSource)
  unfolding is_wireguard is_activated ip_sources
  active_vpn_servers active_path =
      if is_wireguard active_path
      then (if is_activated active_path
          then some (
              ip_sources active_path (codes ".Ip4Config") ip4_iface
              ++ ip_sources active_path (codes ".Ip6Config") ip6_iface)
          else none)
      else none

  -- The loop of fetchNMServers.
  unfoldable pub all_sources : List (List ℕ) → List ServerSource
  unfolding active_vpn_servers
  all_sources [] = []
  all_sources (active_path ∷ active_paths) =
      let rest = all_sources active_paths in
      elim (active_vpn_servers active_path) [ none ↦ rest | some found ↦ found ++ rest ]

  unfoldable pub fetch_nm_servers : (List ℕ → ℕ → List ℕ) → Option (List VpnServer)
  unfolding all_sources build_servers
  fetch_nm_servers join_host_port =
      elim (bus.paths_property nm_path (nm_iface ++ codes ".ActiveConnections")) [
        | none ↦ none
        | some active_paths ↦ some (build_servers join_host_port (all_sources active_paths))
      ]

-- The state of a pollingProvider is its snapshot; a fetch that fails leaves it.
unfoldable pub refresh_once : List VpnServer → Option (List VpnServer) → List VpnServer × Bool
refresh_once servers none = (servers, false)
refresh_once servers (some fetched) = (fetched, true)

unfoldable pub refresh :
    List VpnServer → Option (List VpnServer) → List VpnServer × Option (List VpnServer)
unfolding refresh_once
refresh servers fetched =
    let (servers', refreshed) = refresh_once servers fetched in
    (servers', if refreshed then some servers' else none)

-- The snapshot after the fetches of Start, one for each tick.
unfoldable pub polled : List VpnServer → List (Option (List VpnServer)) → List VpnServer
unfolding refresh_once
polled servers [] = servers
polled servers (fetched ∷ ticks) = polled (refresh_once servers fetched).0 ticks
