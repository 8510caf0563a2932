-- ===== src/VpnDns/Order.antt =====
-- internal/vpndns/provider.go: the order of the servers of a VPN.
use dns_over_minecraft.Prelude.{
  ℕ, ◌≤◌, ◌≡◌, refl, ap, ◌∙◌, arith, false, List, [], ◌∷◌, leb, ◌==◌, if◌then◌else◌, Bool-cases,
  inl, inr, All,
}
use dns_over_minecraft.VpnDns.{
  VpnServer, ServerSource, servers_of, insert_stable, sort_stable, build_servers,
}

-- The servers of one priority, in their order.
unfoldable pub of_priority : ℕ → List VpnServer → List VpnServer
of_priority p [] = []
of_priority p (s ∷ servers) =
    let rest = of_priority p servers in if s.priority == p then s ∷ rest else rest

abbrev pub IsAscending : List VpnServer → Type 0
IsAscending [] = Unit
IsAscending (s ∷ servers) = All (λ t. s.priority ≤ t.priority) servers × IsAscending servers

of_priority-insert_stable :
    (p : ℕ) (s : VpnServer) (servers : List VpnServer)
    → of_priority p (insert_stable s servers) ≡ of_priority p (s ∷ servers)
unfolding of_priority insert_stable
of_priority-insert_stable p s [] = refl
of_priority-insert_stable p s (t ∷ servers) = elim (Bool-cases (leb s.priority t.priority)) [
  | inl before ↦ rw (before, insert_stable) refl
  | inr behind ↦
      rw (behind, insert_stable, of_priority-insert_stable p s servers)
        (elim (Bool-cases (s.priority == p)) [
          | inl same ↦ let other : (t.priority == p) ≡ false = ground arith in rw (same, other) refl
          | inr different ↦ rw (different) refl
        ])
]

of_priority-sort_stable :
    (p : ℕ) (servers : List VpnServer) → of_priority p (sort_stable servers) ≡ of_priority p servers
unfolding sort_stable of_priority
of_priority-sort_stable p [] = refl
of_priority-sort_stable p (s ∷ servers) =
    of_priority-insert_stable p s (sort_stable servers)
    ∙ ap (λ rest. if s.priority == p then s ∷ rest else rest) (of_priority-sort_stable p servers)

insert_stable-All :
    (bound : ℕ) (s : VpnServer) (servers : List VpnServer)
    → bound ≤ s.priority
    → All (λ t. bound ≤ t.priority) servers
    → All (λ t. bound ≤ t.priority) (insert_stable s servers)
unfolding insert_stable
insert_stable-All bound s [] h k = (h, tt)
insert_stable-All bound s (t ∷ servers) h (k, ks) = elim (Bool-cases (leb s.priority t.priority)) [
  | inl before ↦ rw (before, insert_stable) (h, (k, ks))
  | inr behind ↦ rw (behind, insert_stable) (k, insert_stable-All bound s servers h ks)
]

All-weaken :
    (low high : ℕ) (servers : List VpnServer)
    → low ≤ high
    → All (λ t. high ≤ t.priority) servers
    → All (λ t. low ≤ t.priority) servers
All-weaken low high [] h k = tt
All-weaken low high (t ∷ servers) h (k, ks) = (omega arith, All-weaken low high servers h ks)

insert_stable-IsAscending :
    (s : VpnServer) (servers : List VpnServer)
    → IsAscending servers
    → IsAscending (insert_stable s servers)
unfolding insert_stable
insert_stable-IsAscending s [] h = (tt, tt)
insert_stable-IsAscending s (t ∷ servers) (low, h) = elim (Bool-cases (leb s.priority t.priority)) [
  | inl before ↦
      let le : s.priority ≤ t.priority = ground arith in
      rw (before, insert_stable) ((le, All-weaken s.priority t.priority servers le low), (low, h))
  | inr behind ↦
      rw (behind, insert_stable)
        (
          insert_stable-All t.priority s servers (ground arith) low,
          insert_stable-IsAscending s servers h,
        )
]

sort_stable-IsAscending : (servers : List VpnServer) → IsAscending (sort_stable servers)
unfolding sort_stable
sort_stable-IsAscending [] = tt
sort_stable-IsAscending (s ∷ servers) =
    insert_stable-IsAscending s (sort_stable servers) (sort_stable-IsAscending servers)

-- The servers that are built come in ascending priority, and those of one priority are the servers
-- of the sources of that priority, each once, in the order in which they were discovered.
pub build_servers-IsAscending :
    (join_host_port : List ℕ → ℕ → List ℕ) (sources : List ServerSource)
    → IsAscending (build_servers join_host_port sources)
      × ((p : ℕ)
          → of_priority p (build_servers join_host_port sources)
            ≡ of_priority p (servers_of join_host_port sources))
unfolding build_servers
build_servers-IsAscending join_host_port sources = (
  sort_stable-IsAscending (servers_of join_host_port sources),
  λ p. of_priority-sort_stable p (servers_of join_host_port sources),
)
