-- ===== src/Mc/Server/Vanilla.antt =====
-- internal/mc/server.go: the player list of the vanilla status, and what a client sees that is not
-- let in.
use dns_over_minecraft.Prelude.{
  ℕ, ◌<◌, ◌≤◌, ◌≡◌, refl, arith, List, length, leb, Bool-cases, inl, inr, length-take_le,
  length-map,
}
use dns_over_minecraft.Codec.Status.{
  Status, SampleMap, JsonLibrary, vanilla_status, build_vanilla_status_json, sample_entry,
}
use dns_over_minecraft.Mc.Server.{
  Server, Visit, dynamic_online_players, cap_sample, vanilla_status_json,
}

dynamic_online_players_bound :
    (wave : ℕ → ℕ → ℕ → ℕ → ℕ) (server : Server) (hour minute : ℕ)
    → 0 < server.max_players
    → dynamic_online_players wave server hour minute ≤ server.max_players
unfolding dynamic_online_players
dynamic_online_players_bound wave server hour minute h = ground arith

length-cap_sample :
    (sample : List SampleMap) (online : ℕ) → length (cap_sample sample online) ≤ online
unfolding cap_sample
length-cap_sample sample online = elim (Bool-cases (leb (length sample) online)) [
  | inl short ↦ rw (short, cap_sample) (ground arith)
  | inr long ↦ rw (long, cap_sample) (ground (arith, length-take_le online sample))
]

-- If the configured maximum of players is above 0, the vanilla status is the JSON of a status with
-- that maximum, which lists no more players than it reports online and reports no more online than the
-- maximum.
pub vanilla_status_json_players :
    (json : JsonLibrary) (wave : ℕ → ℕ → ℕ → ℕ → ℕ) (server : Server) (visit : Visit)
    → 0 < server.max_players
    → (status : Status) × (vanilla_status_json json wave server visit
        ≡ json.marshal_omitempty status)
      × (length status.players_sample ≤ status.players_online)
      × (status.players_online ≤ status.players_max)
      × (status.players_max ≡ server.max_players)
unfolding vanilla_status_json build_vanilla_status_json vanilla_status
vanilla_status_json_players json wave server visit h =
    let online = dynamic_online_players wave server visit.hour visit.minute in
    (
      vanilla_status server.motd server.version_name server.version_protocol server.max_players
          online (cap_sample server.sample online) server.favicon,
      refl,
      omega (
        arith,
        length-map (cap_sample server.sample online) sample_entry,
        length-cap_sample server.sample online,
      ),
      dynamic_online_players_bound wave server visit.hour visit.minute h,
      refl,
    )
