-- ===== src/Codec/Status.antt =====
-- internal/dnscodec/codec.go: BuildStatusJSON and BuildVanillaStatusJSON. The package encoding/json
-- is a parameter: its calls as a record of functions. The structs of the program that it reads and
-- writes have the same fields and names, and are one record.
use dns_over_minecraft.Prelude.{
  ℕ, ◌≤◌, ◌<◌, ◌≡◌, Bool, true, List, [], ◌∷◌, ◌++◌, map, Option, some, if◌then◌else◌, bytes_eq,
  All,
}
use dns_over_minecraft.Text.{codes}
use dns_over_minecraft.Codec.Favicon.{favicon_data_uri_prefix}

pub record SampleEntry : Type 0 where
  pub name : List ℕ
  pub id : List ℕ

pub record Status : Type 0 where
  pub version_name : List ℕ
  pub version_protocol : ℕ
  pub players_max : ℕ
  pub players_online : ℕ
  pub players_sample : List SampleEntry
  pub description_text : List ℕ
  pub favicon : List ℕ

-- `marshal` writes each field, `marshal_omitempty` no favicon if it is empty. `is_valid` is whether
-- Unmarshal into a RawMessage has no error, and `unmarshal` is that into a status.
pub record JsonLibrary : Type 0 where
  pub marshal : Status → List ℕ
  pub marshal_omitempty : Status → List ℕ
  pub is_valid : List ℕ → Bool
  pub unmarshal : List ℕ → Option Status

-- The status that BuildStatusJSON writes.
unfoldable pub dns_status : List ℕ → List ℕ → Status
dns_status motd payload_base64 = record {
  version_name = codes "dnsmc";
  version_protocol = 765;
  players_max = 0;
  players_online = 0;
  players_sample = [];
  description_text = motd;
  favicon = favicon_data_uri_prefix ++ payload_base64;
}

unfoldable pub build_status_json : JsonLibrary → List ℕ → List ℕ → List ℕ
unfolding dns_status
build_status_json json motd payload_base64 = json.marshal (dns_status motd payload_base64)

-- An entry of the sample: a map, as the list of its keys and values. A missing key has no text.
abbrev pub SampleMap : Type 0
SampleMap = List (List ℕ × List ℕ)

unfoldable pub sample_text : SampleMap → List ℕ → List ℕ
unfolding bytes_eq
sample_text [] key = []
sample_text ((k, text) ∷ entries) key = if bytes_eq k key then text else sample_text entries key

unfoldable pub sample_entry : SampleMap → SampleEntry
unfolding sample_text
sample_entry entries = record {
  name = sample_text entries (codes "name");
  id = sample_text entries (codes "id");
}

unfoldable pub vanilla_status : List ℕ → List ℕ → ℕ → ℕ → ℕ → List SampleMap → List ℕ → Status
unfolding sample_entry
vanilla_status motd version_name protocol max_players online_players sample favicon = record {
  version_name = version_name;
  version_protocol = protocol;
  players_max = max_players;
  players_online = online_players;
  players_sample = map sample_entry sample;
  description_text = motd;
  favicon = favicon;
}

unfoldable pub build_vanilla_status_json :
    JsonLibrary → List ℕ → List ℕ → ℕ → ℕ → ℕ → List SampleMap → List ℕ → List ℕ
unfolding vanilla_status
build_vanilla_status_json json motd version_name protocol max_players online_players sample
      favicon =
    json.marshal_omitempty
      (vanilla_status motd version_name protocol max_players online_players sample favicon)

-- A printing character of ASCII.
abbrev pub IsText : ℕ → Type 0
IsText c = (32 ≤ c) × (c < 127)

-- encoding/json reads back what it wrote of a status with this description, as it does if that is
-- valid UTF-8.
pub record KeepsMotd (json : JsonLibrary) (motd : List ℕ) : Type 0 where
  pub valid :
      (payload : List ℕ)
      → All IsText payload
      → json.is_valid (build_status_json json motd payload) ≡ true
  pub kept :
      (payload : List ℕ)
      → All IsText payload
      → json.unmarshal (build_status_json json motd payload) ≡ some (dns_status motd payload)
