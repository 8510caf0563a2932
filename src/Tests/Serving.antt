-- ===== src/Tests/Serving.antt =====
-- The theorems on the server and its client at concrete inputs.
use dns_over_minecraft.Prelude.{
  ℕ, ◌≤◌, ◌≡◌, refl, arith, true, List, [], ◌∷◌, ◌++◌, Option, none, some, All, subst, length, take,
  drop, take-length-append, drop-length-append, ok, bytes_eq, inr,
}
use dns_over_minecraft.Text.{
  codes, split_dots, to_lower, lower_byte, trim_suffix, has_suffix, has_prefix, cut_dot,
}
use dns_over_minecraft.Bytes.{IsByte, put_uvarint, put_uint16, put_uint32}
use dns_over_minecraft.Base32.{base32_encode}
use dns_over_minecraft.Base64.{base64_encode}
use dns_over_minecraft.Base64.RoundTrip.{IsVisible}
use dns_over_minecraft.Dns.{DnsLibrary}
use dns_over_minecraft.Codec.Labels.{pack_labels}
use dns_over_minecraft.Codec.Tld.{tld_to_code}
use dns_over_minecraft.Codec.Response.{
  pack_compact_response, pack_qname, encode_questions, encode_section, pack_rdata, pack_flags,
  encode_name, set_flag,
}
use dns_over_minecraft.Codec.Query.{encode_query, name_wire}
use dns_over_minecraft.Codec.Response.RoundTrip.{
  IsPackable, message_wire, rr_wire, IsAsked, IsPacked,
}
use dns_over_minecraft.Codec.Favicon.{favicon_data_uri_prefix, encode_response, decode_response}
use dns_over_minecraft.Codec.Favicon.Payload.{PacksBytes}
use dns_over_minecraft.Codec.Favicon.RoundTrip.{unpacked, decode-encode_response}
use dns_over_minecraft.Codec.Query.{strip_suffix}
use dns_over_minecraft.Codec.Status.{Status, JsonLibrary, KeepsMotd, build_status_json, dns_status}
use dns_over_minecraft.Mc.Fragment.{empty_set}
use dns_over_minecraft.Mc.Address.{extract_passphrase}
use dns_over_minecraft.Mc.Frame.{
  Handshake, encode_handshake, encode_status_request, encode_status_response_json,
}
use dns_over_minecraft.Mc.Server.{
  Server, State, Visit, effective_max_frame_size, vanilla_status_json, handle_ping,
}
use dns_over_minecraft.Mc.Server.Vanilla.{vanilla_status_json_players}
use dns_over_minecraft.Mc.Server.Connection.{check_rate, handle_conn}
use dns_over_minecraft.Mc.Server.Reads.{IsStatusHandshake, AdmitsHandshakes}
use dns_over_minecraft.Mc.Server.Unauthenticated.{handle_conn_unauthenticated}
use dns_over_minecraft.Tests.Resolving.{noon, counting_pool, fresh_resolver}
use dns_over_minecraft.Tests.{
  example_dns, google_wire, google_IsWireName, rr_a, query_a, question_a, answer_a,
}

abbrev ByteOption : Option (List ℕ) → Type 0
ByteOption none = Unit
ByteOption (some wire) = All IsByte wire

-- The DNS library of the tests packs bytes only; a record that is not of bytes has none.
abbrev pub bytes_dns : DnsLibrary
bytes_dns = record example_dns {
  pack_rr = λ rr. some (rr_wire rr_a google_wire rr_a.rdata);
  unpack = λ wire. some answer_a;
}

pub bytes_dns-PacksBytes : PacksBytes bytes_dns
unfolding put_uint16 put_uint32
bytes_dns-PacksBytes = record {
  name_bytes = λ name wire e. subst (λ (w : Option (List ℕ)). ByteOption w) e (ground arith);
  record_bytes = λ rr wire e. subst (λ (w : Option (List ℕ)). ByteOption w) e (ground arith);
}

abbrev pub encoded_a : List ℕ
encoded_a = codes "74aacbthn5xwo3dfaa"

abbrev pub payload_a : List ℕ
payload_a =
    209 ∷ 0 ∷ 4 ∷ 1 ∷ 1 ∷ 0 ∷ 0 ∷ 3 ∷ 6 ∷ 103 ∷ 111 ∷ 111 ∷ 103 ∷ 108 ∷ 101 ∷ 0 ∷ 1 ∷ 1 ∷ 0 ∷ 1 ∷ 1
    ∷ 172 ∷ 2 ∷ 4 ∷ 8 ∷ 8 ∷ 4 ∷ 4 ∷ []

abbrev pub text_a : List ℕ
text_a = base64_encode payload_a

pub encodes_a : encode_query bytes_dns query_a ≡ ok encoded_a
unfolding encode_query to_lower trim_suffix split_dots base32_encode put_uvarint name_wire
    tld_to_code pack_labels
encodes_a = refl

payload_packs : pack_compact_response bytes_dns answer_a ≡ ok payload_a
unfolding pack_compact_response pack_qname encode_questions encode_section pack_rdata put_uvarint
    pack_flags encode_name bytes_eq set_flag put_uint16 put_uint32
payload_packs = refl

pub packs_a : encode_response bytes_dns (some answer_a) ≡ ok text_a
unfolding encode_response
packs_a = rw payload_packs refl

pub google_IsAsked : IsAsked bytes_dns question_a
google_IsAsked = record {
  qname = google_wire;
  is_name = google_IsWireName;
  packs_name = refl;
  qtype_fits = omega arith;
  qclass_fits = omega arith;
}

pub google_IsPacked : IsPacked bytes_dns rr_a
google_IsPacked = record {
  owner = google_wire;
  rdata = rr_a.rdata;
  is_name = google_IsWireName;
  packs_name = refl;
  packs_record = refl;
  type_fits = omega arith;
  class_fits = omega arith;
  ttl_fits = omega arith;
  rdata_fits = omega arith;
}

pub answer_packs : IsPackable bytes_dns answer_a
answer_packs = record {
  asked = question_a;
  only = refl;
  packs_question = google_IsAsked;
  packs_answer = (google_IsPacked, tt);
  packs_ns = tt;
  packs_extra = tt;
  rcode_fits = omega arith;
  counts_fit = omega arith;
}

decode-encode_response_example :
    (text : List ℕ) × (encode_response bytes_dns (some answer_a) ≡ ok text)
    × All IsVisible text
    × (decode_response bytes_dns (favicon_data_uri_prefix ++ text)
        ≡ unpacked bytes_dns (message_wire bytes_dns answer_a answer_packs))
decode-encode_response_example =
    decode-encode_response bytes_dns answer_a answer_packs bytes_dns-PacksBytes

-- A library that writes the length of the description, and then the two texts.
abbrev pub short_json : JsonLibrary
short_json = record {
  marshal = λ s. length s.description_text ∷ (s.description_text ++ s.favicon);
  marshal_omitempty = λ s. length s.description_text ∷ (s.description_text ++ s.favicon);
  is_valid = λ text. true;
  unmarshal = λ text. elim text [
    | [] ↦ none
    | n ∷ rest ↦ some (record {
      version_name = codes "dnsmc";
      version_protocol = 765;
      players_max = 0;
      players_online = 0;
      players_sample = [];
      description_text = take n rest;
      favicon = drop n rest;
    })
  ];
}

pub short_json-KeepsMotd : (motd : List ℕ) → KeepsMotd short_json motd
unfolding build_status_json dns_status
short_json-KeepsMotd motd = record {
  valid = λ payload k. refl;
  kept = λ payload k.
      rw
        (
          take-length-append motd (favicon_data_uri_prefix ++ payload),
          drop-length-append motd (favicon_data_uri_prefix ++ payload),
        )
        refl;
}

abbrev pub server_mc : Server
server_mc = record {
  suffix = codes "mc.test";
  motd = codes "hi";
  version_name = codes "1.20";
  version_protocol = 765;
  max_players = 20;
  online_players = 7;
  sample = [];
  favicon = [];
  passphrase = codes "key";
  max_frame_size = 0;
}

abbrev pub state_mc : State ℕ
state_mc = record { rate_limiter = none; fragments = []; resolver = fresh_resolver }

abbrev pub visit_mc : Visit
visit_mc = record {
  client_ip = codes "10.0.0.1";
  allowed_at = 1;
  added_at = 2;
  clock = noon;
  hour = 12;
  minute = 30;
  awaited = empty_set;
}

abbrev pub flat : ℕ → ℕ → ℕ → ℕ → ℕ
flat peak dip hour minute = dip

vanilla_status_json_players_example :
    (status : Status) × (vanilla_status_json short_json flat server_mc visit_mc
      ≡ short_json.marshal_omitempty status)
    × (length status.players_sample ≤ status.players_online)
    × (status.players_online ≤ status.players_max)
    × (status.players_max ≡ server_mc.max_players)
vanilla_status_json_players_example =
    vanilla_status_json_players short_json flat server_mc visit_mc (omega arith)

abbrev vanilla_handshake : Handshake
vanilla_handshake = record {
  protocol_version = 769;
  server_address = codes "p.wrong.74aa.mc.test";
  server_port = 25565;
  next_state = 1;
}

vanilla_handshake-IsStatusHandshake : IsStatusHandshake vanilla_handshake
vanilla_handshake-IsStatusHandshake = record {
  protocol_fits = omega arith;
  address_fits = omega arith;
  port_fits = omega arith;
  asks_status = refl;
}

pub server_mc-AdmitsHandshakes : AdmitsHandshakes server_mc
unfolding effective_max_frame_size
server_mc-AdmitsHandshakes = (omega arith, omega arith)

handle_conn_unauthenticated_example :
    handle_conn bytes_dns short_json flat counting_pool server_mc state_mc visit_mc
      (encode_handshake vanilla_handshake ++ (encode_status_request ++ []))
    ≡ (
      record state_mc { rate_limiter = none },
      encode_status_response_json (vanilla_status_json short_json flat server_mc visit_mc)
          ++ handle_ping server_mc [],
    )
unfolding check_rate strip_suffix extract_passphrase has_suffix to_lower trim_suffix cut_dot
    has_prefix bytes_eq lower_byte
handle_conn_unauthenticated_example =
    handle_conn_unauthenticated bytes_dns short_json flat counting_pool server_mc state_mc visit_mc
      vanilla_handshake [] none true server_mc-AdmitsHandshakes vanilla_handshake-IsStatusHandshake
      refl (inr (omega arith, refl))
