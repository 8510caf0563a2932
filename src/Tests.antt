-- ===== src/Tests.antt =====
-- The theorems at concrete inputs, and test runs of the definitions.
mod Transport
mod Cached
mod Resolving
mod Upstreams
mod Serving
mod EndToEnd
mod Starting
use dns_over_minecraft.Prelude.{
  ℕ, ◌+◌, ◌*◌, ◌^◌, ◌<◌, ◌≤◌, ◌≡◌, ◌≢◌, ◌%◌, refl, arith, Bool, true, false, List, [], ◌∷◌, ◌++◌,
  Option, none, some, length, if◌then◌else◌, bytes_eq, Result, ok, err,
}
use dns_over_minecraft.Bytes.{IsByte, put_uvarint}
use dns_over_minecraft.Text.{
  codes, has_suffix, trim_suffix, split_dots, to_lower, lower_byte, join, NoDot,
}
use dns_over_minecraft.Dns.{Question, Rr, Msg, DnsLibrary}
use dns_over_minecraft.Codec.Labels.{
  pack_label_list, pack_labels, unpack_labels, unpack-pack_labels, unpack_labels_ends, LabelError,
  IsLabel, out_of_fuel,
}
use dns_over_minecraft.Codec.Tld.{tld_to_code, code_to_tld, code_to_tld-tld_to_code}
use dns_over_minecraft.Codec.Query.{encode_query, decode_query, decoded_message, advertised_size}
use dns_over_minecraft.Codec.Query.RoundTrip.{
  decode-encode_query, seen_size_bounds, asked_name, seen_size,
}
use dns_over_minecraft.Codec.Response.{
  pack_compact_response, rebuild_wire, pack_flags, unpack_flags, encode_name, read_name,
}
use dns_over_minecraft.Codec.Response.Names.{IsWireName, read_name-encode_name}
use dns_over_minecraft.Codec.Response.RoundTrip.{
  IsAsked, IsPackable, message_wire, rebuild_wire-pack_compact_response, IsPacked, rr_wire,
}
use dns_over_minecraft.Codec.Response.Flags.{unpack_flags-pack_flags, header_flags}

abbrev google : List ℕ
google = codes "google."

abbrev pub google_wire : List ℕ
google_wire = 6 ∷ (codes "google" ++ (0 ∷ []))

abbrev empty_msg : Msg
empty_msg = record {
  id = 0;
  response = false;
  opcode = 0;
  authoritative = false;
  truncated = false;
  recursion_desired = false;
  recursion_available = false;
  authenticated_data = false;
  checking_disabled = false;
  rcode = 0;
  question = [];
  answer = [];
  ns = [];
  extra = [];
}

abbrev question_a : Question
question_a = record { name = google; qtype = 1; qclass = 1 }

abbrev rr_a : Rr
rr_a = record { name = google; rrtype = 1; class = 1; ttl = 300; rdata = 8 ∷ 8 ∷ 4 ∷ 4 ∷ [] }

abbrev opt_rr : ℕ → Rr
opt_rr size = record { name = codes "."; rrtype = 41; class = size; ttl = 0; rdata = [] }

abbrev query_a : Msg
query_a = record empty_msg { question = question_a ∷ []; recursion_desired = true }

abbrev answer_a : Msg
answer_a = record query_a { response = true; answer = rr_a ∷ [] }

-- A library that knows the class IN, the type A and the name of the tests.
abbrev example_dns : DnsLibrary
example_dns = record {
  fqdn = λ s. if has_suffix s (codes ".") then s else s ++ codes ".";
  class_to_string = λ c. codes "IN";
  type_to_string = λ t. codes "A";
  new_msg = empty_msg;
  is_edns0 = λ m. none;
  udp_size = λ rr. rr.class;
  do_bit = λ rr. false;
  set_question = λ m name qtype. record m {
    question = record { name = name; qtype = qtype; qclass = 1 } ∷ [];
  };
  set_edns0 = λ m size do_bit. record m { extra = opt_rr size ∷ m.extra };
  set_reply = λ m query. record m { id = query.id; response = true; question = query.question };
  pack_domain_name = λ name. some google_wire;
  pack_rr = λ rr. some (rr_wire rr google_wire rr.rdata);
  unpack = λ wire. none;
}

pub google_IsLabel : IsLabel (codes "google")
google_IsLabel = (
  omega arith,
  omega arith,
  (omega arith, (omega arith, (omega arith, (omega arith, (omega arith, (omega arith, tt)))))),
)

decode-encode_query_example :
    (text : List ℕ) × (encode_query example_dns query_a ≡ ok text)
    × (NoDot text)
    × (decode_query example_dns text []
        ≡ ok (
            decoded_message example_dns
              (seen_size (advertised_size example_dns query_a))
              1
              (asked_name question_a)))
unfolding split_dots to_lower lower_byte trim_suffix has_suffix bytes_eq
decode-encode_query_example =
    decode-encode_query example_dns query_a question_a [] refl refl (omega arith)
      (google_IsLabel, tt)

seen_size_bounds_example :
    (512 ≤ seen_size (some 1232))
    × (seen_size (some 1232) ≤ 65280)
    × (1232 < 512 → seen_size (some 1232) ≡ 512)
    × (512 ≤ 1232 → (seen_size (some 1232) ≤ 1232) × (1232 < seen_size (some 1232) + 256))
seen_size_bounds_example = seen_size_bounds 1232 (omega arith)

unpack_labels_ends_example : unpack_labels (3 ∷ 0 ∷ []) ≢ err out_of_fuel
unpack_labels_ends_example = unpack_labels_ends (3 ∷ 0 ∷ [])

pub google_IsWireName : IsWireName google_wire
unfolding pack_label_list
google_IsWireName = record {
  labels = codes "google" ∷ [];
  admitted = (google_IsLabel, tt);
  spelled = refl;
  short = omega arith;
}

pub question_a-IsAsked : IsAsked example_dns question_a
question_a-IsAsked = record {
  qname = google_wire;
  is_name = google_IsWireName;
  packs_name = refl;
  qtype_fits = omega arith;
  qclass_fits = omega arith;
}

pub rr_a-IsPacked : IsPacked example_dns rr_a
rr_a-IsPacked = record {
  owner = google_wire;
  rdata = rr_a.rdata;
  is_name = google_IsWireName;
  packs_name = refl;
  packs_record = refl;
  type_fits = omega arith;
  class_fits = omega arith;
  ttl_fits = omega arith;
  rdata_fits = omega arith;
}

abbrev pub answer_a_IsPackable : IsPackable example_dns answer_a
answer_a_IsPackable = record {
  asked = question_a;
  only = refl;
  packs_question = question_a-IsAsked;
  packs_answer = (rr_a-IsPacked, tt);
  packs_ns = tt;
  packs_extra = tt;
  rcode_fits = omega arith;
  counts_fit = omega arith;
}

rebuild_wire-pack_compact_response_example :
    (payload : List ℕ) × (pack_compact_response example_dns answer_a ≡ ok payload)
    × (rebuild_wire payload ≡ ok (message_wire example_dns answer_a answer_a_IsPackable))
rebuild_wire-pack_compact_response_example =
    rebuild_wire-pack_compact_response example_dns answer_a answer_a_IsPackable
