-- ===== src/Codec/Query.antt =====
-- internal/dnscodec/codec.go: EncodeQuery, encodeEdnsSize, DecodeQuery and StripSuffix.
pub mod RoundTrip
use dns_over_minecraft.Prelude.{
  ℕ, zero, suc, ◌+◌, ◌-◌, ◌*◌, ◌/◌, ◌%◌, Bool, true, false, ◌&&◌, ◌||◌, not, List, [], ◌∷◌, ◌++◌,
  leb, ltb, ◌==◌, if◌then◌else◌, Option, none, some, length, take, bytes_eq, Result, ok, err, ◌>>=◌,
}
use dns_over_minecraft.Bytes.{IoError, put_uvarint, read_uvarint}
use dns_over_minecraft.Text.{to_lower, to_upper, has_suffix, trim_suffix, split_dots, remove_dots}
use dns_over_minecraft.Base32.{base32_encode, base32_decode}
use dns_over_minecraft.Dns.{Question, Rr, Msg, DnsLibrary}
use dns_over_minecraft.Codec.Labels.{LabelError, pack_labels, unpack_labels}
use dns_over_minecraft.Codec.Tld.{tld_to_code, code_to_tld}

pub data QueryError : Type 0 where
  no_question unsupported_qclass empty_qname empty_labels invalid_label : QueryError
  bad_base32 query_empty_wire wire_too_short invalid_magic reserved_tld : QueryError
  read_qtype : IoError → QueryError
  qtype_out_of_range read_name_part not_terminated unknown_tld : QueryError
  bad_labels : LabelError → QueryError

abbrev pub magic_minimal : ℕ
magic_minimal = 0xff

abbrev pub magic_edns : ℕ
magic_edns = 0xfe

abbrev pub tld_raw : ℕ
tld_raw = 0

abbrev pub tld_reserved_start : ℕ
tld_reserved_start = 100

abbrev pub class_inet : ℕ
class_inet = 1

-- A label that EncodeQuery refuses.
unfoldable pub bad_label : List ℕ → Bool
bad_label label = length label == 0 || ltb 63 (length label)

unfoldable pub any_bad_label : List (List ℕ) → Bool
unfolding bad_label
any_bad_label [] = false
any_bad_label (label ∷ labels) = bad_label label || any_bad_label labels

-- `labels[:len(labels)-1]` and `labels[len(labels)-1]` of the labels x ∷ xs.
unfoldable pub prefix_labels : List ℕ → List (List ℕ) → List (List ℕ)
prefix_labels x [] = []
prefix_labels x (y ∷ ys) = x ∷ prefix_labels y ys

unfoldable pub last_label : List ℕ → List (List ℕ) → List ℕ
last_label x [] = x
last_label x (y ∷ ys) = last_label y ys

-- The code and the name part.
unfoldable pub name_wire : List ℕ → List (List ℕ) → ℕ × List ℕ
unfolding prefix_labels last_label
name_wire x xs = elim (tld_to_code (last_label x xs)) [
  | some code ↦ (code, pack_labels (prefix_labels x xs))
  | none ↦ (tld_raw, pack_labels (x ∷ xs))
]

-- The size is that of a uint16, so the upper bound of the source never bites.
unfoldable pub encode_edns_size : ℕ → ℕ
encode_edns_size size =
    let size1 = if ltb size 512 then 512 else size in
    let size2 = if ltb 65535 size1 then 65535 else size1 in size2 / 256 % 256

unfoldable pub magic_bytes : Option ℕ → List ℕ
unfolding encode_edns_size
magic_bytes (some size) = magic_edns ∷ encode_edns_size size ∷ []
magic_bytes none = magic_minimal ∷ []

-- The bytes of a query, for the labels of its name.
unfoldable pub query_wire : Option ℕ → ℕ → List ℕ → List (List ℕ) → List ℕ
unfolding magic_bytes
query_wire edns qtype x xs =
    let (code, name_part) = name_wire x xs in
    magic_bytes edns ++ (code ∷ put_uvarint qtype ++ name_part)

unfoldable pub encode_labels : Option ℕ → ℕ → List (List ℕ) → Result QueryError (List ℕ)
unfolding query_wire any_bad_label
encode_labels edns qtype [] = err empty_labels
encode_labels edns qtype (x ∷ xs) =
    if any_bad_label (x ∷ xs)
    then err invalid_label
    else ok (to_lower (base32_encode (query_wire edns qtype x xs)))

module _ (dns : DnsLibrary) where
  open dns use {fqdn, new_msg, is_edns0, udp_size, set_question, set_edns0}

  unfoldable pub advertised_size : Msg → Option ℕ
  advertised_size query = elim (is_edns0 query) [ none ↦ none | some opt ↦ some (udp_size opt) ]

  unfoldable pub encode_question : Msg → List Question → Result QueryError (List ℕ)
  unfolding encode_labels advertised_size
  encode_question query [] = err no_question
  encode_question query (question ∷ _) =
      let domain_name = to_lower (trim_suffix question.name (b'.' ∷ [])) in
      if not (question.qclass == class_inet)
      then err unsupported_qclass
      else if length domain_name == 0
      then err empty_qname
      else encode_labels (advertised_size query) question.qtype (split_dots domain_name)

  unfoldable pub encode_query : Msg → Result QueryError (List ℕ)
  unfolding encode_question
  encode_query query = encode_question query query.question

  -- The message that DecodeQuery builds.
  unfoldable pub decoded_message : ℕ → ℕ → List ℕ → Msg
  decoded_message edns_size qtype domain_name =
      let asked = set_question new_msg (fqdn domain_name) (qtype % 65536) in
      let decoded = record asked { recursion_desired = true; id = 0 } in
      if ltb 0 edns_size then set_edns0 decoded edns_size false else decoded

-- The wire behind the magic of each format: the EDNS size, the code and the payload.
unfoldable pub minimal_header : List ℕ → Result QueryError (ℕ × ℕ × List ℕ)
minimal_header [] = err wire_too_short
minimal_header (code ∷ []) = err wire_too_short
minimal_header (code ∷ b ∷ rest) = ok (0, code, b ∷ rest)

unfoldable pub edns_header : List ℕ → Result QueryError (ℕ × ℕ × List ℕ)
edns_header [] = err wire_too_short
edns_header (size ∷ []) = err wire_too_short
edns_header (size ∷ code ∷ []) = err wire_too_short
edns_header (size ∷ code ∷ b ∷ rest) = ok (size * 256, code, b ∷ rest)

unfoldable pub decode_header : List ℕ → Result QueryError (ℕ × ℕ × List ℕ)
unfolding minimal_header edns_header
decode_header [] = err query_empty_wire
decode_header (magic ∷ wire) =
    if magic == magic_minimal
    then minimal_header wire
    else if magic == magic_edns
    then edns_header wire
    else err invalid_magic

abbrev lift_io {ℓ} : {A : Type ℓ} → Result IoError A → Result QueryError A
lift_io (ok a) = ok a
lift_io (err e) = err (read_qtype e)

abbrev lift_label {ℓ} : {A : Type ℓ} → Result LabelError A → Result QueryError A
lift_label (ok a) = ok a
lift_label (err e) = err (bad_labels e)

-- `namePart[len(namePart)-1]`, for the name part b ∷ bs.
unfoldable pub last_byte : ℕ → List ℕ → ℕ
last_byte b [] = b
last_byte b (c ∷ cs) = last_byte c cs

unfoldable pub with_tld : List ℕ → List ℕ → List ℕ
with_tld prefix tld_entry = if length prefix == 0 then tld_entry else prefix ++ (b'.' ∷ tld_entry)

-- The domain name of a name part that is not empty and ends with 0.
unfoldable pub decode_name : ℕ → List ℕ → Result QueryError (List ℕ)
unfolding with_tld
decode_name code name_part =
    if code == tld_raw then lift_label (unpack_labels name_part) else elim (code_to_tld code) [
      | none ↦ err unknown_tld
      | some tld_entry ↦
          if ltb 1 (length name_part)
          then (do prefix ← lift_label (unpack_labels name_part); ok (with_tld prefix tld_entry))
          else ok (with_tld [] tld_entry)
    ]

unfoldable pub decode_name_part : ℕ → List ℕ → Result QueryError (List ℕ)
unfolding decode_name last_byte
decode_name_part code [] = err read_name_part
decode_name_part code (b ∷ bs) =
    if last_byte b bs == 0 then decode_name code (b ∷ bs) else err not_terminated

-- The EDNS size, the type and the name.
unfoldable pub decode_wire : List ℕ → Result QueryError (ℕ × ℕ × List ℕ)
unfolding decode_header decode_name_part
decode_wire wire = do
  (edns_size, code, payload) ← decode_header wire
  if leb tld_reserved_start code && leb code 254 then err reserved_tld else do
    (qtype, name_part) ← lift_io (read_uvarint payload)
    if ltb 65535 qtype
        then err qtype_out_of_range
        else do domain_name ← decode_name_part code name_part; ok (edns_size, qtype, domain_name)

unfoldable pub strip_suffix : List ℕ → List ℕ → List ℕ
strip_suffix server_address suffix =
    if length suffix == 0
    then server_address
    else if has_suffix (to_lower server_address) (to_lower suffix)
    then trim_suffix (take (length server_address - length suffix) server_address) (b'.' ∷ [])
    else server_address

module _ (dns : DnsLibrary) where
  unfoldable pub decode_query : List ℕ → List ℕ → Result QueryError Msg
  unfolding decode_wire decoded_message
  decode_query encoded suffix =
      let bare =
        if length suffix == 0
        then encoded
        else if has_suffix (to_lower encoded) (to_lower suffix)
        then trim_suffix (take (length encoded - length suffix) encoded) (b'.' ∷ [])
        else encoded in
      elim (base32_decode (to_upper (remove_dots bare))) [
        | none ↦ err bad_base32
        | some wire ↦ do
          (edns_size, qtype, domain_name) ← decode_wire wire
          ok (decoded_message dns edns_size qtype domain_name)
      ]
