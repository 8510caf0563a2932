-- ===== src/Codec/Favicon.antt =====
-- internal/dnscodec/codec.go: EncodeResponse and DecodeResponse, the payload as the text of the
-- favicon.
pub mod Payload
pub mod RoundTrip
use dns_over_minecraft.Prelude.{
  ℕ, List, ◌==◌, if◌then◌else◌, Option, none, some, length, Result, ok, err, ◌>>=◌,
}
use dns_over_minecraft.Text.{codes, trim_prefix, trim_space}
use dns_over_minecraft.Base64.{base64_encode, base64_decode}
use dns_over_minecraft.Dns.{Msg, DnsLibrary}
use dns_over_minecraft.Codec.Response.{
  ResponseError, nil_response, empty_response, bad_base64, pack_compact_response,
  unpack_compact_response,
}

abbrev pub favicon_data_uri_prefix : List ℕ
favicon_data_uri_prefix = codes "data:image/png;base64,"

module _ (dns : DnsLibrary) where
  unfoldable pub encode_response : Option Msg → Result ResponseError (List ℕ)
  encode_response none = err nil_response
  encode_response (some response_message) = do
    compact_wire ← pack_compact_response dns response_message
    ok (base64_encode compact_wire)

  unfoldable pub decode_response : List ℕ → Result ResponseError Msg
  decode_response encoded_response =
      let text = trim_prefix (trim_space encoded_response) favicon_data_uri_prefix in
      if length text == 0 then err empty_response else elim (base64_decode text) [
        | none ↦ err bad_base64
        | some payload ↦ unpack_compact_response dns payload
      ]
