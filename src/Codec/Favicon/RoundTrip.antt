-- ===== src/Codec/Favicon/RoundTrip.antt =====
-- internal/dnscodec/codec.go: DecodeResponse reads the favicon that carries what EncodeResponse
-- wrote.
use dns_over_minecraft.Prelude.{
  ℕ, ◌≡◌, ◌<◌, refl, ◌∙◌, arith, List, [], ◌∷◌, ◌++◌, none, some, length, Result, ok, err, All,
  All-append,
}
use dns_over_minecraft.Bytes.{IsByte, read_byte}
use dns_over_minecraft.Text.{is_space, trim_left, trim_right, trim_space}
use dns_over_minecraft.Text.Dots.{trim_prefix_append}
use dns_over_minecraft.Base64.{base64_encode}
use dns_over_minecraft.Base64.RoundTrip.{IsVisible, base64_encode-IsVisible, base64_decode-encode}
use dns_over_minecraft.Dns.{Msg, DnsLibrary}
use dns_over_minecraft.Codec.Response.{
  ResponseError, unpack_failed, pack_compact_response, unpack_compact_response, rebuild_wire,
}
use dns_over_minecraft.Codec.Response.RoundTrip.{
  IsPackable, message_wire, rebuild_wire-pack_compact_response,
}
use dns_over_minecraft.Codec.Favicon.{favicon_data_uri_prefix, encode_response, decode_response}
use dns_over_minecraft.Codec.Favicon.Payload.{PacksBytes, pack_compact_response-IsByte}

-- A text without white space is not trimmed.
trim_right_visible : (s : List ℕ) → All IsVisible s → trim_right s ≡ s
unfolding trim_right is_space
trim_right_visible [] h = refl
trim_right_visible (b ∷ s) (h, hs) = ground (arith, trim_right_visible s hs)

trim_space_visible : (s : List ℕ) → All IsVisible s → trim_space s ≡ s
unfolding trim_space trim_left is_space
trim_space_visible [] h = unfold trim_right in refl
trim_space_visible (b ∷ s) (h, hs) = ground (arith, trim_right_visible (b ∷ s) (h, hs))

favicon_data_uri_prefix-IsVisible : All IsVisible favicon_data_uri_prefix
favicon_data_uri_prefix-IsVisible = ground arith

-- What DecodeResponse makes of the message that the payload is rebuilt to.
abbrev pub unpacked : DnsLibrary → List ℕ → Result ResponseError Msg
unpacked dns wire = elim (dns.unpack wire) [ some m ↦ ok m | none ↦ err unpack_failed ]

module _ (dns : DnsLibrary) where
  length-base64_encode :
      (payload : List ℕ) → 0 < length payload → 0 < length (base64_encode payload)
  unfolding base64_encode
  length-base64_encode [] h = absurd (omega arith)
  length-base64_encode (a ∷ []) h = omega arith
  length-base64_encode (a ∷ b ∷ []) h = omega arith
  length-base64_encode (a ∷ b ∷ c ∷ rest) h = omega arith

  decode_response_lem :
      (payload : List ℕ)
      → All IsByte payload
      → 0 < length payload
      → decode_response dns (favicon_data_uri_prefix ++ base64_encode payload)
        ≡ unpack_compact_response dns payload
  unfolding decode_response
  decode_response_lem payload h filled =
      rw
        (
          trim_space_visible (favicon_data_uri_prefix ++ base64_encode payload) (
              All-append IsVisible favicon_data_uri_prefix (base64_encode payload)
                favicon_data_uri_prefix-IsVisible (base64_encode-IsVisible payload h)),
          trim_prefix_append favicon_data_uri_prefix (base64_encode payload),
          base64_decode-encode payload h,
        )
        (ground (arith, length-base64_encode payload filled))

  encode_response_lem :
      (m : Msg) (payload : List ℕ)
      → pack_compact_response dns m ≡ ok payload
      → encode_response dns (some m) ≡ ok (base64_encode payload)
  unfolding encode_response
  encode_response_lem m payload e = rw e refl

  unpack_compact_response_lem :
      (payload wire : List ℕ)
      → rebuild_wire payload ≡ ok wire
      → unpack_compact_response dns payload ≡ unpacked dns wire
  unfolding unpack_compact_response
  unpack_compact_response_lem payload wire e = rw e refl

  payload_filled : (payload wire : List ℕ) → rebuild_wire payload ≡ ok wire → 0 < length payload
  unfolding rebuild_wire read_byte
  payload_filled [] wire e = absurd (cc e)
  payload_filled (b ∷ bs) wire e = omega arith

  -- A message of one question, whose names, records and counts are as IsPackable says that the
  -- DNS library packs them, into bytes, is encoded to a text of printing characters, and
  -- DecodeResponse of that text behind the data-URI prefix of a favicon is what the DNS library
  -- unpacks of the standard wire message, or its error.
  pub decode-encode_response :
      (m : Msg) (p : IsPackable dns m)
      → PacksBytes dns
      → (text : List ℕ) × (encode_response dns (some m) ≡ ok text)
        × All IsVisible text
        × (decode_response dns (favicon_data_uri_prefix ++ text)
            ≡ unpacked dns (message_wire dns m p))
  decode-encode_response m p bytes =
      let (payload, packs, rebuilds) = rebuild_wire-pack_compact_response dns m p in
      let h : All IsByte payload = rw packs at (pack_compact_response-IsByte dns bytes m) in
      (
        base64_encode payload,
        encode_response_lem m payload packs,
        base64_encode-IsVisible payload h,
        decode_response_lem payload h (payload_filled payload (message_wire dns m p) rebuilds)
            ∙ unpack_compact_response_lem payload (message_wire dns m p) rebuilds,
      )
