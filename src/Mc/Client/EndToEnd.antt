-- ===== src/Mc/Client/EndToEnd.antt =====
-- internal/mc: a query that the client sends to the server in one address comes back answered.
use dns_over_minecraft.Prelude.{
  ℕ, ◌+◌, ◌^◌, ◌<◌, ◌≤◌, ◌≡◌, ◌≢◌, refl, ap, sym, ◌∙◌, arith, true, List, [], ◌∷◌, ◌++◌, Option,
  some, length, leb, ok, All,
}
use dns_over_minecraft.Text.{NoDot, split_dots, remove_dots, to_upper}
use dns_over_minecraft.Base32.{base32_decode, symbol_values, from_quintets}
use dns_over_minecraft.Base64.RoundTrip.{IsVisible}
use dns_over_minecraft.Dns.{Question, Msg, DnsLibrary}
use dns_over_minecraft.Codec.Labels.{IsLabel}
use dns_over_minecraft.Codec.Query.{
  class_inet, advertised_size, decoded_message, encode_query, decode_query, decode_wire,
  decode_header,
}
use dns_over_minecraft.Codec.Query.RoundTrip.{asked_name, seen_size, decode-encode_query}
use dns_over_minecraft.Codec.Response.RoundTrip.{IsPackable, message_wire}
use dns_over_minecraft.Codec.Favicon.{favicon_data_uri_prefix, encode_response, decode_response}
use dns_over_minecraft.Codec.Favicon.Payload.{PacksBytes}
use dns_over_minecraft.Codec.Favicon.RoundTrip.{unpacked, decode-encode_response}
use dns_over_minecraft.Codec.Status.{JsonLibrary, KeepsMotd, IsText, build_status_json, dns_status}
use dns_over_minecraft.Resolver.{Pool, Resolver, resolve}
use dns_over_minecraft.Mc.RateLimit.{IpRateLimiter}
use dns_over_minecraft.Mc.Address.{auth_prefix_for, with_suffix}
use dns_over_minecraft.Mc.Frame.{encode_handshake, encode_status_request}
use dns_over_minecraft.Mc.Server.{Server, State, Visit, effective_motd, handle_ping}
use mathlib.Core.List.{append-nil}
use dns_over_minecraft.Mc.Server.Connection.{check_rate, handle_conn, answer_with}
use dns_over_minecraft.Mc.Server.Reads.{IsStatusHandshake, AdmitsHandshakes, handle_frames_lem}
use dns_over_minecraft.Mc.Server.Answers.{handle_address_lem, handle_status_lem, answer_with_lem}
use dns_over_minecraft.Mc.Client.{Remote, handshake_for, received_status, query, query_single}
use dns_over_minecraft.Mc.Client.Replies.{
  query_single_lem, received_status_lem, decode_status_response_lem, length-effective_motd,
}

-- The encoding of a query is not empty, since DecodeQuery reads it.
length-encoded :
    (dns : DnsLibrary) (text : List ℕ) (m : Msg) → decode_query dns text [] ≡ ok m → 0 < length text
unfolding decode_query decode_wire decode_header remove_dots to_upper base32_decode symbol_values
    from_quintets
length-encoded dns [] m decodes = absurd (cc decodes)
length-encoded dns (b ∷ text) m decodes = omega arith

visible-IsText : (s : List ℕ) → All IsVisible s → All IsText s
visible-IsText [] h = tt
visible-IsText (c ∷ s) (h, hs) = ((omega arith, h.1), visible-IsText s hs)

handshake_for-IsStatusHandshake :
    (address : List ℕ) → length address ≤ 1020 → IsStatusHandshake (handshake_for address 25565)
unfolding handshake_for
handshake_for-IsStatusHandshake address short = record {
  protocol_fits = omega arith;
  address_fits = short;
  port_fits = omega arith;
  asks_status = refl;
}

unpacked_lem :
    (dns : DnsLibrary) (wire : List ℕ) (answer : Msg)
    → dns.unpack wire ≡ some answer
    → unpacked dns wire ≡ ok answer
unpacked_lem dns wire answer e = rw (e, unpacked) refl

module _ {P : Type 0} (dns : DnsLibrary) (json : JsonLibrary) (wave : ℕ → ℕ → ℕ → ℕ → ℕ)
    (pool : Pool P) (server : Server) where
  -- The server as the client's remote end; its state does not depend on the ping.
  unfoldable pub served : Visit → Remote (State P)
  unfolding handle_conn
  served visit = record {
    request = λ st src.
        let (st', reply) = handle_conn dns json wave pool server st visit src in (st', some reply);
    last_bytes = λ st ping. st;
  }

  -- handleConn for an address that carries a query.
  handle_conn_query :
      (st : State P) (visit : Visit) (bare : List ℕ) (query_message : Msg)
      (limiter : Option IpRateLimiter) (resolver' : Resolver P) (response_message : Msg)
      → AdmitsHandshakes server
      → check_rate st.rate_limiter visit.allowed_at visit.client_ip ≡ (limiter, true)
      → NoDot server.passphrase
      → NoDot bare
      → 0 < length bare
      → length (with_suffix (auth_prefix_for server.passphrase ++ bare) server.suffix) ≤ 255
      → decode_query dns bare [] ≡ ok query_message
      → resolve dns pool st.resolver visit.clock query_message ≡ (resolver', response_message)
      → handle_conn dns json wave pool server st visit (
          encode_handshake (
            handshake_for
              (with_suffix (auth_prefix_for server.passphrase ++ bare) server.suffix)
              25565)
          ++ encode_status_request)
        ≡ (
          record st { rate_limiter = limiter; resolver = resolver' },
          answer_with dns json server response_message [],
        )
  unfolding handle_conn
  handle_conn_query st visit bare query_message limiter resolver' response_message admits rate np nd
        filled short decodes resolves =
      let st' = record st { rate_limiter = limiter } in
      let address = with_suffix (auth_prefix_for server.passphrase ++ bare) server.suffix in
      let h = handshake_for address 25565 in
      rw (rate, handle_conn, ← append-nil encode_status_request)
        (handle_frames_lem server admits dns json wave pool st' visit h []
            (handshake_for-IsStatusHandshake address (omega arith))
          ∙ handle_status_lem dns json wave pool server st' visit h bare [] np nd filled
              (unfold handshake_for in refl)
          ∙ handle_address_lem dns json wave pool server st' visit h bare [] query_message resolver'
              response_message nd decodes resolves)

  -- The client's side of the connection, for a status that carries the response.
  query_single-served :
      (st st' : State P) (visit : Visit) (now : ℕ) (address text : List ℕ)
      (query_message response_message answer : Msg)
      → KeepsMotd json (effective_motd server)
      → All IsText text
      → encode_response dns (some response_message) ≡ ok text
      → decode_response dns (favicon_data_uri_prefix ++ text) ≡ ok answer
      → length (build_status_json json (effective_motd server) text) + 6 ≤ 2 ^ 20
      → length (build_status_json json (effective_motd server) text) ≢ 123
      → handle_conn dns json wave pool server st visit
          (encode_handshake (handshake_for address 25565) ++ encode_status_request)
        ≡ (st', answer_with dns json server response_message [])
      → query_single dns json (served visit) now st address query_message
        ≡ (st', ok (record answer { id = query_message.id }))
  unfolding served
  query_single-served st st' visit now address text query_message response_message answer keeps
        printing encodes decodes fits other handled =
      let raw = build_status_json json (effective_motd server) text in
      let received =
        received_status_lem json raw (handle_ping server [])
          (dns_status (effective_motd server) text) fits other (keeps.kept text printing)
          (unfold dns_status in length-effective_motd server) in
      query_single_lem dns json (served visit) now st st' address query_message _ _ _
        (ap (λ t. (t.0, some t.1)) handled)
        (ap (received_status json) (
            answer_with_lem dns json server response_message text [] encodes
              (keeps.valid text printing))
          ∙ received)
        (decode_status_response_lem dns (effective_motd server) text query_message answer decodes)

  -- Query resolves a query in one address: its first question has class IN, a type of 16 bits and
  -- labels of 1 to 63 bytes, and its address has at most 255 bytes. It goes to a server of the same
  -- suffix and passphrase, which has no dot, that admits every handshake and lets the client pass. The
  -- server resolves the message that DecodeQuery rebuilds of the query. If the DNS library packs the
  -- response into bytes and unpacks its standard wire message, the JSON library keeps the favicon and
  -- the description, and the status fits a frame of the client and has not 123 bytes, then Query
  -- returns what is unpacked, under the identifier of the query; and of the state of the server nothing
  -- changes but the rate limiter and the resolver.
  pub query_resolved :
      (st : State P) (visit : Visit) (now : ℕ) (query_message : Msg) (question : Question)
      (more : List Question) (nonce_bytes : Option (List ℕ)) (encoded_query : List ℕ)
      (limiter : Option IpRateLimiter) (resolver' : Resolver P) (response_message answer : Msg)
      (text : List ℕ) (p : IsPackable dns response_message)
      → AdmitsHandshakes server
      → NoDot server.passphrase
      → KeepsMotd json (effective_motd server)
      → PacksBytes dns
      → query_message.question ≡ question ∷ more
      → question.qclass ≡ class_inet
      → question.qtype < 65536
      → All IsLabel (split_dots (asked_name question))
      → encode_query dns query_message ≡ ok encoded_query
      → length (with_suffix (auth_prefix_for server.passphrase ++ encoded_query) server.suffix)
        ≤ 255
      → check_rate st.rate_limiter visit.allowed_at visit.client_ip ≡ (limiter, true)
      → resolve dns pool st.resolver visit.clock (
          decoded_message dns
            (seen_size (advertised_size dns query_message))
            question.qtype
            (asked_name question))
        ≡ (resolver', response_message)
      → dns.unpack (message_wire dns response_message p) ≡ some answer
      → encode_response dns (some response_message) ≡ ok text
      → length (build_status_json json (effective_motd server) text) + 6 ≤ 2 ^ 20
      → length (build_status_json json (effective_motd server) text) ≢ 123
      → query dns json
          (served visit)
          now
          st
          server.suffix
          server.passphrase
          query_message
          nonce_bytes
        ≡ (
          record st { rate_limiter = limiter; resolver = resolver' },
          ok (record answer { id = query_message.id }),
        )
  unfolding query
  query_resolved st visit now query_message question more nonce_bytes encoded_query limiter
        resolver' response_message answer text p admits np keeps bytes eq hc ht labels encodes short
        rate resolves unpacks packs fits other =
      let (text₁, encodes₁, nd, decodes) =
        decode-encode_query dns query_message question more eq hc ht labels in
      let (text₂, packs₂, visible, decodes₂) =
        decode-encode_response dns response_message p bytes in
      let same : text₁ ≡ encoded_query = cc (encodes₁, encodes) in
      let same₂ : text₂ ≡ text = cc (packs₂, packs) in
      let received : decode_response dns (favicon_data_uri_prefix ++ text) ≡ ok answer =
        ap (λ t. decode_response dns (favicon_data_uri_prefix ++ t)) (sym same₂)
        ∙ decodes₂
        ∙ unpacked_lem dns (message_wire dns response_message p) answer unpacks in
      let decodes' = rw same at decodes in
      let single : leb
            (length
              (with_suffix (auth_prefix_for server.passphrase ++ encoded_query) server.suffix))
            255
          ≡ true =
        ground arith in
      rw (encodes, query, single)
        (query_single-served st _ visit now _ text query_message response_message answer keeps
          (visible-IsText text (rw same₂ at visible)) packs received fits other
          (handle_conn_query st visit encoded_query _ limiter resolver' response_message admits rate
            np (rw same at nd) (length-encoded dns encoded_query _ decodes') short decodes'
            resolves))
