-- ===== src/Mc/Client/Replies.antt =====
-- internal/mc/client.go: the client takes the answer out of the status of the server.
use dns_over_minecraft.Prelude.{
  ℕ, ◌+◌, ◌^◌, ◌<◌, ◌≤◌, ◌≡◌, ◌≢◌, refl, ap, ◌∙◌, arith, false, List, ◌++◌, Option, some, length,
  ◌==◌, Result, ok, Bool-cases, inl, inr,
}
use dns_over_minecraft.Dns.{Msg, DnsLibrary}
use dns_over_minecraft.Codec.Favicon.{favicon_data_uri_prefix, decode_response}
use dns_over_minecraft.Codec.Status.{Status, JsonLibrary, dns_status}
use dns_over_minecraft.Mc.Frame.{
  encode_status_response_json, encode_handshake, encode_status_request, encode_ping,
}
use dns_over_minecraft.Mc.Frame.Client.{status_response_received}
use dns_over_minecraft.Mc.Server.{Server, effective_motd}
use dns_over_minecraft.Mc.Client.{
  Remote, ClientError, handshake_for, received_status, decode_status_response, pinged, answered,
  exchange, query_single, decoded_outcome,
}

pub received_status_lem :
    (json : JsonLibrary) (raw rest : List ℕ) (status : Status)
    → length raw + 6 ≤ 2 ^ 20
    → length raw ≢ 123
    → json.unmarshal raw ≡ some status
    → 0 < length status.description_text
    → received_status json (encode_status_response_json raw ++ rest) ≡ ok status
unfolding received_status
received_status_lem json raw rest status fits other reads described =
    let (payload, framed, taken) = status_response_received raw rest fits other in
    let has_text : (length status.description_text == 0) ≡ false = ground arith in
    rw (framed, received_status, taken, reads, has_text) refl

pub decode_status_response_lem :
    (dns : DnsLibrary) (motd text : List ℕ) (query_message response_message : Msg)
    → decode_response dns (favicon_data_uri_prefix ++ text) ≡ ok response_message
    → decode_status_response dns (dns_status motd text) query_message
      ≡ ok (record response_message { id = query_message.id })
unfolding decode_status_response dns_status
decode_status_response_lem dns motd text query_message response_message decodes =
    rw (decodes, decode_status_response) refl

pub length-effective_motd : (server : Server) → 0 < length (effective_motd server)
unfolding effective_motd
length-effective_motd server = elim (Bool-cases (length server.motd == 0)) [
  | inl empty ↦ rw empty (omega arith)
  | inr given ↦ rw given (ground arith)
]

exchange_lem :
    {S : Type 0} (json : JsonLibrary) (remote : Remote S) (now : ℕ) (s s' : S) (address : List ℕ)
    (server_port : ℕ) (reply : List ℕ) (status : Status)
    → remote.request s
        (encode_handshake (handshake_for address server_port) ++ encode_status_request)
      ≡ (s', some reply)
    → received_status json reply ≡ ok status
    → exchange json remote now s address server_port
      ≡ (remote.last_bytes s' (encode_ping now), ok status)
unfolding exchange answered pinged
exchange_lem {S = S} json remote now s s' address server_port reply status replied received =
    ap (λ (sent : S × Option (List ℕ)). answered json remote now sent.0 sent.1) replied
    ∙ ap (pinged json remote now s') received

-- A connection that is answered with a status that carries the response.
pub query_single_lem :
    {S : Type 0} (dns : DnsLibrary) (json : JsonLibrary) (remote : Remote S) (now : ℕ) (s s' : S)
    (address : List ℕ) (query_message : Msg) (reply : List ℕ) (status : Status)
    (response_message : Msg)
    → remote.request s (encode_handshake (handshake_for address 25565) ++ encode_status_request)
      ≡ (s', some reply)
    → received_status json reply ≡ ok status
    → decode_status_response dns status query_message ≡ ok response_message
    → query_single dns json remote now s address query_message
      ≡ (remote.last_bytes s' (encode_ping now), ok response_message)
unfolding query_single decoded_outcome
query_single_lem {S = S} dns json remote now s s' address query_message reply status
      response_message replied received decodes =
    ap
      (λ (sent : S × Result ClientError Status). (sent.0, decoded_outcome dns sent.1 query_message))
      (exchange_lem json remote now s s' address 25565 reply status replied received)
    ∙ ap (λ outcome. (remote.last_bytes s' (encode_ping now), outcome)) decodes
