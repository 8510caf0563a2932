-- ===== src/Mc/Client.antt =====
-- internal/mc/client.go: Query, which sends a query to a server and waits for its answer. The
-- server that is dialled is a parameter: its state, what it answers to the bytes of a connection
-- (none if the connection fails), and what the last bytes of the connection, whose answer is not
-- read, do to its state. The random bytes of the nonce and the time of the ping are arguments.
pub mod Replies
pub mod EndToEnd
use dns_over_minecraft.Prelude.{
  ℕ, suc, ◌+◌, ◌%◌, ◌^◌, List, [], ◌∷◌, ◌++◌, ltb, leb, ◌==◌, if◌then◌else◌, Option, none, some,
  length, Result, ok, err,
}
use dns_over_minecraft.Text.{to_lower}
use dns_over_minecraft.Base32.{base32_encode}
use dns_over_minecraft.Dns.{Msg, DnsLibrary}
use dns_over_minecraft.Codec.Query.{QueryError, encode_query}
use dns_over_minecraft.Codec.Response.{ResponseError}
use dns_over_minecraft.Codec.Favicon.{decode_response}
use dns_over_minecraft.Codec.Status.{Status, JsonLibrary}
use dns_over_minecraft.Mc.VarInt.{Error}
use dns_over_minecraft.Mc.Address.{
  max_single_server_address, max_fragment_pieces, auth_prefix_for, with_suffix, suffix_with_dot,
  max_piece_length, split_encoded_pieces, fragment_address, fragment_port,
}
use dns_over_minecraft.Mc.Frame.{
  Handshake, encode_handshake, encode_status_request, encode_ping, read_frame, status_json,
}

pub data ClientError : Type 0 where
  query_error : QueryError → ClientError
  frame_error : Error → ClientError
  response_error : ResponseError → ClientError
  connection_failed unexpected_packet bad_status empty_description : ClientError
  no_nonce too_many_fragments no_final_response : ClientError

pub record Remote (S : Type 0) : Type 0 where
  pub request : S → List ℕ → S × Option (List ℕ)
  pub last_bytes : S → List ℕ → S

unfoldable pub handshake_for : List ℕ → ℕ → Handshake
handshake_for address server_port = record {
  protocol_version = 765;
  server_address = address;
  server_port = server_port % 2 ^ 16;
  next_state = 1;
}

-- The status in the bytes that the server sent.
unfoldable pub received_status : JsonLibrary → List ℕ → Result ClientError Status
unfolding read_frame status_json
received_status json reply = elim (read_frame reply) [
  | err e ↦ err (frame_error e)
  | ok (packet_id, payload, rest) ↦
      if packet_id == 0
      then elim (json.unmarshal (status_json payload)) [
        | none ↦ err bad_status
        | some status ↦
            if length status.description_text == 0 then err empty_description else ok status
      ]
      else err unexpected_packet
]

unfoldable pub decode_status_response : DnsLibrary → Status → Msg → Result ClientError Msg
unfolding decode_response
decode_status_response dns status query_message = elim (decode_response dns status.favicon) [
  | err e ↦ err (response_error e)
  | ok response_message ↦ ok (record response_message { id = query_message.id })
]

unfoldable pub decoded_outcome :
    DnsLibrary → Result ClientError Status → Msg → Result ClientError Msg
unfolding decode_status_response
decoded_outcome dns (err e) query_message = err e
decoded_outcome dns (ok status) query_message = decode_status_response dns status query_message

module _ {S : Type 0} (json : JsonLibrary) (remote : Remote S) (now : ℕ) where
  -- The status of a connection, and its ping if there is one.
  unfoldable pub pinged : S → Result ClientError Status → S × Result ClientError Status
  unfolding encode_ping
  pinged s (err e) = (s, err e)
  pinged s (ok status) = (remote.last_bytes s (encode_ping now), ok status)

  unfoldable pub answered : S → Option (List ℕ) → S × Result ClientError Status
  unfolding received_status pinged
  answered s none = (s, err connection_failed)
  answered s (some reply) = pinged s (received_status json reply)

  unfoldable pub exchange : S → List ℕ → ℕ → S × Result ClientError Status
  unfolding handshake_for encode_handshake encode_status_request answered
  exchange s address server_port =
      let (s', reply) =
        remote.request s
          (encode_handshake (handshake_for address server_port) ++ encode_status_request) in
      answered s' reply

module _ {S : Type 0} (dns : DnsLibrary) (json : JsonLibrary) (remote : Remote S) (now : ℕ) where
  -- The loop of queryFragmented over `count` pieces, the next of which has the index.
  unfoldable pub send_pieces :
      S
      → Msg
      → List ℕ
      → List ℕ
      → List ℕ
      → ℕ
      → List (List ℕ)
      → ℕ
      → Option Msg
      → S × Result ClientError Msg
  unfolding fragment_address fragment_port exchange decode_status_response
  send_pieces s query_message passphrase nonce suffix count [] index none =
      (s, err no_final_response)
  send_pieces s query_message passphrase nonce suffix count [] index (some final_response) =
      (s, ok final_response)
  send_pieces s query_message passphrase nonce suffix count (piece ∷ pieces) index final =
      let (s', outcome) =
        exchange json remote now s (fragment_address passphrase nonce piece suffix)
          (fragment_port index count) in
      elim outcome [
        | err e ↦ (s', err e)
        | ok status ↦
            if index + 1 == count
            then elim (decode_status_response dns status query_message) [
              | err e ↦ (s', err e)
              | ok response_message ↦
                  send_pieces s' query_message passphrase nonce suffix count pieces (index + 1)
                    (some response_message)
            ]
            else send_pieces s' query_message passphrase nonce suffix count pieces (index + 1) final
      ]

  -- The pieces of the query under a nonce; the source has an error if there are no random bytes.
  unfoldable pub query_fragmented :
      S → List ℕ → List ℕ → List ℕ → Msg → Option (List ℕ) → S × Result ClientError Msg
  unfolding max_piece_length split_encoded_pieces auth_prefix_for suffix_with_dot send_pieces
  query_fragmented s suffix passphrase encoded_query query_message none = (s, err no_nonce)
  query_fragmented s suffix passphrase encoded_query query_message (some nonce_bytes) =
      let nonce = to_lower (base32_encode nonce_bytes) in
      let pieces = split_encoded_pieces encoded_query (
        max_piece_length (length (auth_prefix_for passphrase)) (length nonce)
          (length (suffix_with_dot suffix))) in
      if ltb max_fragment_pieces (length pieces)
      then (s, err too_many_fragments)
      else send_pieces s query_message passphrase nonce suffix (length pieces) pieces 0 none

  -- A query of which the address fits, in one connection.
  unfoldable pub query_single : S → List ℕ → Msg → S × Result ClientError Msg
  unfolding exchange decoded_outcome
  query_single s full_server_address query_message =
      let (s', outcome) = exchange json remote now s full_server_address 25565 in
      (s', decoded_outcome dns outcome query_message)

  unfoldable pub query : S → List ℕ → List ℕ → Msg → Option (List ℕ) → S × Result ClientError Msg
  unfolding encode_query auth_prefix_for with_suffix query_single query_fragmented
  query s suffix passphrase query_message nonce_bytes = elim (encode_query dns query_message) [
    | err e ↦ (s, err (query_error e))
    | ok encoded_query ↦
        if leb (length (with_suffix (auth_prefix_for passphrase ++ encoded_query) suffix))
          max_single_server_address
        then query_single s (with_suffix (auth_prefix_for passphrase ++ encoded_query) suffix)
            query_message
        else query_fragmented s suffix passphrase encoded_query query_message nonce_bytes
  ]
