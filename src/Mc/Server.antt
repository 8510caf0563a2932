-- ===== src/Mc/Server.antt =====
-- internal/mc/server.go: the server of the status protocol. A connection is handled as a function
-- from the bytes that the client writes to the state after it and the bytes that the server
-- writes; what is read past the end of those bytes is the error of a deadline or a closed
-- connection, and what is written is always taken. The resolver is not nil.
pub mod Connection
pub mod Reads
pub mod Unauthenticated
pub mod Slots
pub mod Answers
pub mod Vanilla
use dns_over_minecraft.Prelude.{
  ℕ, ◌+◌, ◌/◌, ◌%◌, ◌^◌, Bool, true, false, ◌&&◌, not, List, [], ◌∷◌, ◌++◌, ltb, leb, ◌==◌,
  if◌then◌else◌, Option, none, some, length, take, bytes_eq, ok, err,
}
use dns_over_minecraft.Text.{codes, split_dots}
use dns_over_minecraft.Base64.{base64_encode}
use dns_over_minecraft.Dns.{Msg, DnsLibrary}
use dns_over_minecraft.Codec.Opt.{build_error_response, format_error, server_failure}
use dns_over_minecraft.Codec.Query.{strip_suffix, decode_query}
use dns_over_minecraft.Codec.Favicon.{encode_response}
use dns_over_minecraft.Codec.Status.{
  JsonLibrary, SampleMap, build_status_json, build_vanilla_status_json,
}
use dns_over_minecraft.Cache.Optional.{Clock}
use dns_over_minecraft.Resolver.{Pool, Resolver, resolve}
use dns_over_minecraft.Mc.RateLimit.{IpRateLimiter, allow}
use dns_over_minecraft.Mc.Fragment.{
  FragmentSet, Sets, add, put_set, reassemble, store_result, wait_result,
}
use dns_over_minecraft.Mc.Address.{extract_passphrase, is_fragmented, fragment_parts}
use dns_over_minecraft.Mc.Frame.{
  Handshake, read_frame_limit, parse_handshake, decode_ping, encode_pong, encode_login_disconnect,
  encode_status_response_json,
}

-- The configuration of the server. An empty passphrase and a frame size of 0 are none.
pub record Server : Type 0 where
  pub suffix : List ℕ
  pub motd : List ℕ
  pub version_name : List ℕ
  pub version_protocol : ℕ
  pub max_players : ℕ
  pub online_players : ℕ
  pub sample : List SampleMap
  pub favicon : List ℕ
  pub passphrase : List ℕ
  pub max_frame_size : ℕ

-- What the connections share. No rate limiter is the nil pointer.
pub record State (P : Type 0) : Type 0 where
  pub rate_limiter : Option IpRateLimiter
  pub fragments : Sets
  pub resolver : Resolver P

-- What a connection finds: the address of its client, the times at which Allow and the assembler
-- look at the clock, those of the cache, the hour and minute of the day, and the fragment set that
-- waitResult sees at its end.
pub record Visit : Type 0 where
  pub client_ip : List ℕ
  pub allowed_at : ℕ
  pub added_at : ℕ
  pub clock : Clock
  pub hour : ℕ
  pub minute : ℕ
  pub awaited : FragmentSet

abbrev pub default_max_frame_size : ℕ
default_max_frame_size = 4096

abbrev pub default_motd : List ℕ
default_motd = codes "dnsmc server"

abbrev pub whitelist_kick_reason : List ℕ
whitelist_kick_reason = codes "{\"text\":\"You are not whitelisted\"}"

abbrev pub fragment_ack_marker : List ℕ
fragment_ack_marker = codes "fragment-ack"

unfoldable pub effective_motd : Server → List ℕ
effective_motd server = if length server.motd == 0 then default_motd else server.motd

unfoldable pub effective_max_frame_size : Server → ℕ
effective_max_frame_size server =
    if ltb 0 server.max_frame_size then server.max_frame_size else default_max_frame_size

unfoldable pub cap_sample : List SampleMap → ℕ → List SampleMap
cap_sample sample online = if leb (length sample) online then sample else take online sample

-- The rounded sinusoid of dynamicOnlinePlayers, in float64 and package math, is a parameter: a
-- function of the peak, the dip, the hour and the minute, 0 where it is negative.
unfoldable pub dynamic_online_players : (ℕ → ℕ → ℕ → ℕ → ℕ) → Server → ℕ → ℕ → ℕ
dynamic_online_players wave server hour minute =
    let capped = ltb 0 server.max_players in
    let peak =
      if capped && ltb server.max_players server.online_players
      then server.max_players
      else server.online_players in
    let dip = (peak + 1) / 2 in
    let online = wave peak dip hour minute in
    if capped && ltb server.max_players online then server.max_players else online

unfoldable pub handle_ping : Server → List ℕ → List ℕ
unfolding effective_max_frame_size
handle_ping server src = elim (read_frame_limit src (effective_max_frame_size server)) [
  | err _ ↦ []
  | ok (packet_id, payload, rest) ↦
      if packet_id == 1
      then elim (decode_ping payload) [ err _ ↦ [] | ok timestamp ↦ encode_pong timestamp ]
      else []
]

unfoldable pub handle_login : Server → List ℕ → List ℕ
unfolding effective_max_frame_size
handle_login server src = elim (read_frame_limit src (effective_max_frame_size server)) [
  | err _ ↦ []
  | ok _ ↦ encode_login_disconnect whitelist_kick_reason
]

-- The two frames that rejectAndClose drains: what is left behind them.
unfoldable pub drain_frames : Server → List ℕ → Option (List ℕ)
unfolding effective_max_frame_size
drain_frames server src = elim (read_frame_limit src (effective_max_frame_size server)) [
  | err _ ↦ none
  | ok (_, _, rest) ↦ elim (read_frame_limit rest (effective_max_frame_size server)) [
    | err _ ↦ none
    | ok (_, _, rest') ↦ some rest'
  ]
]

module _ (json : JsonLibrary) (wave : ℕ → ℕ → ℕ → ℕ → ℕ) (server : Server) where
  unfoldable pub vanilla_status_json : Visit → List ℕ
  unfolding dynamic_online_players cap_sample build_vanilla_status_json
  vanilla_status_json visit =
      let online_players = dynamic_online_players wave server visit.hour visit.minute in
      build_vanilla_status_json json server.motd server.version_name server.version_protocol
        server.max_players online_players (cap_sample server.sample online_players) server.favicon

  unfoldable pub write_vanilla_status : Visit → List ℕ → List ℕ
  unfolding vanilla_status_json handle_ping
  write_vanilla_status visit src =
      encode_status_response_json (vanilla_status_json visit) ++ handle_ping server src

  unfoldable pub reject_and_close : Visit → List ℕ → Bool → List ℕ
  unfolding write_vanilla_status drain_frames
  reject_and_close visit src true = write_vanilla_status visit src
  reject_and_close visit src false = elim (drain_frames server src) [
    | none ↦ []
    | some rest ↦ write_vanilla_status visit rest
  ]

unfoldable pub write_status_json : JsonLibrary → List ℕ → List ℕ
write_status_json json raw_json =
    if json.is_valid raw_json then encode_status_response_json raw_json else []

module _ (dns : DnsLibrary) (json : JsonLibrary) (server : Server) where
  -- The text in the favicon: the response, an error response if that has no encoding, or nothing.
  unfoldable pub payload_base64 : Msg → List ℕ
  unfolding build_error_response encode_response
  payload_base64 response_message = elim (encode_response dns (some response_message)) [
    | ok text ↦ text
    | err _ ↦
        elim (encode_response dns
          (some (build_error_response dns (some response_message) server_failure))) [
            | ok text ↦ text
            | err _ ↦ []
          ]
  ]

  unfoldable pub send_dns_response : Msg → List ℕ
  unfolding payload_base64 effective_motd build_status_json write_status_json
  send_dns_response response_message =
      write_status_json json
        (build_status_json json (effective_motd server) (payload_base64 response_message))

  unfoldable pub send_fragment_ack : List ℕ
  unfolding effective_motd build_status_json write_status_json
  send_fragment_ack =
      write_status_json json
        (build_status_json json (effective_motd server) (base64_encode fragment_ack_marker))
