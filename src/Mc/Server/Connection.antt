-- ===== src/Mc/Server/Connection.antt =====
-- internal/mc/server.go: handleConn and handleFragmentConnection.
use dns_over_minecraft.Prelude.{
  ℕ, ◌/◌, ◌%◌, ◌^◌, Bool, true, false, ◌&&◌, not, List, [], ◌∷◌, ◌++◌, ltb, ◌==◌, if◌then◌else◌,
  Option, none, some, length, bytes_eq, ok, err,
}
use dns_over_minecraft.Text.{split_dots}
use dns_over_minecraft.Dns.{Msg, DnsLibrary}
use dns_over_minecraft.Codec.Opt.{build_error_response, format_error, server_failure}
use dns_over_minecraft.Codec.Query.{strip_suffix, decode_query}
use dns_over_minecraft.Codec.Status.{JsonLibrary}
use dns_over_minecraft.Resolver.{Pool, resolve}
use dns_over_minecraft.Mc.RateLimit.{IpRateLimiter, allow}
use dns_over_minecraft.Mc.Fragment.{
  FragmentKey, FragmentSet, add, put_set, reassemble, store_result, wait_result,
}
use dns_over_minecraft.Mc.Address.{extract_passphrase, is_fragmented, fragment_parts}
use dns_over_minecraft.Mc.Frame.{
  Handshake, read_frame_limit, parse_handshake, encode_status_response_json,
}
use dns_over_minecraft.Mc.Server.{
  Server, State, Visit, effective_max_frame_size, handle_ping, handle_login, vanilla_status_json,
  reject_and_close, send_dns_response, send_fragment_ack,
}

-- The budget of the client's address, if there is a rate limiter.
unfoldable pub check_rate : Option IpRateLimiter → ℕ → List ℕ → Option IpRateLimiter × Bool
unfolding allow
check_rate none now ip = (none, true)
check_rate (some limiter) now ip =
    let (limiter', passes) = allow limiter now ip in (some limiter', passes)

-- `hasSuffix`: the address ends with the suffix of the server.
unfoldable pub has_server_suffix : Server → List ℕ → Bool
unfolding strip_suffix bytes_eq
has_server_suffix server address =
    ltb 0 (length server.suffix) && not (bytes_eq (strip_suffix address server.suffix) address)

-- The passphrase check: the address behind it, or that of a server without a passphrase.
unfoldable pub checked_address : List ℕ → List ℕ → Option (List ℕ)
unfolding extract_passphrase
checked_address bare_address [] = some bare_address
checked_address bare_address (b ∷ passphrase) = extract_passphrase bare_address (b ∷ passphrase)

module _ (dns : DnsLibrary) (json : JsonLibrary) (server : Server) where
  -- A DNS response, and then the ping.
  unfoldable pub answer_with : Msg → List ℕ → List ℕ
  unfolding send_dns_response handle_ping
  answer_with response_message src =
      send_dns_response dns json server response_message ++ handle_ping server src

  -- The response of a connection that waited for the completer.
  unfoldable pub awaited_response : Option (Option Msg) → List ℕ → List ℕ
  unfolding answer_with build_error_response
  awaited_response none src = answer_with (build_error_response dns none server_failure) src
  awaited_response (some none) src = answer_with (build_error_response dns none server_failure) src
  awaited_response (some (some response_message)) src = answer_with response_message src

module _ {P : Type 0} (dns : DnsLibrary) (json : JsonLibrary) (wave : ℕ → ℕ → ℕ → ℕ → ℕ)
    (pool : Pool P) (server : Server) where
  -- The completer of a fragment set resolves the query, and stores its result in the set.
  unfoldable pub complete_set : State P → Visit → FragmentKey → FragmentSet → State P × Msg
  unfolding decode_query reassemble store_result put_set resolve build_error_response
  complete_set st visit key set = elim (decode_query dns (reassemble set) []) [
    | err _ ↦
        let response_message = build_error_response dns none server_failure in
        (
          record st {
            fragments = put_set key (store_result set (some response_message) true) st.fragments;
          },
          response_message,
        )
    | ok query_message ↦
        let (resolver', response_message) =
          resolve dns pool st.resolver visit.clock query_message in
        (
          record st {
            resolver = resolver';
            fragments = put_set key (store_result set (some response_message) false) st.fragments;
          },
          response_message,
        )
  ]

  -- The switch of handleFragmentConnection, behind `add`.
  unfoldable pub fragment_added :
      State P → Visit → FragmentKey → FragmentSet → Bool → Bool → List ℕ → State P × List ℕ
  unfolding complete_set awaited_response wait_result answer_with send_fragment_ack handle_ping
  fragment_added st visit key set true is_last src =
      let (st', response_message) = complete_set st visit key set in
      (st', answer_with dns json server response_message src)
  fragment_added st visit key set false true src =
      (st, awaited_response dns json server (wait_result visit.awaited) src)
  fragment_added st visit key set false false src =
      (st, send_fragment_ack dns json server ++ handle_ping server src)

  -- An address without the parts that isFragmented asks for does not come here.
  unfoldable pub handle_fragment_connection :
      State P → Visit → Handshake → List ℕ → List ℕ → State P × List ℕ
  unfolding fragment_parts add fragment_added
  handle_fragment_connection st visit handshake bare_address src =
      elim (fragment_parts (split_dots bare_address)) [
        | none ↦ (st, [])
        | some (nonce, piece) ↦
            let index = handshake.server_port / 2 ^ 8 in
            let total = handshake.server_port % 2 ^ 8 in
            let key : FragmentKey = record { client_ip = visit.client_ip; nonce = nonce } in
            let (sets, set, completer) = add st.fragments visit.added_at key index total piece in
            fragment_added (record st { fragments = sets }) visit key set completer (index == total)
              src
      ]

  -- An address that DecodeQuery refuses: an error response if it has the suffix of the server, and
  -- otherwise that of a normal Minecraft server.
  unfoldable pub not_a_query : Visit → Handshake → List ℕ → List ℕ
  unfolding has_server_suffix answer_with build_error_response vanilla_status_json handle_ping
  not_a_query visit handshake src =
      if has_server_suffix server handshake.server_address
      then answer_with dns json server (build_error_response dns none format_error) src
      else encode_status_response_json (vanilla_status_json json wave server visit)
        ++ handle_ping server src

  -- Behind the passphrase: a fragment, a query, or neither.
  unfoldable pub handle_address : State P → Visit → Handshake → List ℕ → List ℕ → State P × List ℕ
  unfolding is_fragmented handle_fragment_connection decode_query not_a_query resolve answer_with
  handle_address st visit handshake bare_address src =
      if is_fragmented handshake bare_address
      then handle_fragment_connection st visit handshake bare_address src
      else elim (decode_query dns bare_address []) [
        | err _ ↦ (st, not_a_query visit handshake src)
        | ok query_message ↦
            let (resolver', response_message) =
              resolve dns pool st.resolver visit.clock query_message in
            (record st { resolver = resolver' }, answer_with dns json server response_message src)
      ]

  -- The server address of a status request, behind the status request frame.
  unfoldable pub handle_status : State P → Visit → Handshake → List ℕ → State P × List ℕ
  unfolding strip_suffix checked_address reject_and_close handle_address
  handle_status st visit handshake src =
      elim (checked_address (strip_suffix handshake.server_address server.suffix)
        server.passphrase) [
          | none ↦ (st, reject_and_close json wave server visit src true)
          | some bare_address ↦ handle_address st visit handshake bare_address src
        ]

  -- `switch handshake.NextState`, and the status request frame.
  unfoldable pub handle_handshake : State P → Visit → Handshake → List ℕ → State P × List ℕ
  unfolding handle_login handle_status effective_max_frame_size
  handle_handshake st visit handshake src =
      if handshake.next_state == 2
      then (st, handle_login server src)
      else if handshake.next_state == 1
      then elim (read_frame_limit src (effective_max_frame_size server)) [
        | err _ ↦ (st, [])
        | ok (packet_id, payload, rest) ↦
            if packet_id == 0 then handle_status st visit handshake rest else (st, [])
      ]
      else (st, [])

  -- handleConn behind the rate limiter.
  unfoldable pub handle_frames : State P → Visit → List ℕ → State P × List ℕ
  unfolding handle_handshake effective_max_frame_size
  handle_frames st visit src = elim (read_frame_limit src (effective_max_frame_size server)) [
    | err _ ↦ (st, [])
    | ok (packet_id, payload, rest) ↦
        if packet_id == 0
        then elim (parse_handshake payload) [
          | err _ ↦ (st, [])
          | ok handshake ↦ handle_handshake st visit handshake rest
        ]
        else (st, [])
  ]

  unfoldable pub handle_conn : State P → Visit → List ℕ → State P × List ℕ
  unfolding check_rate reject_and_close handle_frames
  handle_conn st visit src =
      let (limiter, passes) = check_rate st.rate_limiter visit.allowed_at visit.client_ip in
      let st' = record st { rate_limiter = limiter } in
      if passes
      then handle_frames st' visit src
      else (st', reject_and_close json wave server visit src false)
