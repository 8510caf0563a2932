-- ===== src/Mc/Frame.antt =====
-- internal/mc/frame.go and the framing of internal/mc/status.go: frames, the handshake, the login
-- disconnect and ping packets. Byte buffers and strings are byte strings.
pub mod RoundTrip
pub mod Client
use dns_over_minecraft.Prelude.{
  ℕ, suc, ◌+◌, ◌%◌, ◌^◌, Bool, true, false, ◌||◌, List, [], ◌∷◌, ◌++◌, leb, ltb, ◌==◌,
  if◌then◌else◌, length, take, Result, ok, err, ◌>>=◌,
}
use dns_over_minecraft.Bytes.{read_full, put_uint64, big_endian}
use dns_over_minecraft.Mc.VarInt.{
  Error, frame_out_of_bounds, ping_size, lift, read_var_int, write_var_int, read_string,
  write_string, read_u_short, write_u_short,
}

-- The packet id, the data behind it, and the reader after the frame.
unfoldable pub read_frame_limit : List ℕ → ℕ → Result Error (ℕ × List ℕ × List ℕ)
read_frame_limit src max_frame_size = do
  (length', _, rest) ← read_var_int src
  if length' == 0 || ltb max_frame_size length' then err frame_out_of_bounds else do
    (frame, rest') ← lift (read_full length' rest)
    (packet_id, _, remaining) ← read_var_int frame
    ok (packet_id, remaining, rest')

unfoldable pub read_frame : List ℕ → Result Error (ℕ × List ℕ × List ℕ)
unfolding read_frame_limit
read_frame src = read_frame_limit src (2 ^ 20)

unfoldable pub write_frame : ℕ → List ℕ → List ℕ
write_frame packet_id content =
    let packet_id_bytes = write_var_int packet_id in
    let frame_length = length packet_id_bytes + length content in
    (write_var_int frame_length ++ packet_id_bytes) ++ content

pub record Handshake : Type 0 where
  pub protocol_version : ℕ
  pub server_address : List ℕ
  pub server_port : ℕ
  pub next_state : ℕ

unfoldable pub parse_handshake : List ℕ → Result Error Handshake
parse_handshake payload = do
  (protocol_version, _, r1) ← read_var_int payload
  (server_address, r2) ← read_string r1
  (server_port, r3) ← read_u_short r2
  (next_state, _, _) ← read_var_int r3
  ok (record {
    protocol_version = protocol_version;
    server_address = server_address;
    server_port = server_port;
    next_state = next_state;
  })

unfoldable pub encode_handshake : Handshake → List ℕ
encode_handshake h = write_frame 0 (
    write_var_int h.protocol_version
    ++ (write_string h.server_address
        ++ (write_u_short h.server_port ++ write_var_int h.next_state)))

unfoldable pub encode_status_request : List ℕ
encode_status_request = write_frame 0 []

unfoldable pub encode_login_disconnect : List ℕ → List ℕ
encode_login_disconnect reason_json = write_frame 0 (write_string reason_json)

-- A timestamp is the bit pattern of its int64.
unfoldable pub decode_ping : List ℕ → Result Error ℕ
decode_ping payload = if length payload == 8 then ok (big_endian 0 payload) else err ping_size

unfoldable pub encode_ping : ℕ → List ℕ
encode_ping timestamp = write_frame 1 (put_uint64 timestamp)

unfoldable pub encode_pong : ℕ → List ℕ
unfolding encode_ping
encode_pong timestamp = encode_ping timestamp

-- EncodeStatusResponseJSON of status.go.
unfoldable pub encode_status_response_json : List ℕ → List ℕ
encode_status_response_json raw_json =
    let frame_body = write_var_int 0 ++ write_string raw_json in
    write_var_int (length frame_body) ++ frame_body

-- The branch of `exchange` in client.go for a payload that does not begin with a brace.
unfoldable pub status_string : List ℕ → List ℕ
status_string payload = elim (read_var_int payload) [
  | ok (length', _, remaining) ↦
      if leb length' (length remaining) then take length' remaining else remaining
  | err _ ↦ payload
]

-- What `exchange` of client.go takes for the JSON text in the payload of a status response.
unfoldable pub status_json : List ℕ → List ℕ
status_json [] = status_string []
status_json (b ∷ bs) = if b == b'{' then b ∷ bs else status_string (b ∷ bs)
