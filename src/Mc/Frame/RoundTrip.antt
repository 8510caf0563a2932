-- ===== src/Mc/Frame/RoundTrip.antt =====
-- internal/mc/frame.go: a frame that is written is read back whole, and no longer frame is read.
use dns_over_minecraft.Prelude.{
  ℕ, ◌+◌, ◌^◌, ◌<◌, ◌≤◌, ◌≡◌, ap, arith, List, [], ◌++◌, length, ok, err, length-append,
}
use dns_over_minecraft.Bytes.{read_full, put_uint16, put_uint64}
use dns_over_minecraft.Bytes.Words.{big_endian-put_uint64}
use dns_over_minecraft.Mc.VarInt.{
  frame_out_of_bounds, read_var_int, write_var_int, write_string, write_u_short,
}
use dns_over_minecraft.Mc.VarInt.RoundTrip.{
  read_var_int-write_var_int, length-write_var_int, read_full_append, read_string-write_string,
  read_u_short-write_u_short,
}
use dns_over_minecraft.Mc.Frame.{
  read_frame_limit, write_frame, Handshake, parse_handshake, encode_handshake, decode_ping,
  encode_ping, encode_status_response_json,
}
use mathlib.Core.List.{append_assoc, append-nil}

read_full_two :
    (xs ys rest : List ℕ)
    → read_full (length xs + length ys) (xs ++ (ys ++ rest)) ≡ ok (xs ++ ys, rest)
read_full_two xs ys rest =
    rw (← length-append xs ys, ← append_assoc xs ys rest) (read_full_append (xs ++ ys) rest)

-- A frame with a packet id of 32 bits that fits a limit below 2 ^ 32 is read back: the packet id,
-- its data, and what follows the frame.
pub read_frame_limit-write_frame :
    (limit packet_id : ℕ) (content rest : List ℕ)
    → packet_id < 2 ^ 32
    → limit < 2 ^ 32
    → length (write_var_int packet_id) + length content ≤ limit
    → read_frame_limit (write_frame packet_id content ++ rest) limit ≡ ok (packet_id, content, rest)
unfolding read_frame_limit write_frame
read_frame_limit-write_frame limit packet_id content rest hp hl fits =
    let p = write_var_int packet_id in
    let n = length p + length content in
    rw (append_assoc, append_assoc)
      (ground (
        arith,
        length-write_var_int packet_id,
        read_var_int-write_var_int n (p ++ (content ++ rest)),
        read_full_two p content rest,
        read_var_int-write_var_int packet_id content hp,
      ))

-- A frame whose length, of 32 bits, is above the limit is refused, whatever follows the length.
pub read_frame_limit_refuses :
    (limit n : ℕ) (rest : List ℕ)
    → n < 2 ^ 32
    → limit < n
    → read_frame_limit (write_var_int n ++ rest) limit ≡ err frame_out_of_bounds
unfolding read_frame_limit
read_frame_limit_refuses limit n rest h k = rw (read_var_int-write_var_int n rest h) (ground arith)

abbrev handshake_body : Handshake → List ℕ
handshake_body h =
    write_var_int h.protocol_version
    ++ (write_string h.server_address
        ++ (write_u_short h.server_port ++ write_var_int h.next_state))

read_var_int_end :
    (v : ℕ) → v < 2 ^ 32 → read_var_int (write_var_int v) ≡ ok (v, length (write_var_int v), [])
read_var_int_end v h = rw append-nil at (read_var_int-write_var_int v [] h)

length-put_uint64 : (t : ℕ) → length (put_uint64 t) ≡ 8
unfolding put_uint64
length-put_uint64 t = omega arith

parse_handshake_body :
    (h : Handshake)
    → h.protocol_version < 2 ^ 32
    → length h.server_address ≤ 1020
    → h.server_port < 2 ^ 16
    → h.next_state < 2 ^ 32
    → parse_handshake (handshake_body h) ≡ ok h
unfolding parse_handshake
parse_handshake_body h hv ha hp hn =
    let r3 = write_var_int h.next_state in
    let r2 = write_u_short h.server_port ++ r3 in
    ground (
      arith,
      read_var_int-write_var_int h.protocol_version (write_string h.server_address ++ r2) hv,
      read_string-write_string h.server_address r2 ha,
      read_u_short-write_u_short h.server_port r3 hp,
      read_var_int_end h.next_state hn,
    )

pub length-write_string : (s : List ℕ) → length (write_string s) ≤ length s + 5
unfolding write_string
length-write_string s =
    omega (arith, length-append (write_var_int (length s)) s, length-write_var_int (length s))

length-handshake_body : (h : Handshake) → length (handshake_body h) ≤ length h.server_address + 17
unfolding write_u_short put_uint16
length-handshake_body h =
    let r3 = write_var_int h.next_state in
    let r2 = write_u_short h.server_port ++ r3 in
    omega (
      arith,
      length-append (write_var_int h.protocol_version) (write_string h.server_address ++ r2),
      length-append (write_string h.server_address) r2,
      length-write_string h.server_address,
      length-write_var_int h.protocol_version,
      length-write_var_int h.next_state,
    )

-- The server reads the handshake that the client wrote, if its address has at most 1020 bytes and
-- its numbers have the widths of the protocol: under any limit from 1042 to below 2 ^ 32 the frame
-- has packet id 0 and parses to the same handshake.
pub read-encode_handshake :
    (limit : ℕ) (h : Handshake) (rest : List ℕ)
    → h.protocol_version < 2 ^ 32
    → length h.server_address ≤ 1020
    → h.server_port < 2 ^ 16
    → h.next_state < 2 ^ 32
    → 1042 ≤ limit
    → limit < 2 ^ 32
    → (payload : List ℕ) × (read_frame_limit (encode_handshake h ++ rest) limit
        ≡ ok (0, payload, rest))
      × (parse_handshake payload ≡ ok h)
unfolding encode_handshake
read-encode_handshake limit h rest hv ha hp hn lo hi = (
  handshake_body h,
  read_frame_limit-write_frame limit 0 (handshake_body h) rest (omega arith) hi
      (omega (arith, length-handshake_body h, length-write_var_int 0)),
  parse_handshake_body h hv ha hp hn,
)

-- Under any frame limit from 13 to below 2 ^ 32, a ping comes back from its frame with packet id 1
-- and the same timestamp of 64 bits.
pub decode-encode_ping :
    (limit t : ℕ) (rest : List ℕ)
    → t < 2 ^ 64
    → 13 ≤ limit
    → limit < 2 ^ 32
    → (payload : List ℕ) × (read_frame_limit (encode_ping t ++ rest) limit ≡ ok (1, payload, rest))
      × (decode_ping payload ≡ ok t)
unfolding encode_ping decode_ping
decode-encode_ping limit t rest ht lo hi = (
  put_uint64 t,
  read_frame_limit-write_frame limit 1 (put_uint64 t) rest (omega arith) hi
      (omega (arith, length-put_uint64 t, length-write_var_int 1)),
  rw (length-put_uint64 t) (ap ok (big_endian-put_uint64 t ht)),
)

-- The status response is the frame with packet id 0 around the JSON as a string.
pub encode_status_response_json_lem :
    (json : List ℕ) → encode_status_response_json json ≡ write_frame 0 (write_string json)
unfolding encode_status_response_json write_frame
encode_status_response_json_lem json =
    rw (length-append (write_var_int 0) (write_string json), append_assoc)
