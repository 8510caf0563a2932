-- ===== src/Mc/Server/Reads.antt =====
-- internal/mc/server.go: the frames of a client are read as the client wrote them.
use dns_over_minecraft.Prelude.{
  ℕ, ◌^◌, ◌<◌, ◌≤◌, ◌≡◌, refl, arith, List, [], ◌++◌, some, length, ok,
}
use dns_over_minecraft.Dns.{DnsLibrary}
use dns_over_minecraft.Codec.Status.{JsonLibrary}
use dns_over_minecraft.Resolver.{Pool}
use dns_over_minecraft.Mc.VarInt.RoundTrip.{length-write_var_int}
use dns_over_minecraft.Mc.Frame.{
  Handshake, read_frame_limit, parse_handshake, encode_handshake, encode_status_request,
}
use dns_over_minecraft.Mc.Frame.RoundTrip.{read-encode_handshake, read_frame_limit-write_frame}
use dns_over_minecraft.Mc.Server.{Server, State, Visit, effective_max_frame_size, drain_frames}
use dns_over_minecraft.Mc.Server.Connection.{handle_frames, handle_handshake, handle_status}

-- A status handshake that the protocol can carry.
pub record IsStatusHandshake (h : Handshake) : Type 0 where
  pub protocol_fits : h.protocol_version < 2 ^ 32
  pub address_fits : length h.server_address ≤ 1020
  pub port_fits : h.server_port < 2 ^ 16
  pub asks_status : h.next_state ≡ 1

-- The frame limit of a server that admits every handshake.
abbrev pub AdmitsHandshakes : Server → Type 0
AdmitsHandshakes server =
    (1042 ≤ effective_max_frame_size server) × (effective_max_frame_size server < 2 ^ 32)

pub read-encode_status_request :
    (limit : ℕ) (rest : List ℕ)
    → 1042 ≤ limit
    → limit < 2 ^ 32
    → read_frame_limit (encode_status_request ++ rest) limit ≡ ok (0, [], rest)
unfolding encode_status_request
read-encode_status_request limit rest lo hi =
    read_frame_limit-write_frame limit 0 [] rest (omega arith) hi
      (omega (arith, length-write_var_int 0))

module _ (server : Server) (admits : AdmitsHandshakes server) where
  pub read_handshake_frame :
      (h : Handshake) (rest : List ℕ)
      → IsStatusHandshake h
      → (payload : List ℕ) × (read_frame_limit
            (encode_handshake h ++ rest)
            (effective_max_frame_size server)
          ≡ ok (0, payload, rest))
        × (parse_handshake payload ≡ ok h)
  read_handshake_frame h rest is =
      read-encode_handshake (effective_max_frame_size server) h rest is.protocol_fits
        is.address_fits is.port_fits (omega (arith, is.asks_status)) admits.0 admits.1

  pub drain_frames_lem :
      (h : Handshake) (rest : List ℕ)
      → IsStatusHandshake h
      → drain_frames server (encode_handshake h ++ (encode_status_request ++ rest)) ≡ some rest
  unfolding drain_frames
  drain_frames_lem h rest is =
      let (payload, reads, parses) = read_handshake_frame h (encode_status_request ++ rest) is in
      rw
        (
          reads,
          read-encode_status_request (effective_max_frame_size server) rest admits.0 admits.1,
          drain_frames,
        )
        refl

  pub handle_frames_lem :
      {P : Type 0} (dns : DnsLibrary) (json : JsonLibrary) (wave : ℕ → ℕ → ℕ → ℕ → ℕ)
      (pool : Pool P) (st : State P) (visit : Visit) (h : Handshake) (rest : List ℕ)
      → IsStatusHandshake h
      → handle_frames dns json wave pool server st visit
          (encode_handshake h ++ (encode_status_request ++ rest))
        ≡ handle_status dns json wave pool server st visit h rest
  unfolding handle_frames handle_handshake
  handle_frames_lem dns json wave pool st visit h rest is =
      let (payload, reads, parses) = read_handshake_frame h (encode_status_request ++ rest) is in
      rw
        (
          reads,
          parses,
          handle_frames,
          is.asks_status,
          read-encode_status_request (effective_max_frame_size server) rest admits.0 admits.1,
          handle_handshake,
        )
        refl
