-- ===== src/Mc/Frame/Client.antt =====
-- The status response between internal/mc/status.go (the server writes it) and `exchange` in
-- internal/mc/client.go (the client takes the JSON text out).
use dns_over_minecraft.Prelude.{
  ℕ, suc, ◌+◌, ◌/◌, ◌%◌, ◌^◌, ◌<◌, ◌≤◌, ◌≡◌, ◌≢◌, ◌↔◌, ap, ◌∙◌, arith, List, [], ◌∷◌, ◌++◌, length,
  ok, Bool-cases, ltb, ◌==◌, if◌then◌else◌, inl, inr,
}
use dns_over_minecraft.Prelude.Bits.{bit_or_0x80}
use dns_over_minecraft.Bytes.{put_uvarint_loop, put_uvarint}
use dns_over_minecraft.Mc.VarInt.{write_var_int, write_string}
use dns_over_minecraft.Mc.VarInt.RoundTrip.{read_var_int-write_var_int, take_all}
use dns_over_minecraft.Mc.Frame.{
  read_frame, encode_status_response_json, status_json, status_string,
}
use dns_over_minecraft.Mc.Frame.RoundTrip.{
  read_frame_limit-write_frame, encode_status_response_json_lem, length-write_string,
}

-- The first byte of a length is an opening brace, 123, exactly when the length is 123.
first_byte :
    (f w : ℕ)
    → (b : ℕ) × (bs : List ℕ) × (put_uvarint_loop (suc f) w ≡ b ∷ bs) × ((b ≡ 123) ↔ (w ≡ 123))
unfolding put_uvarint_loop
first_byte f w = elim (Bool-cases (ltb w 128)) [
  | inl small ↦ (w % 256, [], rw small, ground arith)
  | inr large ↦ (
    w % 128 + 128,
    put_uvarint_loop f (w / 128),
    ground (arith, bit_or_0x80 (w % 256)),
    ground arith,
  )
]

status_string-write_string :
    (json : List ℕ) → length json < 2 ^ 32 → status_string (write_string json) ≡ json
unfolding status_string write_string
status_string-write_string json h =
    rw (read_var_int-write_var_int (length json) json h, status_string)
      (ground (arith, take_all json))

status_json_cons :
    (p : List ℕ) (b : ℕ) (bs : List ℕ)
    → p ≡ b ∷ bs
    → status_json p ≡ (if b == 123 then p else status_string p)
unfolding status_json
status_json_cons p b bs e = rw e

status_json-write_string_cases :
    (json : List ℕ)
    → length json < 2 ^ 32
    → status_json (write_string json) ≡ (if length json == 123 then write_string json else json)
unfolding write_string write_var_int put_uvarint
status_json-write_string_cases json h =
    let (b, bs, e, brace) = first_byte 9 (length json % 2 ^ 32) in
    ground (
      arith,
      brace,
      status_string-write_string json h,
      status_json_cons (write_string json) b (bs ++ json) (ap (λ t. t ++ json) e),
    )

-- The client takes the JSON text out of the payload, at every length but 123 bytes.
pub status_json-write_string :
    (json : List ℕ)
    → length json < 2 ^ 32
    → length json ≢ 123
    → status_json (write_string json) ≡ json
status_json-write_string json h other = ground (arith, status_json-write_string_cases json h)

-- A JSON text of 123 bytes has the length prefix `{`, so the client keeps the prefix in the text.
pub status_json_brace :
    (json : List ℕ) → length json ≡ 123 → status_json (write_string json) ≡ b'{' ∷ json
unfolding write_string write_var_int put_uvarint put_uvarint_loop
status_json_brace json e = status_json-write_string_cases json (omega arith) ∙ rw e

-- The status response of the server reaches the client: the frame is read with packet id 0, and
-- the JSON text comes out of its payload, if the text is not 123 bytes and, with 6 bytes more,
-- fits the limit of 2 ^ 20.
pub status_response_received :
    (json rest : List ℕ)
    → length json + 6 ≤ 2 ^ 20
    → length json ≢ 123
    → (payload : List ℕ) × (read_frame (encode_status_response_json json ++ rest)
        ≡ ok (0, payload, rest))
      × (status_json payload ≡ json)
unfolding read_frame write_var_int put_uvarint put_uvarint_loop
status_response_received json rest fits other = (
  write_string json,
  rw (encode_status_response_json_lem json) (
      read_frame_limit-write_frame (2 ^ 20) 0 (write_string json) rest (omega arith) (omega arith)
        (omega (arith, length-write_string json))),
  status_json-write_string json (omega arith) other,
)
