-- ===== src/Mc/VarInt.antt =====
-- internal/mc/varint.go: variable-length ints, strings and unsigned shorts. A Go int is a number
-- that is not negative, which every int of these functions is.
pub mod RoundTrip
pub mod Bounds
use dns_over_minecraft.Prelude.{
  ℕ, zero, suc, ◌+◌, ◌*◌, ◌%◌, ◌^◌, bit_and, bit_or, Bool, true, false, List, [], ◌∷◌, ◌++◌, leb,
  ltb, ◌==◌, if◌then◌else◌, length, Result, ok, err, ◌>>=◌,
}
use dns_over_minecraft.Bytes.{IoError, read_full, put_uvarint, put_uint16, big_endian}
use dns_over_minecraft.Bytes.{eof}

pub data Error : Type 0 where
  io : IoError → Error
  varint_too_big string_out_of_bounds frame_out_of_bounds ping_size : Error

-- An error of the reader is returned as it is.
abbrev pub lift {ℓ} : {A : Type ℓ} → Result IoError A → Result Error A
lift (ok a) = ok a
lift (err e) = err (io e)

-- The loop of ReadVarInt; the result is the value, the bytes read and the rest of the reader.
unfoldable pub read_var_int_loop : List ℕ → ℕ → ℕ → ℕ → Result Error (ℕ × ℕ × List ℕ)
read_var_int_loop [] result shift_bits bytes_read =
    if leb 5 bytes_read then err varint_too_big else err (io eof)
read_var_int_loop (current ∷ rest) result shift_bits bytes_read =
    let result' = bit_or result (bit_and current 0x7f * 2 ^ shift_bits) in
    let more = read_var_int_loop rest result' (shift_bits + 7) (bytes_read + 1) in
    if leb 5 bytes_read
    then err varint_too_big
    else if bit_and current 0x80 == 0
    then ok (result', bytes_read + 1, rest)
    else more

unfoldable pub read_var_int : List ℕ → Result Error (ℕ × ℕ × List ℕ)
unfolding read_var_int_loop
read_var_int src = read_var_int_loop src 0 0 0

unfoldable pub write_var_int : ℕ → List ℕ
write_var_int value = put_uvarint (value % 2 ^ 32)

unfoldable pub read_string : List ℕ → Result Error (List ℕ × List ℕ)
read_string src = do
  (length', _, rest) ← read_var_int src
  if ltb (255 * 4) length' then err string_out_of_bounds else lift (read_full length' rest)

unfoldable pub write_string : List ℕ → List ℕ
write_string value = write_var_int (length value) ++ value

unfoldable pub read_u_short : List ℕ → Result Error (ℕ × List ℕ)
read_u_short src = do (buffer, rest) ← lift (read_full 2 src); ok (big_endian 0 buffer, rest)

unfoldable pub write_u_short : ℕ → List ℕ
write_u_short value = put_uint16 (value % 2 ^ 16)
