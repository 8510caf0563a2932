-- ===== src/Bytes.antt =====
-- What the program uses of Go's io and encoding/binary, over byte strings. A reader is the list of
-- the bytes not yet read.
pub mod Uvarint
pub mod Words
use dns_over_minecraft.Prelude.{
  ℕ, zero, suc, ◌+◌, ◌*◌, ◌/◌, ◌%◌, ◌^◌, ◌<◌, bit_and, bit_or, Bool, true, false, ◌&&◌, List, [],
  ◌∷◌, ◌++◌, leb, ltb, ◌==◌, if◌then◌else◌, length, take, drop, Result, ok, err,
}

abbrev pub IsByte : ℕ → Type 0
IsByte b = b < 256

pub data IoError : Type 0 where
  eof unexpected_eof overflow : IoError

-- `reader.ReadByte()`
unfoldable pub read_byte : List ℕ → Result IoError (ℕ × List ℕ)
read_byte [] = err eof
read_byte (b ∷ rest) = ok (b, rest)

-- `io.ReadFull` into a buffer of `n` bytes.
unfoldable pub read_full : ℕ → List ℕ → Result IoError (List ℕ × List ℕ)
read_full n src =
    if leb n (length src)
    then ok (take n src, drop n src)
    else if length src == 0
    then err eof
    else err unexpected_eof

-- `binary.PutUvarint`: seven bits a byte, lowest first; a uint64 takes at most ten bytes.
unfoldable pub put_uvarint_loop : ℕ → ℕ → List ℕ
put_uvarint_loop zero x = []
put_uvarint_loop (suc fuel) x =
    let more = bit_or (x % 256) 0x80 ∷ put_uvarint_loop fuel (x / 128) in
    if ltb x 128 then (x % 256) ∷ [] else more

unfoldable pub put_uvarint : ℕ → List ℕ
unfolding put_uvarint_loop
put_uvarint x = put_uvarint_loop 10 x

-- `binary.ReadUvarint`: `x` is the value so far, `s` the shift, `i` the bytes read.
unfoldable pub read_uvarint_loop : List ℕ → ℕ → ℕ → ℕ → Result IoError (ℕ × List ℕ)
read_uvarint_loop [] x s i =
    if i == 10 then err overflow else if i == 0 then err eof else err unexpected_eof
read_uvarint_loop (b ∷ rest) x s i =
    let more =
      read_uvarint_loop rest (bit_or x (bit_and b 0x7f * 2 ^ s % 2 ^ 64)) (s + 7) (i + 1) in
    if i == 10
    then err overflow
    else if ltb b 0x80
    then (if i == 9 && ltb 1 b then err overflow else ok (bit_or x (b * 2 ^ s % 2 ^ 64), rest))
    else more

unfoldable pub read_uvarint : List ℕ → Result IoError (ℕ × List ℕ)
unfolding read_uvarint_loop
read_uvarint src = read_uvarint_loop src 0 0 0

-- `binary.BigEndian` and `writeUint16`: the bytes of a word, highest first.
unfoldable pub put_uint16 : ℕ → List ℕ
put_uint16 v = (v / 256 % 256) ∷ (v % 256) ∷ []

unfoldable pub put_uint32 : ℕ → List ℕ
put_uint32 v = (v / 2 ^ 24 % 256) ∷ (v / 2 ^ 16 % 256) ∷ (v / 2 ^ 8 % 256) ∷ (v % 256) ∷ []

unfoldable pub put_uint64 : ℕ → List ℕ
unfolding put_uint32
put_uint64 v = put_uint32 (v / 2 ^ 32) ++ put_uint32 v

-- The word that a byte string spells, highest byte first.
unfoldable pub big_endian : ℕ → List ℕ → ℕ
big_endian acc [] = acc
big_endian acc (b ∷ bs) = big_endian (acc * 256 + b) bs
