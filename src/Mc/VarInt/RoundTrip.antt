-- ===== src/Mc/VarInt/RoundTrip.antt =====
-- internal/mc/varint.go: what is written is read back, and what follows it is left.
use dns_over_minecraft.Prelude.{
  ℕ, zero, suc, ◌+◌, ◌*◌, ◌/◌, ◌%◌, ◌^◌, ◌<◌, ◌≤◌, ◌≡◌, refl, ap, arith, List, [], ◌∷◌, ◌++◌,
  length, take, ok, err, take-length-append, drop-length-append, length-append,
}
use dns_over_minecraft.Prelude.Bits.{bit_and_0x7f, bit_and_0x80, bit_or_0x80, bit_or_shift}
use dns_over_minecraft.Bytes.{put_uvarint_loop, put_uvarint, read_full, put_uint16}
use dns_over_minecraft.Bytes.Uvarint.{
  split_seven, group_fits, put_uvarint_loop_more, length-put_uvarint_loop,
}
use dns_over_minecraft.Bytes.Words.{big_endian-put_uint16}
use dns_over_minecraft.Mc.VarInt.{
  string_out_of_bounds, read_var_int_loop, read_var_int, write_var_int, read_string, write_string,
  read_u_short, write_u_short,
}
use mathlib.Core.List.{append_assoc}
use native.Mathlib.Nat.{pow-suc}

last_byte :
    (w x s i : ℕ) (rest : List ℕ)
    → w < 128
    → i < 5
    → x < 2 ^ s
    → read_var_int_loop (w ∷ rest) x s i ≡ ok (x + w * 2 ^ s, i + 1, rest)
unfolding read_var_int_loop
last_byte w x s i rest hw hi hx = ground (arith, bit_or_shift s x w, bit_and_0x7f w, bit_and_0x80 w)

inner_byte :
    (g x s i : ℕ) (rest : List ℕ)
    → g < 128
    → i < 5
    → x < 2 ^ s
    → read_var_int_loop ((g + 128) ∷ rest) x s i
      ≡ read_var_int_loop rest (x + g * 2 ^ s) (s + 7) (i + 1)
unfolding read_var_int_loop
inner_byte g x s i rest hg hi hx =
    ground (arith, bit_and_0x7f (g + 128), bit_and_0x80 (g + 128), bit_or_shift s x g)

read_var_int_loop-put :
    (f w x s i : ℕ) (rest : List ℕ)
    → w < 128 ^ suc f
    → f + i < 5
    → x < 2 ^ s
    → read_var_int_loop (put_uvarint_loop (suc f) w ++ rest) x s i
      ≡ ok (x + w * 2 ^ s, i + length (put_uvarint_loop (suc f) w), rest)
unfolding put_uvarint_loop
read_var_int_loop-put zero w x s i rest hw hi hx = ground (arith, last_byte w x s i rest)
read_var_int_loop-put (suc f) w x s i rest hw hi hx = ground (
  arith,
  last_byte w x s i rest,
  bit_or_0x80 (w % 256),
  split_seven w s,
  group_fits x (w % 128) s,
  inner_byte (w % 128) x s i (put_uvarint_loop (suc f) (w / 128) ++ rest),
  read_var_int_loop-put f (w / 128) (x + w % 128 * 2 ^ s) (s + 7) (i + 1) rest
      (omega (arith, pow-suc 128 (suc f))),
)

-- ReadVarInt takes every number of at most 35 bits from its uvarint form, with the count of its
-- bytes, and leaves what follows.
pub read_var_int-put_uvarint :
    (v : ℕ) (rest : List ℕ)
    → v < 2 ^ 35
    → read_var_int (put_uvarint v ++ rest) ≡ ok (v, length (put_uvarint v), rest)
unfolding read_var_int put_uvarint
read_var_int-put_uvarint v rest h =
    rw (put_uvarint_loop_more 4 9 v (omega arith) (omega arith))
      (ground (arith, read_var_int_loop-put 4 v 0 0 0 rest (omega arith)))

pub read_var_int-write_var_int :
    (v : ℕ) (rest : List ℕ)
    → v < 2 ^ 32
    → read_var_int (write_var_int v ++ rest) ≡ ok (v, length (write_var_int v), rest)
unfolding write_var_int
read_var_int-write_var_int v rest h =
    let e : v % 2 ^ 32 ≡ v = omega arith in rw e (read_var_int-put_uvarint v rest (omega arith))

-- WriteVarInt writes one to five bytes: its buffer of five is never overrun.
pub length-write_var_int : (v : ℕ) → (1 ≤ length (write_var_int v)) × (length (write_var_int v) ≤ 5)
unfolding write_var_int put_uvarint
length-write_var_int v =
    rw (put_uvarint_loop_more 4 9 (v % 2 ^ 32) (omega arith) (omega arith))
      (length-put_uvarint_loop 4 (v % 2 ^ 32) (omega arith))

pub read_full_append : (xs rest : List ℕ) → read_full (length xs) (xs ++ rest) ≡ ok (xs, rest)
unfolding read_full
read_full_append xs rest =
    ground (arith, length-append xs rest, take-length-append xs rest, drop-length-append xs rest)

-- ReadString takes a string of at most 1020 bytes from what WriteString wrote, and leaves what
-- follows.
pub read_string-write_string :
    (s rest : List ℕ) → length s ≤ 1020 → read_string (write_string s ++ rest) ≡ ok (s, rest)
unfolding read_string write_string
read_string-write_string s rest h =
    rw (append_assoc, read_var_int-write_var_int (length s) (s ++ rest) (omega arith))
      (ground (arith, read_full_append s rest))

pub read_string_too_long :
    (s rest : List ℕ)
    → 1020 < length s
    → length s < 2 ^ 32
    → read_string (write_string s ++ rest) ≡ err string_out_of_bounds
unfolding read_string write_string
read_string_too_long s rest h k =
    rw (append_assoc, read_var_int-write_var_int (length s) (s ++ rest) k) (ground arith)

read_full-put_uint16 :
    (v : ℕ) (rest : List ℕ) → read_full 2 (put_uint16 v ++ rest) ≡ ok (put_uint16 v, rest)
unfolding put_uint16
read_full-put_uint16 v rest = read_full_append ((v / 256 % 256) ∷ (v % 256) ∷ []) rest

-- ReadUShort takes a number of 16 bits from what WriteUShort wrote, and leaves what follows.
pub read_u_short-write_u_short :
    (v : ℕ) (rest : List ℕ) → v < 2 ^ 16 → read_u_short (write_u_short v ++ rest) ≡ ok (v, rest)
unfolding read_u_short write_u_short
read_u_short-write_u_short v rest h =
    let e : v % 2 ^ 16 ≡ v = omega arith in
    rw (e, read_full-put_uint16 v rest) (ap (λ t. ok (t, rest)) (big_endian-put_uint16 v h))

pub take_all : (xs : List ℕ) → take (length xs) xs ≡ xs
take_all [] = refl
take_all (x ∷ xs) = ap (◌∷◌ x) (take_all xs)
