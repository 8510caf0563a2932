-- ===== src/Mc/VarInt/Bounds.antt =====
-- internal/mc/varint.go: what ReadVarInt can return, on any input.
use dns_over_minecraft.Prelude.{
  ℕ, ◌+◌, ◌*◌, ◌%◌, ◌^◌, ◌<◌, ◌≤◌, ◌≡◌, ap, arith, List, [], ◌∷◌, length, ok, All,
}
use dns_over_minecraft.Prelude.Bits.{bit_and_0x7f, bit_or_shift}
use dns_over_minecraft.Bytes.{IsByte}
use dns_over_minecraft.Bytes.Uvarint.{group_fits}
use dns_over_minecraft.Mc.VarInt.{read_var_int_loop, read_var_int}

bounded_loop :
    (src : List ℕ) (x s i v n : ℕ) (rest : List ℕ)
    → All IsByte src
    → s ≡ 7 * i
    → x < 2 ^ s
    → read_var_int_loop src x s i ≡ ok (v, n, rest)
    → (v < 2 ^ (7 * n)) × (i < n) × (n ≤ 5) × (length src + i ≡ length rest + n)
unfolding read_var_int_loop
bounded_loop [] x s i v n rest hb hs hx e = ground arith
bounded_loop (b ∷ src) x s i v n rest hb hs hx e = ground (
  arith,
  bit_and_0x7f b,
  bit_or_shift s x (b % 128),
  group_fits x (b % 128) s,
  shifted,
  bounded_loop src (x + b % 128 * 2 ^ s) (s + 7) (i + 1) v n rest hb.1,
)
  where
    shifted : 2 ^ (s + 7) ≡ 2 ^ (7 * (i + 1))
    shifted = ap (λ (t : ℕ). 2 ^ t) (omega arith)

-- On any bytes, a ReadVarInt that succeeds took one to five bytes from the front and returns a
-- number of at most seven bits for each.
pub read_var_int_bounds :
    (src : List ℕ) (v n : ℕ) (rest : List ℕ)
    → All IsByte src
    → read_var_int src ≡ ok (v, n, rest)
    → (v < 2 ^ (7 * n)) × (0 < n) × (n ≤ 5) × (length src ≡ length rest + n)
unfolding read_var_int
read_var_int_bounds src v n rest hb e = ground (arith, bounded_loop src 0 0 0 v n rest hb)
