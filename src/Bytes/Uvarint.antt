-- ===== src/Bytes/Uvarint.antt =====
-- What `put_uvarint` writes, `read_uvarint` reads back.
use dns_over_minecraft.Prelude.{
  ℕ, zero, suc, ◌+◌, ◌*◌, ◌/◌, ◌%◌, ◌^◌, ◌<◌, ◌≤◌, ◌≡◌, ap, arith, List, ◌∷◌, ◌++◌, length, ok, All,
}
use dns_over_minecraft.Prelude.Bits.{bit_and_0x7f, bit_or_0x80, bit_or_shift}
use dns_over_minecraft.Bytes.{
  IsByte, put_uvarint_loop, put_uvarint, read_uvarint_loop, read_uvarint,
}
use native.Mathlib.Nat.{div-add-mod, pow-suc}
use native.Mathlib.Numerals.{towards_suc}

pub pow_seven : (s : ℕ) → 2 ^ (s + 7) ≡ 128 * 2 ^ s
pow_seven s = simp towards_suc (omega arith)

-- The lowest seven bits of `w` and the rest, both behind `s` bits.
pub split_seven : (w s : ℕ) → w * 2 ^ s ≡ w % 128 * 2 ^ s + w / 128 * 2 ^ (s + 7)
split_seven w s = omega (
  arith,
  ap (λ (t : ℕ). t * 2 ^ s) (div-add-mod w 128),
  ap (λ (t : ℕ). w / 128 * t) (pow_seven s),
)

pub group_fits : (x g s : ℕ) → x < 2 ^ s → g < 128 → x + g * 2 ^ s < 2 ^ (s + 7)
group_fits x g s hx hg = rw pow_seven (grind arith)

-- One byte of the loop of `read_uvarint`: the last, and one before it.
last_byte :
    (w x s i : ℕ) (rest : List ℕ)
    → w < 128
    → i < 10
    → (i ≡ 9 → w < 2)
    → x < 2 ^ s
    → x + w * 2 ^ s < 2 ^ 64
    → read_uvarint_loop (w ∷ rest) x s i ≡ ok (x + w * 2 ^ s, rest)
unfolding read_uvarint_loop
last_byte w x s i rest hw hi h9 hx fits = ground (arith, bit_or_shift s x w, h9)

inner_byte :
    (g x s i : ℕ) (rest : List ℕ)
    → g < 128
    → i < 10
    → x < 2 ^ s
    → x + g * 2 ^ s < 2 ^ 64
    → read_uvarint_loop ((g + 128) ∷ rest) x s i
      ≡ read_uvarint_loop rest (x + g * 2 ^ s) (s + 7) (i + 1)
unfolding read_uvarint_loop
inner_byte g x s i rest hg hi hx fits = ground (arith, bit_and_0x7f (g + 128), bit_or_shift s x g)

nine_groups : (w x s i : ℕ) → s ≡ 7 * i → i ≡ 9 → x + w * 2 ^ s < 2 ^ 64 → w < 2
nine_groups w x s i hs hi fits =
    let e : s ≡ 63 = omega arith in
    let fits' : x + w * 2 ^ 63 < 2 ^ 64 = rw e at fits in omega arith

read_uvarint_loop-put :
    (f w x s i : ℕ) (rest : List ℕ)
    → w < 128 ^ suc f
    → f + i < 10
    → s ≡ 7 * i
    → x < 2 ^ s
    → x + w * 2 ^ s < 2 ^ 64
    → read_uvarint_loop (put_uvarint_loop (suc f) w ++ rest) x s i ≡ ok (x + w * 2 ^ s, rest)
unfolding put_uvarint_loop
read_uvarint_loop-put zero w x s i rest hw hi hs hx fits =
    ground (arith, last_byte w x s i rest, nine_groups w x s i hs)
read_uvarint_loop-put (suc f) w x s i rest hw hi hs hx fits = ground (
  arith,
  last_byte w x s i rest,
  nine_groups w x s i hs,
  bit_or_0x80 (w % 256),
  split_seven w s,
  pow-suc 128 (suc f),
  group_fits x (w % 128) s,
  inner_byte (w % 128) x s i (put_uvarint_loop (suc f) (w / 128) ++ rest),
  read_uvarint_loop-put f (w / 128) (x + w % 128 * 2 ^ s) (s + 7) (i + 1) rest
      (omega (arith, pow-suc 128 (suc f))),
)

-- A uint64 is read back, and what follows it is left.
pub read_uvarint-put :
    (v : ℕ) (rest : List ℕ) → v < 2 ^ 64 → read_uvarint (put_uvarint v ++ rest) ≡ ok (v, rest)
unfolding read_uvarint put_uvarint
read_uvarint-put v rest h = ground (arith, read_uvarint_loop-put 9 v 0 0 0 rest)

pub put_uvarint_loop-IsByte : (f w : ℕ) → All IsByte (put_uvarint_loop f w)
unfolding put_uvarint_loop
put_uvarint_loop-IsByte zero w = tt
put_uvarint_loop-IsByte (suc f) w =
    ground (arith, bit_or_0x80 (w % 256), put_uvarint_loop-IsByte f (w / 128))

pub length-put_uvarint_loop :
    (f w : ℕ)
    → w < 128 ^ suc f
    → (1 ≤ length (put_uvarint_loop (suc f) w)) × (length (put_uvarint_loop (suc f) w) ≤ suc f)
unfolding put_uvarint_loop
length-put_uvarint_loop zero w h = ground arith
length-put_uvarint_loop (suc f) w h = ground (
  arith,
  pow-suc 128 (suc f),
  length-put_uvarint_loop f (w / 128) (omega (arith, pow-suc 128 (suc f))),
)

-- More fuel than a number has groups changes nothing.
pub put_uvarint_loop_more :
    (f g w : ℕ) → w < 128 ^ suc f → f ≤ g → put_uvarint_loop (suc g) w ≡ put_uvarint_loop (suc f) w
unfolding put_uvarint_loop
put_uvarint_loop_more zero g w h k = ground arith
put_uvarint_loop_more (suc f) zero w h k = absurd (omega arith)
put_uvarint_loop_more (suc f) (suc g) w h k =
    rw (put_uvarint_loop_more f g (w / 128) (omega (arith, pow-suc 128 (suc f))) (omega arith))
